-- ===== src/Playground/Targets.antt =====
-- pipelines/playground.py: `parse_hosts`, the names that a Target node takes from its text field, as
-- code points; `str.lower` is an argument.
pub mod Names
pub mod Plain
use exact_surface.Prelude.{
  ℕ, suc, Bool, true, false, not, ◌&&◌, ◌||◌, Option, none, some, List, [], ◌∷◌, ◌++◌, any, leb,
  nat_beq, text_beq, if◌then◌else◌, contains, text_eq,
}
use mathlib.Core.List.{reverse}
use exact_surface.Scope.Host.{Text, strip_dots, rstrip_dots}

-- Where str.splitlines() ends a line, and the comma that was replaced by a newline.
abbrev pub ends_line : ℕ → Bool
ends_line c =
    nat_beq c b','
    || ((leb 10 c && leb c 13)
        || ((leb 28 c && leb c 30) || (nat_beq c 133 || (nat_beq c 8232 || nat_beq c 8233))))

-- str.isspace()
abbrev pub is_space : ℕ → Bool
is_space c =
    (leb 9 c && leb c 13)
    || ((leb 28 c && leb c 32)
        || (nat_beq c 133
            || (nat_beq c 160
                || (nat_beq c 5760
                    || ((leb 8192 c && leb c 8202)
                        || (nat_beq c 8232
                            || (nat_beq c 8233
                                || (nat_beq c 8239 || (nat_beq c 8287 || nat_beq c 12288)))))))))

-- raw.replace(",", "\n").splitlines(); an empty last line makes no difference below.
unfoldable pub to_front : ℕ → List Text → List Text
to_front c [] = (c ∷ []) ∷ []
to_front c (line ∷ lines) = (c ∷ line) ∷ lines

unfoldable pub split_lines : Text → List Text
unfolding to_front
split_lines [] = [] ∷ []
split_lines (c ∷ s) = let rest = split_lines s in if ends_line c then [] ∷ rest else to_front c rest

-- s.lstrip() and s.strip()
unfoldable pub lstrip : Text → Text
lstrip [] = []
lstrip (c ∷ s) = let rest = lstrip s in if is_space c then rest else c ∷ s

unfoldable pub strip : Text → Text
unfolding lstrip
strip s = reverse (lstrip (reverse (lstrip s)))

-- s.split(c)[0]
unfoldable pub before : ℕ → Text → Text
before c [] = []
before c (x ∷ s) = let rest = before c s in if nat_beq x c then [] else x ∷ rest

-- c in s
abbrev pub has : ℕ → Text → Bool
has c s = any (λ x. nat_beq x c) s

-- s.split("@")[-1], for any character
unfoldable pub after_last : ℕ → Text → Text
after_last c [] = []
after_last c (x ∷ s) =
    let rest = after_last c s in if nat_beq x c then rest else if has c s then rest else x ∷ s

-- host.split("://", 1)[1] if "://" in host
unfoldable pub skip_scheme : Text → Option Text
skip_scheme [] = none
skip_scheme (a ∷ []) = none
skip_scheme (a ∷ (b ∷ [])) = none
skip_scheme (a ∷ (b ∷ (c ∷ s))) =
    let rest = skip_scheme (b ∷ (c ∷ s)) in
    if nat_beq a b':' && (nat_beq b b'/' && nat_beq c b'/') then some s else rest

abbrev pub without_scheme : Text → Text
without_scheme s = elim (skip_scheme s) [ none ↦ s | some t ↦ t ]

abbrev pub is_nil : Text → Bool
is_nil [] = true
is_nil (c ∷ s) = false

-- The last `continue` of the loop, negated.
unfoldable pub is_usable : Text → Bool
is_usable h = not (is_nil h) && (not (has b'*' h) && (not (has b' ' h) && has b'.' h))

-- out.append(host), unless it is in out
abbrev pub add_once : Text → List Text → List Text
add_once h out = if contains h out then out else out ++ (h ∷ [])

module _ (str_lower : Text → Text) where
  -- The host of a line.
  unfoldable pub clean : Text → Text
  unfolding strip skip_scheme before after_last strip_dots rstrip_dots
  clean line = rstrip_dots (
      strip_dots
        (before b':' (after_last b'@' (before b'/' (without_scheme (str_lower (strip line)))))))

  unfoldable pub take_hosts : List Text → List Text → List Text
  unfolding clean is_usable contains
  take_hosts out [] = out
  take_hosts out (line ∷ lines) =
      let h = clean line in take_hosts (if is_usable h then add_once h out else out) lines

  unfoldable pub parse_hosts : Text → List Text
  unfolding split_lines take_hosts
  parse_hosts raw = take_hosts [] (split_lines raw)

-- list(dict.fromkeys(hosts))
unfoldable pub unique : List Text → List Text → List Text
unfolding contains
unique out [] = out
unique out (h ∷ hs) = unique (add_once h out) hs
