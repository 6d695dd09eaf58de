-- ===== src/Playground/Targets/Plain.antt =====
-- pipelines/playground.py `parse_hosts`: the names that it takes as they are typed.
use exact_surface.Prelude.{
  ℕ, ◌≡◌, refl, ap, sym, ◌∙◌, Bool, true, false, ◌&&◌, ◌||◌, none, List, [], ◌∷◌, ◌++◌, any, leb,
  nat_beq, nat_beq_iff, arith, All, inl, inr, if◌then◌else◌, contains, text_eq, Bool-cases,
}
use mathlib.Core.List.{reverse, reverse-reverse, append_assoc, append-nil}
use exact_surface.Scope.Host.{Text, lower, lower_char, strip_dots, rstrip_dots}
use exact_surface.Playground.Targets.{
  ends_line, is_space, to_front, split_lines, lstrip, strip, before, has, after_last, skip_scheme,
  without_scheme, clean, is_usable, add_once, take_hosts, parse_hosts,
}
use exact_surface.Playground.Targets.Names.{any-reverse, contains-append, Apart}

-- A character that `parse_hosts` reads as something else than a part of a name.
abbrev pub is_special : ℕ → Bool
is_special c =
    leb 128 c
    || (is_space c
        || (ends_line c
            || ((leb b'A' c && leb c b'Z')
                || (nat_beq c b'/' || (nat_beq c b'@' || (nat_beq c b':' || nat_beq c b'*'))))))

abbrev pub leads : Text → Bool
leads [] = false
leads (c ∷ s) = nat_beq c b'.'

-- A lower-case ASCII text with a dot, and something else at each end.
pub record IsPlain (h : Text) : Type 0 where
  pub ordinary : any is_special h ≡ false
  pub dotted : has b'.' h ≡ true
  pub starts : leads h ≡ false
  pub stops : leads (reverse h) ≡ false

-- "\n".join(hosts)
unfoldable pub join_lines : List Text → Text
join_lines [] = []
join_lines (h ∷ []) = h
join_lines (h ∷ (k ∷ hs)) = h ++ (10 ∷ join_lines (k ∷ hs))

any_weaken :
    (p q : ℕ → Bool) (s : Text)
    → ((c : ℕ) → p c ≡ false → q c ≡ false)
    → any p s ≡ false
    → any q s ≡ false
any_weaken p q [] f h = refl
any_weaken p q (c ∷ s) f h = ground (arith, f c, h, any_weaken p q s f)

split_lines-append :
    (h r : Text) → any ends_line h ≡ false → split_lines (h ++ (10 ∷ r)) ≡ h ∷ split_lines r
unfolding split_lines to_front
split_lines-append [] r f = refl
split_lines-append (c ∷ h) r f =
    let ih = split_lines-append h r (ground (arith, f)) in
    let g : ends_line c ≡ false = ground (arith, f) in rw (g, split_lines) (ap (to_front c) ih)

split_lines_one : (h : Text) → any ends_line h ≡ false → split_lines h ≡ h ∷ []
unfolding split_lines to_front
split_lines_one [] f = refl
split_lines_one (c ∷ h) f =
    let g : ends_line c ≡ false = ground (arith, f) in
    rw (g, split_lines) (ap (to_front c) (split_lines_one h (ground (arith, f))))

lower_id : (s : Text) → any is_special s ≡ false → lower s ≡ s
unfolding lower lower_char
lower_id [] h = refl
lower_id (c ∷ s) h =
    let g : (leb b'A' c && leb c b'Z') ≡ false = ground (arith, h) in
    rw (g, lower) (ap (λ t. c ∷ t) (lower_id s (ground (arith, h))))

lstrip_id : (s : Text) → any is_special s ≡ false → lstrip s ≡ s
unfolding lstrip
lstrip_id [] h = refl
lstrip_id (c ∷ s) h = let g : is_space c ≡ false = ground (arith, h) in rw (g, lstrip) refl

strip_id : (s : Text) → any is_special s ≡ false → strip s ≡ s
unfolding strip
strip_id s h =
    ap (λ t. reverse (lstrip (reverse t))) (lstrip_id s h)
    ∙ ap reverse (lstrip_id (reverse s) (any-reverse is_special s ∙ h))
    ∙ reverse-reverse s

skip_scheme-none : (s : Text) → any is_special s ≡ false → skip_scheme s ≡ none
unfolding skip_scheme
skip_scheme-none [] h = refl
skip_scheme-none (a ∷ []) h = refl
skip_scheme-none (a ∷ (b ∷ [])) h = refl
skip_scheme-none (a ∷ (b ∷ (c ∷ s))) h =
    let g : nat_beq a b':' ≡ false = ground (arith, h) in
    rw (g, skip_scheme) (skip_scheme-none (b ∷ (c ∷ s)) (ground (arith, h)))

before_id : (c : ℕ) (s : Text) → has c s ≡ false → before c s ≡ s
unfolding before
before_id c [] h = refl
before_id c (x ∷ s) h =
    let g : nat_beq x c ≡ false = ground (arith, h) in
    rw (g, before) (ap (λ t. x ∷ t) (before_id c s (ground (arith, h))))

after_last_id : (c : ℕ) (s : Text) → has c s ≡ false → after_last c s ≡ s
unfolding after_last
after_last_id c [] h = refl
after_last_id c (x ∷ s) h =
    let g : nat_beq x c ≡ false = ground (arith, h) in
    let k : has c s ≡ false = ground (arith, h) in rw (g, k, after_last) refl

strip_dots_id : (s : Text) → leads s ≡ false → strip_dots s ≡ s
unfolding strip_dots
strip_dots_id [] h = refl
strip_dots_id (c ∷ s) h = rw (h, strip_dots) refl

plain_usable : (h : Text) → IsPlain h → is_usable h ≡ true
unfolding is_usable
plain_usable [] p = let d = p.dotted in cc
plain_usable (c ∷ s) p =
    let star =
      any_weaken is_special (λ x. nat_beq x b'*') (c ∷ s) (λ x f. ground (arith, f)) p.ordinary in
    let blank =
      any_weaken is_special (λ x. nat_beq x b' ') (c ∷ s) (λ x f. ground (arith, f)) p.ordinary in
    ground (arith, star, blank, p.dotted)

fresh_append :
    (h : Text) (out hs : List Text)
    → contains h hs ≡ false
    → All (λ x. contains x out ≡ false) hs
    → All (λ x. contains x (out ++ (h ∷ [])) ≡ false) hs
unfolding contains
fresh_append h out [] a n = tt
fresh_append h out (x ∷ xs) a n = (
  ground (arith, contains-append x out (h ∷ []), n.0, a, text_eq.beq_iff x h, text_eq.beq_iff h x),
  fresh_append h out xs (ground (arith, a)) n.1,
)

no_line_end : (h : Text) → IsPlain h → any ends_line h ≡ false
no_line_end h p = any_weaken is_special ends_line h (λ x f. ground (arith, f)) p.ordinary

split_lines-join_lines :
    (h : Text) (hs : List Text) → All IsPlain (h ∷ hs) → split_lines (join_lines (h ∷ hs)) ≡ h ∷ hs
unfolding join_lines
split_lines-join_lines h [] p = split_lines_one h (no_line_end h p.0)
split_lines-join_lines h (k ∷ hs) p =
    split_lines-append h (join_lines (k ∷ hs)) (no_line_end h p.0)
    ∙ ap (λ t. h ∷ t) (split_lines-join_lines k hs p.1)

-- What is documented of `str.lower`, on text that is ASCII.
abbrev pub LowersAscii : (Text → Text) → Type 0
LowersAscii str_lower = (s : Text) → any (λ c. leb 128 c) s ≡ false → str_lower s ≡ lower s

module _ (str_lower : Text → Text) (ascii : LowersAscii str_lower) where
  clean_id : (h : Text) → IsPlain h → clean str_lower h ≡ h
  unfolding clean rstrip_dots
  clean_id h p =
      let absent : (c : ℕ) → is_special c ≡ true → has c h ≡ false =
        (λ c s. any_weaken is_special (λ x. nat_beq x c) h (λ x f. other x c s f) p.ordinary) in
      let one : str_lower (strip h) ≡ h =
        ap str_lower (strip_id h p.ordinary)
        ∙ ascii h (any_weaken is_special (λ c. leb 128 c) h (λ c f. ground (arith, f)) p.ordinary)
        ∙ lower_id h p.ordinary in
      let two : without_scheme (str_lower (strip h)) ≡ h =
        ap without_scheme one ∙ rw (skip_scheme-none h p.ordinary, without_scheme) refl in
      let three : before b'/' (without_scheme (str_lower (strip h))) ≡ h =
        ap (before b'/') two ∙ before_id b'/' h (absent b'/' refl) in
      let four = ap (after_last b'@') three ∙ after_last_id b'@' h (absent b'@' refl) in
      let five = ap (before b':') four ∙ before_id b':' h (absent b':' refl) in
      ap rstrip_dots (ap strip_dots five ∙ strip_dots_id h p.starts)
      ∙ ap reverse (strip_dots_id (reverse h) p.stops)
      ∙ reverse-reverse h
    where
      other : (x c : ℕ) → is_special c ≡ true → is_special x ≡ false → nat_beq x c ≡ false
      other x c s f = elim (Bool-cases (nat_beq x c)) [
        | inr g ↦ g
        | inl t ↦
            let e : x ≡ c = (nat_beq_iff x c).0 t in
            let same : is_special x ≡ is_special c = ap is_special e in cc
      ]

  take_hosts_id :
      (out hs : List Text)
      → All IsPlain hs
      → Apart hs
      → All (λ h. contains h out ≡ false) hs
      → take_hosts str_lower out hs ≡ out ++ hs
  unfolding take_hosts
  take_hosts_id out [] p a n = sym (append-nil out)
  take_hosts_id out (h ∷ hs) p a n =
      ap (λ x. take_hosts str_lower (if is_usable x then add_once x out else out) hs)
        (clean_id h p.0)
      ∙ rw (plain_usable h p.0, n.0, take_hosts)
          (take_hosts_id (out ++ (h ∷ [])) hs p.1 a.1 (fresh_append h out hs a.0 n.1))
      ∙ append_assoc out (h ∷ []) hs

  clean_empty : clean str_lower [] ≡ []
  unfolding clean strip lstrip lower skip_scheme before after_last strip_dots rstrip_dots
  clean_empty =
      ap
        (λ t.
          rstrip_dots (strip_dots (before b':' (after_last b'@' (before b'/' (without_scheme t))))))
        (ascii [] refl)

  -- A text of different dotted names, one on each line, is read back as those names, where the names
  -- are lower-case ASCII with none of the characters that `parse_hosts` reads as more than a part of a
  -- name; a name may be of digits and dots alone.
  pub parse_hosts-join_lines :
      (hosts : List Text)
      → All IsPlain hosts
      → Apart hosts
      → parse_hosts str_lower (join_lines hosts) ≡ hosts
  unfolding parse_hosts join_lines contains take_hosts is_usable split_lines
  parse_hosts-join_lines [] p a = ap (λ h. if is_usable h then add_once h [] else []) clean_empty
  parse_hosts-join_lines (h ∷ hs) p a =
      ap (take_hosts str_lower []) (split_lines-join_lines h hs p)
      ∙ take_hosts_id [] (h ∷ hs) p a (vacant (h ∷ hs))
    where
      vacant : (xs : List Text) → All (λ x. contains x [] ≡ false) xs
      vacant [] = tt
      vacant (x ∷ xs) = (refl, vacant xs)
