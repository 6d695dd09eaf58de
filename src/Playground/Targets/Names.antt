-- ===== src/Playground/Targets/Names.antt =====
-- pipelines/playground.py `parse_hosts`: which names it returns, and which it takes unchanged.
use exact_surface.Prelude.{
  ℕ, ◌≡◌, refl, ap, ◌∙◌, Bool, true, false, ◌||◌, List, [], ◌∷◌, ◌++◌, any, arith, All, All-append,
  inl, inr, if◌then◌else◌, contains, text_eq, Bool-cases,
}
use mathlib.Core.List.{reverse, reverse-cons}
use exact_surface.Scope.Host.{Text, strip_dots, rstrip_dots}
use exact_surface.Playground.Targets.{
  split_lines, strip, before, has, after_last, without_scheme, clean, is_usable, add_once,
  take_hosts, parse_hosts,
}

pub any-append : (p : ℕ → Bool) (s t : Text) → any p (s ++ t) ≡ (any p s || any p t)
any-append p [] t = refl
any-append p (c ∷ s) t = ground (arith, any-append p s t)

pub any-reverse : (p : ℕ → Bool) (s : Text) → any p (reverse s) ≡ any p s
any-reverse p [] = refl
any-reverse p (c ∷ s) =
    ap (any p) (reverse-cons c s)
    ∙ ground (arith, any-append p (reverse s) (c ∷ []), any-reverse p s)

any-strip_dots : (p : ℕ → Bool) (s : Text) → any p s ≡ false → any p (strip_dots s) ≡ false
unfolding strip_dots
any-strip_dots p [] h = refl
any-strip_dots p (c ∷ s) h = ground (arith, h, any-strip_dots p s)

any-rstrip_dots : (p : ℕ → Bool) (s : Text) → any p s ≡ false → any p (rstrip_dots s) ≡ false
unfolding rstrip_dots
any-rstrip_dots p s h =
    any-reverse p (strip_dots (reverse s)) ∙ any-strip_dots p (reverse s) (any-reverse p s ∙ h)

any-before : (p : ℕ → Bool) (c : ℕ) (s : Text) → any p s ≡ false → any p (before c s) ≡ false
unfolding before
any-before p c [] h = refl
any-before p c (x ∷ s) h = ground (arith, h, any-before p c s)

any-after_last :
    (p : ℕ → Bool) (c : ℕ) (s : Text) → any p s ≡ false → any p (after_last c s) ≡ false
unfolding after_last
any-after_last p c [] h = refl
any-after_last p c (x ∷ s) h = ground (arith, h, any-after_last p c s)

has-before : (c : ℕ) (s : Text) → has c (before c s) ≡ false
unfolding before
has-before c [] = refl
has-before c (x ∷ s) = ground (arith, has-before c s)

has-after_last : (c : ℕ) (s : Text) → has c (after_last c s) ≡ false
unfolding after_last
has-after_last c [] = refl
has-after_last c (x ∷ s) = ground (arith, has-after_last c s)

-- A name that `parse_hosts` may return.
pub record IsName (h : Text) : Type 0 where
  pub no_path : has b'/' h ≡ false
  pub no_user : has b'@' h ≡ false
  pub no_port : has b':' h ≡ false
  pub no_wildcard : has b'*' h ≡ false
  pub no_blank : has b' ' h ≡ false
  pub dotted : has b'.' h ≡ true

module _ (str_lower : Text → Text) where
  clean-IsName :
      (line : Text) → is_usable (clean str_lower line) ≡ true → IsName (clean str_lower line)
  unfolding clean is_usable
  clean-IsName line u =
      let s = without_scheme (str_lower (strip line)) in
      let host = before b'/' s in
      let addr = after_last b'@' host in
      let kept : (p : ℕ → Bool) → any p addr ≡ false → any p (clean str_lower line) ≡ false =
        (λ p h.
          any-rstrip_dots p (strip_dots (before b':' addr))
            (any-strip_dots p (before b':' addr) (any-before p b':' addr h))) in
      record {
        no_path = kept _ (any-after_last _ b'@' host (has-before b'/' s));
        no_user = kept _ (has-after_last b'@' host);
        no_port =
            any-rstrip_dots _ (strip_dots (before b':' addr))
              (any-strip_dots _ (before b':' addr) (has-before b':' addr));
        no_wildcard = ground (arith, u);
        no_blank = ground (arith, u);
        dotted = ground (arith, u);
      }

-- No name stands twice.
abbrev pub Apart : List Text → Type 0
Apart [] = Unit
Apart (h ∷ hs) = (contains h hs ≡ false) × Apart hs

pub contains-append :
    (h : Text) (xs ys : List Text) → contains h (xs ++ ys) ≡ (contains h xs || contains h ys)
unfolding contains
contains-append h [] ys = refl
contains-append h (x ∷ xs) ys = ground (arith, contains-append h xs ys)

Apart-append :
    (xs : List Text) (h : Text) → Apart xs → contains h xs ≡ false → Apart (xs ++ (h ∷ []))
unfolding contains
Apart-append [] h a f = (refl, tt)
Apart-append (x ∷ xs) h a f = (
  ground (arith, a.0, contains-append x xs (h ∷ []), text_eq.beq_iff x h, text_eq.beq_iff h x, f),
  Apart-append xs h a.1 (ground (arith, f)),
)

module _ (str_lower : Text → Text) where
  take_hosts-All :
      (out lines : List Text)
      → All IsName out × Apart out
      → All IsName (take_hosts str_lower out lines) × Apart (take_hosts str_lower out lines)
  unfolding take_hosts
  take_hosts-All out [] h = h
  take_hosts-All out (line ∷ lines) h =
      take_hosts-All
        (if is_usable (clean str_lower line) then add_once (clean str_lower line) out else out)
        lines
        (elim (Bool-cases (is_usable (clean str_lower line))) [
          | inr f ↦ rw f h
          | inl t ↦ elim (Bool-cases (contains (clean str_lower line) out)) [
            | inl old ↦ rw (t, old) h
            | inr new ↦
                rw (t, new)
                  (
                    All-append IsName out (clean str_lower line ∷ []) h.0
                        (clean-IsName str_lower line t, tt),
                    Apart-append out (clean str_lower line) h.1 new,
                  )
          ]
        ])

  -- Whatever is typed into a Target node, the names taken from it have a dot and no path, user, port, wildcard
  -- or blank, and none is taken twice.
  pub parse_hosts-All :
      (raw : Text) → All IsName (parse_hosts str_lower raw) × Apart (parse_hosts str_lower raw)
  unfolding parse_hosts
  parse_hosts-All raw = take_hosts-All [] (split_lines raw) (tt, tt)
