-- ===== src/Prelude/Lists.antt =====
-- Lists measured by the native numbers, and the comprehensions and loops of the source over them.
use Prim.Native.Nat.{ℕ, suc, ◌+◌}
use mathlib.Core.Path.{◌≡◌, refl, sym, subst, ap, ◌∙◌}
use mathlib.Core.Logic.{◌⊎◌, inl, inr}
use mathlib.Core.Bool.{Bool, true, false, ◌||◌}
use mathlib.Core.List.{List, [], ◌∷◌, ◌++◌, map}
use mathlib.Core.Option.{Option, none, some}
use native.Mathlib.Omega.{arith}
use exact_surface.Prelude.Tests.{if◌then◌else◌, Bool-cases}

module _ {ℓ} {A : Type ℓ} where
  abbrev pub length : List A → ℕ
  length [] = 0
  length (x ∷ xs) = suc (length xs)

  pub length-append : (xs ys : List A) → length (xs ++ ys) ≡ length xs + length ys
  length-append [] ys = omega arith
  length-append (x ∷ xs) ys = omega (arith, length-append xs ys)

  -- any(p(x) for x in xs)
  abbrev pub any : (A → Bool) → List A → Bool
  any p [] = false
  any p (x ∷ xs) = p x || any p xs

  -- next((x for x in xs if p(x)), None)
  abbrev pub find : (A → Bool) → List A → Option A
  find p [] = none
  find p (x ∷ xs) = if p x then some x else find p xs

  -- [x for x in xs if p(x)]
  abbrev pub keep : (A → Bool) → List A → List A
  keep p [] = []
  keep p (x ∷ xs) = let rest = keep p xs in if p x then x ∷ rest else rest

  -- Membership, as data that proofs may take apart.
  pub data In (a : A) : List A → Type ℓ where
    here : {x : A} {xs : List A} → a ≡ x → In a (x ∷ xs)
    there : {x : A} {xs : List A} → In a xs → In a (x ∷ xs)

  -- Every item has the property.
  abbrev pub All {κ} : (A → Type κ) → List A → Type κ
  All P [] = Unit
  All P (x ∷ xs) = P x × All P xs

  pub All-append {κ} : (P : A → Type κ) (xs ys : List A) → All P xs → All P ys → All P (xs ++ ys)
  All-append P [] ys h k = k
  All-append P (x ∷ xs) ys h k = (h.0, All-append P xs ys h.1 k)

  pub All-In {κ} : (P : A → Type κ) {a : A} (xs : List A) → All P xs → In a xs → P a
  All-In P [] h m = elim m [ ]
  All-In P (x ∷ xs) h (here e) = subst P (sym e) h.0
  All-In P (x ∷ xs) h (there m) = All-In P xs h.1 m

  pub All-of_In {κ} : (P : A → Type κ) (xs : List A) → ((a : A) → In a xs → P a) → All P xs
  All-of_In P [] h = tt
  All-of_In P (x ∷ xs) h = (h x (here refl), All-of_In P xs (λ a m. h a (there m)))

  pub find-In : (p : A → Bool) (xs : List A) {a : A} → find p xs ≡ some a → In a xs × (p a ≡ true)
  find-In p [] h = cc
  find-In p (x ∷ xs) h = elim (Bool-cases (p x)) [
    | inl t ↦ (here (ground arith), ground arith)
    | inr f ↦ let r = find-In p xs (rw f at h) in (there r.0, r.1)
  ]

module _ {ℓ} {A : Type ℓ} where
  pub In-cons : {a x : A} {xs : List A} → In a (x ∷ xs) → (a ≡ x) ⊎ In a xs
  In-cons (here e) = inl e
  In-cons (there m) = inr m

  pub In-keep : (p : A → Bool) (xs : List A) {a : A} → In a (keep p xs) → In a xs × (p a ≡ true)
  In-keep p [] m = elim m [ ]
  In-keep p (x ∷ xs) m = elim (Bool-cases (p x)) [
    | inl t ↦ elim (In-cons (rw (t, keep) at m)) [
      | inl e ↦ (here e, ap p e ∙ t)
      | inr r ↦ let k = In-keep p xs r in (there k.0, k.1)
    ]
    | inr f ↦ let k = In-keep p xs (rw (f, keep) at m) in (there k.0, k.1)
  ]

  pub keep-In : (p : A → Bool) (xs : List A) {a : A} → In a xs → p a ≡ true → In a (keep p xs)
  keep-In p [] m h = elim m [ ]
  keep-In p (x ∷ xs) (here e) h = let t : p x ≡ true = ap p (sym e) ∙ h in rw (t, keep) (here e)
  keep-In p (x ∷ xs) (there m) h = elim (Bool-cases (p x)) [
    | inl t ↦ rw (t, keep) (there (keep-In p xs m h))
    | inr f ↦ rw (f, keep) (keep-In p xs m h)
  ]

  pub In-map {κ} :
      {B : Type κ} (f : A → B) (xs : List A) {b : B}
      → In b (map f xs)
      → (a : A) × In a xs × (b ≡ f a)
  In-map f [] m = elim m [ ]
  In-map f (x ∷ xs) (here e) = (x, here refl, e)
  In-map f (x ∷ xs) (there m) = let r = In-map f xs m in (r.0, there r.1, r.2)

  pub map-In {κ} : {B : Type κ} (f : A → B) (xs : List A) {a : A} → In a xs → In (f a) (map f xs)
  map-In f [] m = elim m [ ]
  map-In f (x ∷ xs) (here e) = here (ap f e)
  map-In f (x ∷ xs) (there m) = there (map-In f xs m)

  pub find-none : (p : A → Bool) (xs : List A) {a : A} → find p xs ≡ none → In a xs → p a ≡ false
  find-none p [] h m = elim m [ ]
  find-none p (x ∷ xs) h (here e) = ap p e ∙ ground arith
  find-none p (x ∷ xs) h (there m) = find-none p xs (ground arith) m

  pub any-true : (p : A → Bool) (xs : List A) → any p xs ≡ true → (a : A) × In a xs × (p a ≡ true)
  any-true p [] h = cc
  any-true p (x ∷ xs) h = elim (Bool-cases (p x)) [
    | inl t ↦ (x, here refl, t)
    | inr f ↦ let r = any-true p xs (ground (arith, h, f)) in (r.0, there r.1, r.2)
  ]

  pub any-false : (p : A → Bool) (xs : List A) {a : A} → any p xs ≡ false → In a xs → p a ≡ false
  any-false p [] h m = elim m [ ]
  any-false p (x ∷ xs) h (here e) = ap p e ∙ ground (arith, h)
  any-false p (x ∷ xs) h (there m) = any-false p xs (ground (arith, h)) m
