-- ===== src/Prelude/Bindings.antt =====
-- The bindings of a `dict`, one by one.
use mathlib.Core.Path.{◌≡◌, refl, ap, ◌∙◌}
use mathlib.Core.Logic.{◌⊎◌, inl, inr}
use mathlib.Core.Bool.{◌||◌}
use mathlib.Core.List.{[], ◌∷◌}
use mathlib.Core.Option.{some, some-injective}
use native.Mathlib.Omega.{arith}
use exact_surface.Prelude.Tests.{Bool-cases}
use exact_surface.Prelude.Lists.{In, here, there, In-cons}
use exact_surface.Prelude.Equality.{Keyed, ◌==◌}
use exact_surface.Prelude.Dicts.{Dict, get, put, get-put, keys, contains, contains→In, In→contains}

module _ {κ ℓ} {K : Type κ} {V : Type ℓ} ⦃e : Keyed K⦄ where
  pub contains-put :
      (k j : K) (v : V) (d : Dict K V)
      → contains j (keys (put k v d)) ≡ (k == j || contains j (keys d))
  unfolding contains put
  contains-put k j v [] = refl
  contains-put k j v ((i, w) ∷ d) = elim (Bool-cases (i == k)) [
    | inl t ↦ let q = ap (λ z. z == j) ((e.beq_iff i k).0 t) in rw (t, put) (ground (arith, q))
    | inr f ↦ rw (f, put) (ground (arith, contains-put k j v d))
  ]

  pub In-keys-put : (k j : K) (v : V) (d : Dict K V) → In j (keys d) → In j (keys (put k v d))
  In-keys-put k j v d m =
      contains→In j (keys (put k v d))
        (ground (arith, contains-put k j v d, In→contains j (keys d) m))

  pub In-keys-get : (k : K) (d : Dict K V) → In k (keys d) → (v : V) × (get k d ≡ some v)
  unfolding get
  In-keys-get k [] m = elim m [ ]
  In-keys-get k ((j, w) ∷ d) m = elim (Bool-cases (j == k)) [
    | inl t ↦ (w, rw (t, get) refl)
    | inr f ↦ elim (In-cons m) [
      | inl q ↦ absurd (ground (arith, f, q, e.beq_iff j k))
      | inr i ↦ let r = In-keys-get k d i in (r.0, rw (f, get) r.1)
    ]
  ]

  pub get-In : (k : K) (d : Dict K V) {v : V} → get k d ≡ some v → In (k, v) d
  unfolding get
  get-In k [] h = cc
  get-In k ((j, w) ∷ d) h = elim (Bool-cases (j == k)) [
    | inl t ↦
        let q = (e.beq_iff j k).0 t in let s = some-injective _ _ (rw (t, get) at h) in here cc
    | inr f ↦ there (get-In k d (rw (f, get) at h))
  ]

  pub In-put : (k : K) (v : V) (d : Dict K V) {p : K × V} → In p (put k v d) → (p ≡ (k, v)) ⊎ In p d
  unfolding put
  In-put k v [] m = elim (In-cons m) [ inl q ↦ inl q | inr i ↦ elim i [ ] ]
  In-put k v ((j, w) ∷ d) m = elim (Bool-cases (j == k)) [
    | inl t ↦ elim (In-cons (rw (t, put) at m)) [
      | inl q ↦ inl (q ∙ ap (λ z. (z, v)) ((e.beq_iff j k).0 t))
      | inr i ↦ inr (there i)
    ]
    | inr f ↦ elim (In-cons (rw (f, put) at m)) [
      | inl q ↦ inr (here q)
      | inr i ↦ elim (In-put k v d i) [ inl q ↦ inl q | inr o ↦ inr (there o) ]
    ]
  ]

  pub get-put_same : (k : K) (v : V) (d : Dict K V) → get k (put k v d) ≡ some v
  get-put_same k v d = ground (arith, get-put k k v d, e.beq_iff k k)

  pub get-put_other : (k j : K) (v : V) (d : Dict K V) → (k ≡ j → ⊥) → get j (put k v d) ≡ get j d
  get-put_other k j v d h = ground (arith, get-put k j v d, e.beq_iff k j, h)
