-- ===== src/Prelude/Dicts.antt =====
-- Python's `dict` as an association list in insertion order, and a `set` as a list with a
-- membership test. A write to a key that is present keeps its place, as `d[k] = v` does.
use Prim.Native.Nat.{◌≤◌, ◌<◌}
use mathlib.Core.Path.{◌≡◌, refl, sym, subst}
use mathlib.Core.Bool.{Bool, true, false, ◌||◌}
use mathlib.Core.List.{List, [], ◌∷◌}
use mathlib.Core.Option.{Option, none, some, some-injective}
use mathlib.Core.Logic.{inl, inr}
use native.Mathlib.Omega.{arith}
use exact_surface.Prelude.Tests.{if◌then◌else◌, Bool-cases}
use exact_surface.Prelude.Lists.{In, here, there, length}
use exact_surface.Prelude.Equality.{Keyed, ◌==◌}

abbrev pub Dict {κ ℓ} : Type κ → Type ℓ → Type (κ ⊔ ℓ)
Dict K V = List (K × V)

module _ {κ ℓ} {K : Type κ} {V : Type ℓ} ⦃e : Keyed K⦄ where
  -- d.get(k)
  unfoldable pub get : K → Dict K V → Option V
  get k [] = none
  get k ((j, v) ∷ d) = if j == k then some v else get k d

  -- d[k] = v
  unfoldable pub put : K → V → Dict K V → Dict K V
  put k v [] = (k, v) ∷ []
  put k v ((j, w) ∷ d) = if j == k then (j, v) ∷ d else (j, w) ∷ put k v d

  -- One binding read after a write.
  pub get-put :
      (k j : K) (v : V) (d : Dict K V) → get j (put k v d) ≡ (if k == j then some v else get j d)
  unfolding get put
  get-put k j v [] = refl
  get-put k j v ((i, w) ∷ d) =
      ground (arith, e.beq_iff k j, e.beq_iff i k, e.beq_iff i j, get-put k j v d)

module _ {ℓ} {K : Type ℓ} ⦃e : Keyed K⦄ where
  -- k in s
  unfoldable pub contains : K → List K → Bool
  contains k [] = false
  contains k (x ∷ xs) = x == k || contains k xs

  -- s.add(k)
  unfoldable pub insert : K → List K → List K
  unfolding contains
  insert k s = if contains k s then s else k ∷ s

  -- s.discard(k)
  unfoldable pub discard : K → List K → List K
  discard k [] = []
  discard k (x ∷ xs) = let rest = discard k xs in if x == k then rest else x ∷ rest

  pub contains-insert : (k j : K) (s : List K) → contains j (insert k s) ≡ (k == j || contains j s)
  unfolding insert
  contains-insert k j s = ground (arith, e.beq_iff k j)

  pub contains-discard :
      (k j : K) (s : List K) → contains j (discard k s) ≡ (if k == j then false else contains j s)
  unfolding contains discard
  contains-discard k j [] = ground arith
  contains-discard k j (x ∷ xs) =
      ground (arith, e.beq_iff k j, e.beq_iff x k, e.beq_iff x j, contains-discard k j xs)

  pub contains→In : (k : K) (s : List K) → contains k s ≡ true → In k s
  unfolding contains
  contains→In k [] h = cc
  contains→In k (x ∷ xs) h = elim (Bool-cases (x == k)) [
    | inl t ↦ here (ground (arith, e.beq_iff x k))
    | inr f ↦ there (contains→In k xs (ground arith))
  ]

  pub In→contains : (k : K) (s : List K) → In k s → contains k s ≡ true
  unfolding contains
  In→contains k [] h = elim h [ ]
  In→contains k (x ∷ xs) (here p) = ground (arith, e.beq_iff x k)
  In→contains k (x ∷ xs) (there m) = ground (arith, In→contains k xs m)

  pub length-discard :
      (k : K) (s : List K)
      → (length (discard k s) ≤ length s) × (contains k s ≡ true → length (discard k s) < length s)
  unfolding contains discard
  length-discard k [] = ground arith
  length-discard k (x ∷ xs) = ground (arith, length-discard k xs)

-- list(d)
abbrev pub keys {κ ℓ} : {K : Type κ} {V : Type ℓ} → Dict K V → List K
keys [] = []
keys ((k, v) ∷ d) = k ∷ keys d

module _ {κ ℓ} {K : Type κ} {V : Type ℓ} ⦃e : Keyed K⦄ where
  -- d.update(other)
  unfoldable pub update : Dict K V → Dict K V → Dict K V
  update d [] = d
  update d ((k, v) ∷ other) = update (put k v d) other

  -- A key that is missing after an update was in neither dict.
  pub get-update_keys :
      (k : K) (d other : Dict K V)
      → get k (update d other) ≡ none
      → (get k d ≡ none) × (get k other ≡ none)
  unfolding update get
  get-update_keys k d [] h = (h, refl)
  get-update_keys k d ((j, v) ∷ other) h =
      let r = get-update_keys k (put j v d) other h in ground (arith, r, get-put j k v d)

module _ {κ ℓ μ} {K : Type κ} {V : Type ℓ} ⦃e : Keyed K⦄ where
  -- Every binding has the property.
  abbrev pub Entries : (K → V → Type μ) → Dict K V → Type μ
  Entries P [] = Unit
  Entries P ((k, v) ∷ d) = P k v × Entries P d

  pub Entries-put :
      (P : K → V → Type μ) (k : K) (v : V) (d : Dict K V)
      → P k v
      → Entries P d
      → Entries P (put k v d)
  unfolding put
  Entries-put P k v [] p h = (p, tt)
  Entries-put P k v ((j, w) ∷ d) p h = elim (Bool-cases (j == k)) [
    | inl t ↦ rw (t, Entries) (subst (λ x. P x v) (sym ((e.beq_iff j k).0 t)) p, h.1)
    | inr f ↦ rw (f, Entries) (h.0, Entries-put P k v d p h.1)
  ]

  pub Entries-update :
      (P : K → V → Type μ) (d other : Dict K V)
      → Entries P d
      → Entries P other
      → Entries P (update d other)
  unfolding update
  Entries-update P d [] h o = h
  Entries-update P d ((k, v) ∷ other) h o =
      Entries-update P (put k v d) other (Entries-put P k v d o.0 h) o.1

  pub Entries-get :
      (P : K → V → Type μ) (k : K) (v : V) (d : Dict K V) → Entries P d → get k d ≡ some v → P k v
  unfolding get
  Entries-get P k v [] h q = cc
  Entries-get P k v ((j, w) ∷ d) h q = elim (Bool-cases (j == k)) [
    | inl t ↦
        subst (λ x. P x v) ((e.beq_iff j k).0 t)
          (subst (P j) (some-injective _ _ (rw (t, get) at q)) h.0)
    | inr f ↦ Entries-get P k v d h.1 (rw (f, get) at q)
  ]
