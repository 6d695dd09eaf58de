-- ===== src/Modules/Closure.antt =====
-- core/modules.py: the second loop of `resolve` stops, and with the largest set that it may keep.
use exact_surface.Prelude.{
  ℕ, zero, suc, ◌≤◌, ◌<◌, String, ◌≡◌, refl, sym, subst, ◌∙◌, Bool, true, false, not, none, some,
  List, [], ◌∷◌, arith, length, find-In, find-none, In, here, there, In-cons, contains,
  contains-discard, length-discard, string_eq, ◌==◌, Bool-cases, Option-cases, inl, inr,
}
use mathlib.Core.Option.{some-injective}
use exact_surface.Modules.{ModuleSpec, ModuleState, first_missing, prune, sweep, settle}

-- Each module of the set that the registry names has all that it requires in the set.
abbrev pub IsClosed : List ModuleSpec → List String → Type 0
IsClosed ms enabled =
    (m : ModuleSpec)
    → In m ms
    → contains m.name enabled ≡ true
    → (r : String) → In r m.requires
    → contains r enabled ≡ true

not-false : (b : Bool) → not b ≡ false → b ≡ true
not-false b h = ground arith

not-true : (b : Bool) → not b ≡ true → b ≡ false
not-true b h = ground arith

prune_still :
    (s : ModuleState) (m : ModuleSpec)
    → (prune s m).1 ≡ false
    → ((prune s m).0 ≡ s)
      × (contains m.name s.enabled ≡ true → first_missing s.enabled m.requires ≡ none)
unfolding prune
prune_still s m h = ground arith

IsClosed-cons :
    (m : ModuleSpec) (ms : List ModuleSpec) (enabled : List String)
    → (contains m.name enabled ≡ true → first_missing enabled m.requires ≡ none)
    → IsClosed ms enabled
    → IsClosed (m ∷ ms) enabled
IsClosed-cons m ms enabled h later x k c r q = elim (In-cons k) [
  | inl e ↦ not-false (contains r enabled) (
      find-none (λ y. not (contains y enabled)) m.requires
        (h (subst (λ y. contains y.name enabled ≡ true) e c)) (subst (λ y. In r y.requires) e q))
  | inr k' ↦ later x k' c r q
]

sweep_still :
    (s : ModuleState) (ms : List ModuleSpec)
    → (sweep s ms).1 ≡ false
    → ((sweep s ms).0 ≡ s) × IsClosed ms s.enabled
unfolding sweep
sweep_still s [] h = (refl, λ m k. elim k [ ])
sweep_still s (m ∷ ms) h =
    let still = prune_still s m (ground arith) in
    let later = sweep_still (prune s m).0 ms (ground arith) in
    (
      later.0 ∙ still.0,
      IsClosed-cons m ms s.enabled still.1 (subst (λ t. IsClosed ms t.enabled) still.0 later.1),
    )

length-prune :
    (s : ModuleState) (m : ModuleSpec)
    → (length (prune s m).0.enabled ≤ length s.enabled)
      × ((prune s m).1 ≡ true → length (prune s m).0.enabled < length s.enabled)
unfolding prune
length-prune s m = ground (arith, length-discard m.name s.enabled)

length-sweep :
    (s : ModuleState) (ms : List ModuleSpec)
    → (length (sweep s ms).0.enabled ≤ length s.enabled)
      × ((sweep s ms).1 ≡ true → length (sweep s ms).0.enabled < length s.enabled)
unfolding sweep
length-sweep s [] = ground arith
length-sweep s (m ∷ ms) = ground (arith, length-prune s m, length-sweep (prune s m).0 ms)

pub settle_total :
    (fuel : ℕ) (ms : List ModuleSpec) (s : ModuleState)
    → length s.enabled < fuel
    → (r : ModuleState) × (settle fuel ms s ≡ some r)
unfolding settle
settle_total zero ms s h = elim h [ ]
settle_total (suc fuel) ms s h = elim (Bool-cases (sweep s ms).1) [
  | inl t ↦
      let (r, e) = settle_total fuel ms (sweep s ms).0 (omega (arith, (length-sweep s ms).1 t)) in
      (r, rw (t, e))
  | inr f ↦ ((sweep s ms).0, rw f)
]

pub settle-IsClosed :
    (fuel : ℕ) (ms : List ModuleSpec) (s r : ModuleState)
    → settle fuel ms s ≡ some r
    → IsClosed ms r.enabled
unfolding settle
settle-IsClosed zero ms s r e = cc
settle-IsClosed (suc fuel) ms s r e = elim (Bool-cases (sweep s ms).1) [
  | inl t ↦ settle-IsClosed fuel ms (sweep s ms).0 r (rw (t, settle) at e)
  | inr f ↦
      let still = sweep_still s ms f in
      let same = sym still.0 ∙ some-injective _ _ (rw (f, settle) at e) in
      subst (λ t. IsClosed ms t.enabled) same still.1
]

-- A set of names that holds all its members require, as far as the registry names them.
abbrev pub Supports : List ModuleSpec → (String → Type 0) → Type 0
Supports ms S = (m : ModuleSpec) → In m ms → S m.name → (r : String) → In r m.requires → S r

-- The state has every member of the set.
abbrev pub Has : (String → Type 0) → ModuleState → Type 0
Has S s = (n : String) → S n → contains n s.enabled ≡ true

prune-Has :
    (S : String → Type 0) (s : ModuleState) (m : ModuleSpec)
    → (S m.name → (r : String) → In r m.requires → S r)
    → Has S s
    → Has S (prune s m).0
unfolding prune
prune-Has S s m sup h n k = elim (Option-cases (first_missing s.enabled m.requires)) [
  | inl kept ↦ ground (arith, h n k)
  | inr (r, lost) ↦ elim (Bool-cases (m.name == n)) [
    | inl same ↦
        let gone = find-In (λ y. not (contains y s.enabled)) m.requires lost in
        let there' = h r (sup (subst S (sym ((string_eq.beq_iff m.name n).0 same)) k) r gone.0) in
        cc (not-true _ gone.1)
    | inr other ↦ ground (arith, h n k, contains-discard m.name n s.enabled)
  ]
]

sweep-Has :
    (S : String → Type 0) (ms : List ModuleSpec) (s : ModuleState)
    → Supports ms S
    → Has S s
    → Has S (sweep s ms).0
unfolding sweep
sweep-Has S [] s sup h = h
sweep-Has S (m ∷ ms) s sup h =
    sweep-Has S ms (prune s m).0 (λ x k. sup x (there k)) (prune-Has S s m (sup m (here refl)) h)

pub settle-Has :
    (S : String → Type 0) (fuel : ℕ) (ms : List ModuleSpec) (s r : ModuleState)
    → Supports ms S
    → Has S s
    → settle fuel ms s ≡ some r
    → Has S r
unfolding settle
settle-Has S zero ms s r sup h e = cc
settle-Has S (suc fuel) ms s r sup h e = elim (Bool-cases (sweep s ms).1) [
  | inl t ↦ settle-Has S fuel ms (sweep s ms).0 r sup (sweep-Has S ms s sup h) (rw (t, settle) at e)
  | inr f ↦ subst (Has S) (some-injective _ _ (rw (f, settle) at e)) (sweep-Has S ms s sup h)
]
