-- ===== src/Rate/Degrading.antt =====
-- core/ratelimit.py: `DegradingBucketStore`. The primary store is a parameter that may fail, which
-- stands for an exception; the fallback is the in-memory store. So that the division by `fleet_size`
-- is exact, the local buckets count in `fleet_size`-ths of a unit: there a cost is `fleet_size` times
-- as many, and a divided rate as many as the whole rate was units.
use exact_surface.Prelude.{
  ℕ, ◌+◌, ◌*◌, ◌≤◌, max, String, ◌≡◌, refl, Bool, true, false, Option, none, some, List, [], ◌∷◌,
  arith, ltb, if◌then◌else◌, length, map, ◌<◌, ◌∙◌, subst, All, string_eq, ◌==◌,
}
use native.Mathlib.Nat.{mul-le-mul_right, le_refl}
use exact_surface.Rate.{RateLimit, one_token, Buckets, take}
use exact_surface.Rate.Ceiling.{Call, granted, forward, granted-le-ceiling}

-- `BucketStore`, for a store whose `take` may raise.
pub record Primary : Type 1 where
  pub Store : Type 0
  pub take : Store → String → RateLimit → ℕ → ℕ → Option Bool × Store

module _ (primary : Primary) where
  pub record Degrading : Type 0 where
    pub shared : primary.Store
    pub fallback : Buckets
    pub fleet_size : ℕ
    pub degraded : Bool

  -- `__init__`; `none` is the ValueError.
  unfoldable pub make : primary.Store → ℕ → Option Degrading
  make p fleet_size =
      if ltb fleet_size 1
      then none
      else some (record { shared = p; fallback = []; fleet_size = fleet_size; degraded = false })

  -- The shared store cannot be reached, now or later.
  abbrev pub IsDown : Type 0
  IsDown =
      (p : primary.Store) (key : String) (limit : RateLimit) (cost now : ℕ)
      → (primary.take p key limit cost now).0 ≡ none

-- `_local_limit`, in `fleet_size`-ths of a unit: limit.rate / fleet_size is limit.rate of them, and
-- max(1.0, limit.burst / fleet_size) the larger of fleet_size tokens and limit.burst.
unfoldable pub local_limit : ℕ → RateLimit → RateLimit
local_limit fleet_size limit = record {
  rate = limit.rate;
  burst = max (fleet_size * one_token) limit.burst;
}

abbrev cost_if : Bool → ℕ → ℕ
cost_if b n = if b then n else 0

-- The call as the local bucket counts it.
abbrev in_shares : ℕ → Call → Call
in_shares n c = record c { cost = n * c.cost }

mul-cost_if :
    (n cost : ℕ) (own ok : Bool)
    → n * (if own then cost_if ok cost else 0) ≡ (if own then cost_if ok (n * cost) else 0)
mul-cost_if n cost true true = refl
mul-cost_if n cost true false = omega arith
mul-cost_if n cost false ok = omega arith

mul-add : (n a b : ℕ) → n * (a + b) ≡ n * a + n * b
mul-add n a b = grind arith

forward-in_shares :
    (key : String) (n : ℕ) (last : Option ℕ) (cs : List Call)
    → forward key last (map (in_shares n) cs) ≡ forward key last cs
unfolding forward
forward-in_shares key n last [] = refl
forward-in_shares key n none (c ∷ cs) =
    ground (arith, forward-in_shares key n none cs, forward-in_shares key n (some c.now) cs)
forward-in_shares key n (some t) (c ∷ cs) =
    ground (arith, forward-in_shares key n (some t) cs, forward-in_shares key n (some c.now) cs)

module _ (primary : Primary) where
  -- `take`: any failure of the primary is answered from the local bucket.
  unfoldable pub degrading_take :
      Degrading primary → String → RateLimit → ℕ → ℕ → Bool × Degrading primary
  unfolding local_limit
  degrading_take d key limit cost now =
      let (answer, p) = primary.take d.shared key limit cost now in
      elim answer [
        | some ok ↦ (ok, record d { shared = p; degraded = false })
        | none ↦
            let (ok, b) =
              take d.fallback key (local_limit d.fleet_size limit) (d.fleet_size * cost) now in
            (ok, record d { shared = p; fallback = b; degraded = true })
      ]

  -- What one worker's store grants to a target over its calls.
  unfoldable pub worker_granted : String → Degrading primary → RateLimit → List Call → ℕ
  worker_granted key d limit [] = 0
  worker_granted key d limit (c ∷ cs) =
      (if c.key == key then cost_if (degrading_take d c.key limit c.cost c.now).0 c.cost else 0)
      + worker_granted key (degrading_take d c.key limit c.cost c.now).1 limit cs

  -- What the workers of a fleet grant together, each from a store of its own.
  unfoldable pub fleet_granted : String → ℕ → RateLimit → primary.Store → List (List Call) → ℕ
  fleet_granted key fleet_size limit p [] = 0
  fleet_granted key fleet_size limit p (cs ∷ workers) =
      worker_granted key
        (record { shared = p; fallback = []; fleet_size = fleet_size; degraded = false }) limit cs
      + fleet_granted key fleet_size limit p workers

  down_take :
      (d : Degrading primary) (n : ℕ) (key : String) (limit : RateLimit) (cost now : ℕ)
      → IsDown primary
      → d.fleet_size ≡ n
      → ((degrading_take d key limit cost now).0
          ≡ (take d.fallback key (local_limit n limit) (n * cost) now).0)
        × ((degrading_take d key limit cost now).1.fallback
            ≡ (take d.fallback key (local_limit n limit) (n * cost) now).1)
        × ((degrading_take d key limit cost now).1.fleet_size ≡ n)
  unfolding degrading_take
  down_take d n key limit cost now down e =
      subst
        (λ m.
          ((degrading_take d key limit cost now).0
            ≡ (take d.fallback key (local_limit m limit) (m * cost) now).0)
          × ((degrading_take d key limit cost now).1.fallback
              ≡ (take d.fallback key (local_limit m limit) (m * cost) now).1)
          × ((degrading_take d key limit cost now).1.fleet_size ≡ m))
        e (ground (arith, down d.shared key limit cost now))

  worker_granted-down :
      (n : ℕ) (key : String) (d : Degrading primary) (limit : RateLimit) (cs : List Call)
      → IsDown primary
      → d.fleet_size ≡ n
      → n * worker_granted key d limit cs
        ≡ granted key d.fallback (local_limit n limit) (map (in_shares n) cs)
  unfolding worker_granted granted
  worker_granted-down n key d limit [] down e = omega arith
  worker_granted-down n key d limit (c ∷ cs) down e =
      let t = down_take d n c.key limit c.cost c.now down e in
      let ih =
        worker_granted-down n key (degrading_take d c.key limit c.cost c.now).1 limit cs down t.2 in
      let one = mul-cost_if n c.cost (c.key == key) (degrading_take d c.key limit c.cost c.now).0 in
      mul-add n _ _ ∙ rw (one, ih, t.0, t.1) refl

  fleet-sum :
      (key : String) (n window bound : ℕ) (limit : RateLimit) (p : primary.Store)
      (workers : List (List Call))
      → IsDown primary
      → (local_limit n limit).burst + window * (local_limit n limit).rate ≤ bound
      → All (λ cs. forward key none cs ≤ window) workers
      → n * fleet_granted key n limit p workers ≤ length workers * bound
  unfolding fleet_granted
  fleet-sum key n window bound limit p [] down b h = omega arith
  fleet-sum key n window bound limit p (cs ∷ workers) down b h =
      let l = local_limit n limit in
      let d : Degrading primary = record {
        shared = p;
        fallback = [];
        fleet_size = n;
        degraded = false;
      } in
      let one =
        subst (λ t. granted key [] l (map (in_shares n) cs) ≤ l.burst + t * l.rate)
          (forward-in_shares key n none cs) (granted-le-ceiling key l (map (in_shares n) cs)) in
      let time = mul-le-mul_right l.rate h.0 in
      let more = fleet-sum key n window bound limit p workers down b h.1 in
      rw (mul-add n (worker_granted key d limit cs) (fleet_granted key n limit p workers))
        (rw (worker_granted-down n key d limit cs down refl) (omega (arith, one, time, more, b)))

le_of_mul-le-mul : (n a b : ℕ) → 0 < n → n * a ≤ n * b → a ≤ b
le_of_mul-le-mul n a b p h = grind arith

module _ (primary : Primary) where
  -- While the shared store cannot be reached, a fleet of at most `fleet_size` workers, each calling
  -- from its own local bucket over a window of time, grants a target at most what the configured
  -- rate yields in that window and one burst, or one token for each worker where that is more.
  pub fleet_granted-le-ceiling :
      (key : String) (fleet_size window : ℕ) (limit : RateLimit) (p : primary.Store)
      (workers : List (List Call))
      → IsDown primary
      → length workers ≤ fleet_size
      → All (λ cs. forward key none cs ≤ window) workers
      → fleet_granted primary key fleet_size limit p workers
        ≤ max (fleet_size * one_token) limit.burst + window * limit.rate
  unfolding local_limit fleet_granted
  fleet_granted-le-ceiling key n window limit p [] down few h = omega arith
  fleet_granted-le-ceiling key n window limit p (cs ∷ workers) down few h =
      let bound = max (n * one_token) limit.burst + window * limit.rate in
      let sum =
        fleet-sum primary key n window bound limit p (cs ∷ workers) down (le_refl bound) h in
      le_of_mul-le-mul n _ bound (omega (arith, few))
        (omega (arith, sum, mul-le-mul_right bound few))

  -- The flag says whether the last call was answered by the fallback, and a call that the primary
  -- answers leaves the local buckets alone.
  pub degrading_take-degraded :
      (d : Degrading primary) (key : String) (limit : RateLimit) (cost now : ℕ) (ok : Bool)
      → ((primary.take d.shared key limit cost now).0 ≡ none
          → (degrading_take primary d key limit cost now).1.degraded ≡ true)
        × ((primary.take d.shared key limit cost now).0 ≡ some ok
            → ((degrading_take primary d key limit cost now).0 ≡ ok)
              × ((degrading_take primary d key limit cost now).1.degraded ≡ false)
              × ((degrading_take primary d key limit cost now).1.fallback ≡ d.fallback))
  unfolding degrading_take
  degrading_take-degraded d key limit cost now ok = ground arith
