-- ===== src/Rate/Limiter/Waiting.antt =====
-- core/ratelimit.py: `acquire` returns, within its bound, and is granted where the budget allows it.
use exact_surface.Prelude.{
  ℕ, zero, suc, ◌+◌, ◌-◌, ◌*◌, ◌≤◌, ◌<◌, min, String, ◌≡◌, refl, Bool, true, false, Option, some,
  arith, leb, leb→le, string_eq, get, sym, ap, ◌∙◌, Bool-cases, inl, inr,
}
use native.Mathlib.Nat.{mul-le-mul_right}
use exact_surface.Rate.{RateLimit, Bucket, Buckets, refill, or_full, visit, take}
use exact_surface.Rate.Ceiling.{own-take}
use exact_surface.Rate.Limiter.{step, Acquired, allow, acquire_loop, acquire}

step_pos : (cost : ℕ) (limit : RateLimit) → 1 ≤ step cost limit
unfolding step
step_pos cost limit = omega arith

gt_of_leb : (a b : ℕ) → leb a b ≡ false → b < a
gt_of_leb a b h = ground arith

-- How a call of `acquire` ends: within one sleep of the bound, and not before the bound unless the
-- store has granted the operation.
pub record IsDone {Store : Type 0} (cost max_wait : ℕ) (limit : RateLimit) (r : Acquired Store)
    : Type 0 where
  pub bounded : r.waited < max_wait + step cost limit
  pub patient : r.granted ≡ false → max_wait ≤ r.waited

module _ {Store : Type 0} (take : Store → String → RateLimit → ℕ → ℕ → Bool × Store) (key : String)
    (limit : RateLimit) (cost max_wait : ℕ) (clock : ℕ → ℕ) where
  loop-IsDone :
      (fuel : ℕ) (s : Store) (i waited : ℕ)
      → 0 < fuel
      → max_wait < waited + fuel
      → waited < max_wait + step cost limit
      → (r : Acquired Store) × (acquire_loop take key limit cost max_wait clock fuel s i waited
          ≡ some r)
        × IsDone cost max_wait limit r
  unfolding acquire_loop
  loop-IsDone zero s i waited p f b = elim p [ ]
  loop-IsDone (suc fuel) s i waited p f b =
      let s' = (allow take s key limit cost (clock i)).1 in
      elim (Bool-cases (allow take s key limit cost (clock i)).0) [
        | inl t ↦ (
          record { waited = waited; granted = true; store = s' },
          rw t,
          record { bounded = b; patient = λ h. cc },
        )
        | inr n ↦ elim (Bool-cases (leb max_wait waited)) [
          | inl over ↦ (
            record { waited = waited; granted = false; store = s' },
            rw (n, over),
            record { bounded = b; patient = λ h. leb→le max_wait waited over },
          )
          | inr on ↦
              let l = gt_of_leb max_wait waited on in
              let (r, e, d) =
                loop-IsDone fuel s' (i + 1) (waited + step cost limit) (omega arith)
                  (omega (arith, step_pos cost limit)) (omega arith) in
              (r, rw (n, on, e), d)
        ]
      ]

  -- Whatever the store answers and the clock reads, `acquire` returns; it has waited less than
  -- `max_wait` and one step, and gives up no earlier than `max_wait`.
  pub acquire_total :
      (s : Store)
      → (r : Acquired Store) × (acquire take key limit cost max_wait clock s ≡ some r)
        × IsDone cost max_wait limit r
  unfolding acquire
  acquire_total s =
      loop-IsDone (suc max_wait) s 0 0 (omega arith) (omega arith)
        (omega (arith, step_pos cost limit))

visit_refused :
    (limit : RateLimit) (cost now : ℕ) (found : Option Bucket)
    → (visit limit cost now found).0 ≡ false
    → ((refill (or_full limit now found) now limit).tokens < cost)
      × ((visit limit cost now found).1 ≡ refill (or_full limit now found) now limit)
unfolding visit
visit_refused limit cost now found h = ground arith

refill_again :
    (b : Bucket) (limit : RateLimit) (now next : ℕ)
    → (refill (refill b now limit) next limit).tokens
      ≡ min limit.burst ((refill b now limit).tokens + (next - now) * limit.rate)
unfolding refill
refill_again b limit now next = refl

module _ (key : String) (limit : RateLimit) (cost max_wait : ℕ) (clock : ℕ → ℕ)
    (sleeps : (i : ℕ) → clock i + step cost limit ≤ clock (i + 1)) (fits : cost ≤ limit.burst)
    (enough : cost ≤ max_wait * limit.rate) where
  -- The tokens that the i-th round finds.
  abbrev held : Buckets → ℕ → ℕ
  held s i = (refill (or_full limit (clock i) (get key s)) (clock i) limit).tokens

  sleeps' : (i : ℕ) → step cost limit ≤ clock (i + 1) - clock i
  sleeps' i = omega (arith, sleeps i)

  -- A round that is refused leaves the next one a sleep's worth of tokens more.
  held_next :
      (s : Buckets) (i waited : ℕ)
      → min limit.burst (waited * limit.rate) ≤ held s i
      → (take s key limit cost (clock i)).0 ≡ false
      → (waited * limit.rate < cost)
        × (min limit.burst ((waited + step cost limit) * limit.rate)
            ≤ held (take s key limit cost (clock i)).1 (i + 1))
  unfolding refill
  held_next s i waited h refused =
      let (own, left) = own-take key limit s cost (clock i) in
      let (few, same) = visit_refused limit cost (clock i) (get key s) (sym own ∙ refused) in
      let later : get key (take s key limit cost (clock i)).1
          ≡ some (refill (or_full limit (clock i) (get key s)) (clock i) limit) =
        left ∙ ap some same in
      let more = mul-le-mul_right limit.rate (sleeps' i) in
      (
        omega arith,
        rw later (
            rw (refill_again (or_full limit (clock i) (get key s)) limit (clock i) (clock (i + 1)))
              (omega (arith, more))),
      )

  loop_granted :
      (fuel : ℕ) (s : Buckets) (i waited : ℕ) (r : Acquired Buckets)
      → min limit.burst (waited * limit.rate) ≤ held s i
      → acquire_loop take key limit cost max_wait clock fuel s i waited ≡ some r
      → r.granted ≡ true
  unfolding acquire_loop allow
  loop_granted zero s i waited r h e = cc
  loop_granted (suc fuel) s i waited r h e = elim (Bool-cases (take s key limit cost (clock i)).0) [
    | inl t ↦ ground arith
    | inr n ↦ elim (Bool-cases (leb max_wait waited)) [
      | inl over ↦
          let late = mul-le-mul_right limit.rate (leb→le max_wait waited over) in
          absurd (omega (arith, late, (held_next s i waited h n).0))
      | inr on ↦
          loop_granted fuel (take s key limit cost (clock i)).1 (i + 1) (waited + step cost limit) r
            (held_next s i waited h n).1 (rw (n, on, acquire_loop, allow) at e)
    ]
  ]

  -- Where nobody else draws on the bucket, the clock moves on by each sleep, and the cost is
  -- within the burst and within what `max_wait` yields, `acquire` returns, with the operation
  -- granted.
  pub acquire-granted :
      (s : Buckets)
      → (r : Acquired Buckets) × (acquire take key limit cost max_wait clock s ≡ some r)
        × (r.granted ≡ true)
  unfolding acquire
  acquire-granted s =
      let (r, e, done) = acquire_total take key limit cost max_wait clock s in
      (r, e, loop_granted (suc max_wait) s 0 0 r (omega arith) e)
