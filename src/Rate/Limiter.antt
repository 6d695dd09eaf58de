-- ===== src/Rate/Limiter.antt =====
-- core/ratelimit.py: `PolitenessLimiter`. The store is a parameter, and so are the readings of
-- time.monotonic(): the i-th reading is `clock i`.
pub mod Waiting
use exact_surface.Prelude.{
  ℕ, zero, suc, ◌+◌, ◌-◌, ◌*◌, ◌/◌, ◌≤◌, ◌<◌, min, max, String, ◌≡◌, refl, Bool, true, false,
  Option, none, some, arith, leb, nat_beq, if◌then◌else◌, string_eq, get, Bool-cases, inl, inr,
  leb→le,
}
use exact_surface.Rate.{
  RateLimit, second, one_token, Bucket, Buckets, refill, or_full, spend, visit, take,
}

-- `cost / max(eff.rate, 1e-9)`, in microseconds: at the rate 0 a token takes a billion seconds.
unfoldable pub token_wait : ℕ → RateLimit → ℕ
token_wait cost limit = if nat_beq limit.rate 0 then cost * 1000000000 else cost / limit.rate

-- `RateLimited` carries the wait that it asks for.
pub data Required : Type 0 where
  permitted : Required
  rate_limited : (retry_after : ℕ) → Required

-- How `acquire` returned: the time waited, and whether the store granted the operation or the
-- wait ran out.
pub record Acquired (Store : Type 0) : Type 0 where
  pub waited : ℕ
  pub granted : Bool
  pub store : Store

-- The time that one round sleeps.
unfoldable pub step : ℕ → RateLimit → ℕ
unfolding token_wait
step cost limit = min (max (token_wait cost limit) (second / 1000)) second

module _ {Store : Type 0} (take : Store → String → RateLimit → ℕ → ℕ → Bool × Store) where
  -- `allow`, with the limit that `limit or self._default` gives.
  unfoldable pub allow : Store → String → RateLimit → ℕ → ℕ → Bool × Store
  allow s key limit cost now = take s key limit cost now

  unfoldable pub require : Store → String → RateLimit → ℕ → ℕ → Required × Store
  unfolding allow token_wait
  require s key limit cost now =
      let (ok, s') = allow s key limit cost now in
      (if ok then permitted else rate_limited (token_wait cost limit), s')

  module _ (key : String) (limit : RateLimit) (cost max_wait : ℕ) (clock : ℕ → ℕ) where
    -- The `while True` loop on fuel; `none` means that the fuel ran out.
    unfoldable pub acquire_loop : ℕ → Store → ℕ → ℕ → Option (Acquired Store)
    unfolding allow
    acquire_loop zero s i waited = none
    acquire_loop (suc fuel) s i waited =
        let (ok, s') = allow s key limit cost (clock i) in
        let rest = acquire_loop fuel s' (i + 1) (waited + step cost limit) in
        if ok
        then some (record { waited = waited; granted = true; store = s' })
        else if leb max_wait waited
        then some (record { waited = waited; granted = false; store = s' })
        else rest

    unfoldable pub acquire : Store → Option (Acquired Store)
    unfolding acquire_loop
    acquire s = acquire_loop (suc max_wait) s 0 0
