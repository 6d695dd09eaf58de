-- ===== src/Rate.antt =====
-- core/ratelimit.py: the token bucket and its in-memory store. The floats are read as exact, in
-- fixed point: a time is a number of microseconds, a token a million units, and a rate of n tokens
-- a second is n units a microsecond, so that `elapsed * rate` is a number of units.
pub mod Ceiling
pub mod Shared
pub mod Degrading
pub mod Limiter
pub mod Subprocess
use exact_surface.Prelude.{
  ℕ, ◌+◌, ◌-◌, ◌*◌, min, max, String, Bool, true, false, Option, none, some, List, [], ◌∷◌, leb,
  if◌then◌else◌, Dict, get, put, string_eq,
}

pub record RateLimit : Type 0 where
  pub rate : ℕ
  pub burst : ℕ

abbrev pub second : ℕ
second = 1000000

abbrev pub one_token : ℕ
one_token = 1000000

-- `RateLimit.per_second`
unfoldable pub per_second : ℕ → RateLimit
per_second n = record { rate = n; burst = n * one_token }

-- A bucket's `(tokens, last_ts)`.
pub record Bucket : Type 0 where
  pub tokens : ℕ
  pub last_ts : ℕ

-- `_refill`: `now - last_ts` stops at 0, as max(0.0, now - last_ts) does.
unfoldable pub refill : Bucket → ℕ → RateLimit → Bucket
refill b now limit = record {
  tokens = min limit.burst (b.tokens + (now - b.last_ts) * limit.rate);
  last_ts = now;
}

-- What `take` does to a bucket that has been refilled.
unfoldable pub spend : ℕ → Bucket → Bool × Bucket
spend cost b =
    if leb cost b.tokens then (true, record b { tokens = b.tokens - cost }) else (false, b)

abbrev pub Buckets : Type 0
Buckets = Dict String Bucket

-- self._buckets.get(key, (limit.burst, now))
abbrev pub or_full : RateLimit → ℕ → Option Bucket → Bucket
or_full limit now none = record { tokens = limit.burst; last_ts = now }
or_full limit now (some b) = b

-- The bucket of a call, after it.
unfoldable pub visit : RateLimit → ℕ → ℕ → Option Bucket → Bool × Bucket
unfolding refill spend
visit limit cost now found = spend cost (refill (or_full limit now found) now limit)

-- `InMemoryBucketStore.take`
unfoldable pub take : Buckets → String → RateLimit → ℕ → ℕ → Bool × Buckets
unfolding visit
take s key limit cost now = let (ok, b) = visit limit cost now (get key s) in (ok, put key b s)
