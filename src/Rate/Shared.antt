-- ===== src/Rate/Shared.antt =====
-- core/ratelimit.py: the Redis script, and that it implements the in-memory store. The script keeps
-- the tokens and the time stamp under two keys, which Redis drops together after an hour without a
-- write; `now` is what redis.call('TIME') answers.
use exact_surface.Prelude.{
  ℕ, ◌+◌, ◌-◌, ◌*◌, min, String, ◌≡◌, Bool, true, false, Option, none, some, arith, leb,
  if◌then◌else◌, Dict, get, put, get-put, string_eq, ◌==◌, Bool-cases, inl, inr,
}
use exact_surface.Rate.{RateLimit, Bucket, Buckets, visit, take}

pub record Redis : Type 0 where
  pub tokens : Dict String ℕ
  pub stamps : Dict String ℕ

abbrev pub or_else : ℕ → Option ℕ → ℕ
or_else d none = d
or_else d (some n) = n

-- The arithmetic of the script, on what its two reads have returned.
unfoldable pub script : RateLimit → ℕ → ℕ → Option ℕ → Option ℕ → Bool × ℕ
script limit cost now found_tokens found_stamp =
    let tokens =
      min limit.burst
        (or_else limit.burst found_tokens + (now - or_else now found_stamp) * limit.rate) in
    if leb cost tokens then (true, tokens - cost) else (false, tokens)

-- `RedisBucketStore.take`, with the script that it evaluates.
unfoldable pub redis_take : Redis → String → RateLimit → ℕ → ℕ → Bool × Redis
unfolding script
redis_take r key limit cost now =
    let (allowed, tokens) = script limit cost now (get key r.tokens) (get key r.stamps) in
    (allowed, record { tokens = put key tokens r.tokens; stamps = put key now r.stamps })

-- The two values of a target are both there or both missing, and are those of its bucket.
abbrev pub Same : Option ℕ → Option ℕ → Option Bucket → Type 0
Same none none none = Unit
Same (some t) (some u) (some b) = (t ≡ b.tokens) × (u ≡ b.last_ts)
Same _ _ _ = ⊥

pub record Agrees (r : Redis) (s : Buckets) : Type 0 where
  pub at : (key : String) → Same (get key r.tokens) (get key r.stamps) (get key s)

script-visit :
    (limit : RateLimit) (cost now : ℕ) (t u : Option ℕ) (b : Option Bucket)
    → Same t u b
    → ((script limit cost now t u).0 ≡ (visit limit cost now b).0)
      × Same (some (script limit cost now t u).1) (some now) (some (visit limit cost now b).1)
unfolding script visit
script-visit limit cost now none none none h = ground arith
script-visit limit cost now (some t) (some u) (some b) h = ground arith
script-visit limit cost now none none (some b) h = absurd h
script-visit limit cost now none (some u) b h = absurd h
script-visit limit cost now (some t) none b h = absurd h
script-visit limit cost now (some t) (some u) none h = absurd h

module _ (r : Redis) (s : Buckets) (key : String) (limit : RateLimit) (cost now : ℕ) where
  -- On stores that agree the script answers as the in-memory store does and leaves stores that
  -- agree: the shared ceiling is the local one.
  pub redis_take-take :
      Agrees r s
      → ((redis_take r key limit cost now).0 ≡ (take s key limit cost now).0)
        × Agrees (redis_take r key limit cost now).1 (take s key limit cost now).1
  unfolding redis_take take
  redis_take-take h =
      let v = script-visit limit cost now _ _ _ (h.at key) in
      (v.0, record { at = λ j. simp get-put (pick j v.1) })
    where
      pick :
          (j : String)
          → Same
              (some (script limit cost now (get key r.tokens) (get key r.stamps)).1)
              (some now)
              (some (visit limit cost now (get key s)).1)
          → Same
              (if key == j
                then some (script limit cost now (get key r.tokens) (get key r.stamps)).1
                else get j r.tokens)
              (if key == j then some now else get j r.stamps)
              (if key == j then some (visit limit cost now (get key s)).1 else get j s)
      pick j v = elim (Bool-cases (key == j)) [ inl t ↦ rw t v | inr f ↦ rw f (h.at j) ]
