-- ===== src/Examples/Calls.antt =====
-- Calls to the buckets of two targets at ten tokens a second.
use exact_surface.Prelude.{
  put, ℕ, ◌+◌, ◌*◌, ◌≤◌, max, String, ◌≡◌, refl, true, false, none, some, List, [], ◌∷◌, get, arith,
  string_eq,
}
use exact_surface.Rate.{RateLimit, Buckets, take, one_token}
use exact_surface.Rate.Ceiling.{Call, granted, forward, granted-le-ceiling}
use exact_surface.Rate.Shared.{Redis, redis_take, Agrees, redis_take-take}
use exact_surface.Rate.Degrading.{Primary, Degrading, fleet_granted, fleet_granted-le-ceiling}
use exact_surface.Rate.Limiter.{Acquired, acquire, step}
use exact_surface.Rate.Limiter.Waiting.{IsDone, acquire_total, acquire-granted}

abbrev limit : RateLimit
limit = record { rate = 10; burst = 2000000 }

abbrev call : String → ℕ → Call
call key now = record { key = key; cost = one_token; now = now }

abbrev calls : List Call
calls = call "a.b" 0 ∷ call "c.d" 10 ∷ call "a.b" 50000 ∷ call "a.b" 200000 ∷ []

granted-le-ceiling_example : granted "a.b" [] limit calls ≤ 2000000 + forward "a.b" none calls * 10
granted-le-ceiling_example = granted-le-ceiling "a.b" limit calls

-- The bound is met: the two calls of the first burst and the one that 0.2 seconds later pays.
granted_test : granted "a.b" [] limit calls ≡ 3000000
unfolding granted take get put
granted_test = refl

abbrev empty_redis : Redis
empty_redis = record { tokens = []; stamps = [] }

empty_redis-Agrees : Agrees empty_redis []
unfolding get
empty_redis-Agrees = record { at = λ key. tt }

redis_take-take_example :
    ((redis_take empty_redis "a.b" limit one_token 5).0 ≡ (take [] "a.b" limit one_token 5).0)
    × Agrees (redis_take empty_redis "a.b" limit one_token 5).1 (take [] "a.b" limit one_token 5).1
redis_take-take_example = redis_take-take empty_redis [] "a.b" limit one_token 5 empty_redis-Agrees

-- A store that always raises.
abbrev down : Primary
down = record { Store = Unit; take = λ s key l cost now. (none, s) }

fleet_granted-le-ceiling_example :
    fleet_granted down "a.b" 2 limit tt (calls ∷ calls ∷ [])
    ≤ max (2 * one_token) 2000000 + 300000 * 10
unfolding forward
fleet_granted-le-ceiling_example =
    fleet_granted-le-ceiling down "a.b" 2 300000 limit tt (calls ∷ calls ∷ [])
      (λ p key l cost now. refl) (omega arith) (omega arith, (omega arith, tt))

abbrev fallen : Degrading down
fallen = record { shared = tt; fallback = []; fleet_size = 2; degraded = false }

abbrev slow : RateLimit
slow = record { rate = 1; burst = 2000000 }

abbrev clock : ℕ → ℕ
clock i = i * 1000000

clock_sleeps : (i : ℕ) → clock i + step 1000000 slow ≤ clock (i + 1)
unfolding step
clock_sleeps i = omega arith

acquire_total_example :
    (r : Acquired Buckets) × (acquire take "a.b" slow 1000000 1000000 clock [] ≡ some r)
    × IsDone 1000000 1000000 slow r
acquire_total_example = acquire_total take "a.b" slow 1000000 1000000 clock []

acquire-granted_example :
    (r : Acquired Buckets) × (acquire take "a.b" slow 1000000 1000000 clock [] ≡ some r)
    × (r.granted ≡ true)
acquire-granted_example =
    acquire-granted "a.b" slow 1000000 1000000 clock clock_sleeps (omega arith) (omega arith) []
