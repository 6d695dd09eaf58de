-- ===== src/Rate/Ceiling.antt =====
-- core/ratelimit.py: how much a bucket lets through, over any sequence of calls.
use exact_surface.Prelude.{
  ℕ, ◌+◌, ◌-◌, ◌*◌, ◌≤◌, String, ◌≡◌, refl, Bool, true, false, Option, none, some, List, [], ◌∷◌,
  arith, if◌then◌else◌, subst, get, get-put, string_eq, ◌==◌, beq_refl, Bool-cases, inl, inr,
}
use exact_surface.Rate.{RateLimit, Bucket, Buckets, visit, take}

-- One call: the target, the cost and the reading of the clock.
pub record Call : Type 0 where
  pub key : String
  pub cost : ℕ
  pub now : ℕ

abbrev cost_if : Bool → ℕ → ℕ
cost_if b n = if b then n else 0

-- What the calls for one key were granted.
unfoldable pub granted : String → Buckets → RateLimit → List Call → ℕ
granted key s limit [] = 0
granted key s limit (c ∷ cs) =
    (if c.key == key then cost_if (take s c.key limit c.cost c.now).0 c.cost else 0)
    + granted key (take s c.key limit c.cost c.now).1 limit cs

-- How far the clock has moved forward between the calls for one key; a step back counts nothing.
unfoldable pub forward : String → Option ℕ → List Call → ℕ
forward key last [] = 0
forward key none (c ∷ cs) =
    if c.key == key then forward key (some c.now) cs else forward key none cs
forward key (some t) (c ∷ cs) =
    if c.key == key then (c.now - t) + forward key (some c.now) cs else forward key (some t) cs

level : RateLimit → Option Bucket → ℕ
level limit none = limit.burst
level limit (some b) = b.tokens

time : Option Bucket → Option ℕ
time none = none
time (some b) = some b.last_ts

abbrev gap : Option ℕ → ℕ → ℕ
gap none now = 0
gap (some t) now = now - t

-- One visit grants no more than the bucket held and has gained since.
level-visit :
    (limit : RateLimit) (cost now : ℕ) (found : Option Bucket)
    → cost_if (visit limit cost now found).0 cost + (visit limit cost now found).1.tokens
      ≤ level limit found + gap (time found) now * limit.rate
unfolding visit level time
level-visit limit cost now none = ground arith
level-visit limit cost now (some b) = ground arith

visit-last_ts :
    (limit : RateLimit) (cost now : ℕ) (found : Option Bucket)
    → (visit limit cost now found).1.last_ts ≡ now
unfolding visit
visit-last_ts limit cost now found = ground arith

module _ (key : String) where
  forward_hit :
      (last : Option ℕ) (c : Call) (cs : List Call)
      → (c.key == key) ≡ true
      → forward key last (c ∷ cs) ≡ gap last c.now + forward key (some c.now) cs
  unfolding forward
  forward_hit none c cs h = rw h (omega arith)
  forward_hit (some t) c cs h = rw h

  forward_miss :
      (last : Option ℕ) (c : Call) (cs : List Call)
      → (c.key == key) ≡ false
      → forward key last (c ∷ cs) ≡ forward key last cs
  unfolding forward
  forward_miss none c cs h = rw h
  forward_miss (some t) c cs h = rw h

module _ (key : String) (limit : RateLimit) where
  -- The bucket of another key is not touched, and that of the call's own key is what `visit` leaves.
  other-take :
      (s : Buckets) (k : String) (cost now : ℕ)
      → (k == key) ≡ false
      → get key (take s k limit cost now).1 ≡ get key s
  unfolding take
  other-take s k cost now h = rw get-put (rw h)

  pub own-take :
      (s : Buckets) (cost now : ℕ)
      → ((take s key limit cost now).0 ≡ (visit limit cost now (get key s)).0)
        × (get key (take s key limit cost now).1 ≡ some (visit limit cost now (get key s)).1)
  unfolding take
  own-take s cost now = (refl, rw get-put (rw (beq_refl key)))

  own-call :
      (s : Buckets) (c : Call)
      → c.key ≡ key
      → ((take s c.key limit c.cost c.now).0 ≡ (visit limit c.cost c.now (get key s)).0)
        × (get key (take s c.key limit c.cost c.now).1
            ≡ some (visit limit c.cost c.now (get key s)).1)
  own-call s c e = rw e (own-take s c.cost c.now)

  -- One call for the key, given a bound on what the later ones are granted.
  granted_step :
      (found after : Option Bucket) (ok : Bool) (cost now rest : ℕ) (cs : List Call)
      → ok ≡ (visit limit cost now found).0
      → after ≡ some (visit limit cost now found).1
      → rest ≤ level limit after + forward key (time after) cs * limit.rate
      → cost_if ok cost + rest
        ≤ level limit found + (gap (time found) now + forward key (some now) cs) * limit.rate
  unfolding level time
  granted_step found after ok cost now rest cs p q r =
      let v = visit limit cost now found in
      let later : rest ≤ v.1.tokens + forward key (some now) cs * limit.rate =
        subst (λ t. rest ≤ v.1.tokens + forward key (some t) cs * limit.rate)
          (visit-last_ts limit cost now found)
          (subst (λ b. rest ≤ level limit b + forward key (time b) cs * limit.rate) q r) in
      rw p (omega (arith, level-visit limit cost now found, later))

  granted_from :
      (s : Buckets) (cs : List Call)
      → granted key s limit cs
        ≤ level limit (get key s) + forward key (time (get key s)) cs * limit.rate
  unfolding granted
  granted_from s [] = omega arith
  granted_from s (c ∷ cs) =
      let ih = granted_from (take s c.key limit c.cost c.now).1 cs in
      elim (Bool-cases (c.key == key)) [
        | inl t ↦
            rw (t, forward_hit key (time (get key s)) c cs t)
              (let own = own-call s c ((string_eq.beq_iff c.key key).0 t) in
                granted_step (get key s) _ _ c.cost c.now _ cs own.0 own.1 ih)
        | inr f ↦
            rw (f, forward_miss key (time (get key s)) c cs f)
              (subst
                (λ b.
                  0 + granted key (take s c.key limit c.cost c.now).1 limit cs
                  ≤ level limit b + forward key (time b) cs * limit.rate)
                (other-take s c.key c.cost c.now f) (omega arith))
      ]

  -- The politeness ceiling. Starting from an empty store, whatever the calls, their targets, their
  -- costs and the readings of the clock, a target is granted no more than one burst and what the
  -- rate yields in the time that its clock moved forward.
  pub granted-le-ceiling :
      (cs : List Call) → granted key [] limit cs ≤ limit.burst + forward key none cs * limit.rate
  unfolding get level time
  granted-le-ceiling cs = granted_from [] cs
