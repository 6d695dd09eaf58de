-- ===== src/Pipeline/Heartbeat/Prompt.antt =====
-- pipelines/orchestrate.py: a stage's wait is bounded by its budget and what it awaits besides, and a
-- stop is noticed at the next heartbeat.
use exact_surface.Prelude.{
  ℕ, zero, suc, ◌+◌, ◌-◌, ◌*◌, ◌≤◌, ◌<◌, min, ◌≡◌, refl, ◌⊎◌, inl, inr, true, false, Option, none,
  some, leb, arith, Bool-cases, Option-cases,
}
use exact_surface.Pipeline.Heartbeat.{
  stage_heartbeat_seconds, Awaited, Ended, with_result, by_timeout, by_stop, by_error, Beat, Wait,
  returns, hangs, done_by, back_at, stop_at, beat, run_stage_with_heartbeat,
}

abbrev pub or_zero : Option ℕ → ℕ
or_zero none = 0
or_zero (some n) = n

suc-mul : (a b : ℕ) → (a + 1) * b ≡ a * b + b
suc-mul a b = grind arith

back_lem :
    (d : Option ℕ) (now until : ℕ)
    → now ≤ until
    → done_by d until ≡ true
    → (back_at d now ≤ until) × (done_by d (back_at d now) ≡ true)
back_lem none now until h d = cc
back_lem (some t) now until h d = (ground (arith, d), ground arith)

module _ (budget : ℕ) (io : Awaited) (delay : ℕ) where
  -- A stop that is noticed while the task is not done.
  pub record IsStopped (s : ℕ) : Type 0 where
    pub asked : io.cancel_check s ≡ some true
    pub unfinished : done_by io.done_at s ≡ false

  -- What each way to end says of the task, the stop and the calls: a timeout comes of a task that is
  -- not done when the budget is over.
  abbrev pub Tells : Ended → ℕ → Type 0
  Tells with_result t = done_by io.done_at t ≡ true
  Tells by_timeout t = (s : ℕ) × (budget ≤ s) × (s ≤ t) × (done_by io.done_at s ≡ false)
  Tells by_stop t = (s : ℕ) × (s ≤ t) × IsStopped s
  Tells by_error t = (s : ℕ) × (s ≤ t) × ((io.cancel_check s ≡ none) ⊎ (io.saves s ≡ false))

  pub record IsPrompt (b : Beat) : Type 0 where
    pub rounds : b.saves * stage_heartbeat_seconds < budget + stage_heartbeat_seconds
    pub within : b.at ≤ budget + (b.saves + 1) * (2 * delay) + or_zero io.unwinds_in
    pub tells : Tells b.ended b.at
    pub noticed :
        (c : ℕ)
        → ((s : ℕ) → c ≤ s → io.cancel_check s ≡ some true)
        → b.at ≤ c + stage_heartbeat_seconds + 4 * delay + or_zero io.unwinds_in

  -- How a wait ends: promptly, or never, since a stop has cancelled a task that never unwinds.
  pub data Ends (w : Wait) : Type 0 where
    prompt : (b : Beat) → w ≡ returns b → IsPrompt b → Ends w
    hung : (s : ℕ) → IsStopped s → io.unwinds_in ≡ none → w ≡ hangs → Ends w

  -- The last wait, which ended at `s`.
  record IsPast (elapsed now s : ℕ) : Type 0 where
    after : elapsed ≤ s
    before : s ≤ now
    near : now ≤ s + 2 * delay
    unfinished : done_by io.done_at s ≡ false
    unasked : io.cancel_check s ≡ some false

  -- What holds at the head of the loop.
  record IsOn (elapsed now saves : ℕ) : Type 0 where
    within : elapsed ≤ budget
    counted : saves * stage_heartbeat_seconds < elapsed + stage_heartbeat_seconds
    full : (elapsed ≡ budget) ⊎ (elapsed ≡ saves * stage_heartbeat_seconds)
    early : elapsed ≤ now
    late : now ≤ elapsed + saves * (2 * delay)
    last : ((elapsed ≡ 0) × (now ≡ 0)) ⊎ ((s : ℕ) × IsPast elapsed now s)

  soon :
      (elapsed now saves c : ℕ)
      → IsOn elapsed now saves
      → ((s : ℕ) → c ≤ s → io.cancel_check s ≡ some true)
      → now ≤ c + 2 * delay
  soon elapsed now saves c h asked = elim h.last [
    | inl z ↦ omega (arith, z.1)
    | inr (s, p) ↦ elim (Bool-cases (leb c s)) [
      | inl t ↦ cc (asked s (ground (arith, t)), p.unasked)
      | inr f ↦ ground (arith, f, p.near)
    ]
  ]

  over :
      (elapsed now saves : ℕ)
      → 0 < budget
      → IsOn elapsed now saves
      → leb budget elapsed ≡ true
      → Tells by_timeout now
  over elapsed now saves pos h t = elim h.last [
    | inl z ↦ absurd (ground (arith, t, z.0, pos))
    | inr (s, p) ↦ (s, ground (arith, t, p.after), p.before, p.unfinished)
  ]

  module _ (quick_check : (t : ℕ) → io.check_delay t ≤ delay)
      (quick_save : (t : ℕ) → io.save_delay t ≤ delay) where
    -- A round that ends the wait, at a time that the round reaches.
    round-IsPrompt :
        (elapsed now saves at : ℕ) (e : Ended)
        → IsOn elapsed now saves
        → at
          ≤ now + min stage_heartbeat_seconds (budget - elapsed) + 2 * delay + or_zero io.unwinds_in
        → Tells e at
        → IsPrompt (record { ended = e; at = at; saves = saves })
    round-IsPrompt elapsed now saves at e h b t = record {
      rounds = omega (arith, h.counted, h.within);
      within = omega (arith, h.late, h.within, b, suc-mul saves (2 * delay));
      tells = t;
      noticed = λ c asked. omega (arith, soon elapsed now saves c h asked, b);
    }

    next-IsOn :
        (elapsed now saves : ℕ)
        → IsOn elapsed now saves
        → leb budget elapsed ≡ false
        → let until = now + min stage_heartbeat_seconds (budget - elapsed) in
          let checked = until + io.check_delay until in
          done_by io.done_at until ≡ false
          → io.cancel_check until ≡ some false
          → IsOn
              (elapsed + min stage_heartbeat_seconds (budget - elapsed))
              (checked + io.save_delay checked)
              (saves + 1)
    next-IsOn elapsed now saves h on nd nc =
        let wait = min stage_heartbeat_seconds (budget - elapsed) in
        let until = now + wait in
        let qc = quick_check until in
        let qs = quick_save (until + io.check_delay until) in
        let more : elapsed < budget = ground (arith, on) in
        record {
          within = omega (arith, more);
          counted = omega (arith, more, h.counted, h.full);
          full = omega (arith, more, h.full);
          early = omega (arith, h.early);
          late = omega (arith, h.late, qc, qs, suc-mul saves (2 * delay));
          last = inr (
            until,
            record {
              after = omega (arith, h.early);
              before = omega arith;
              near = omega (arith, qc, qs);
              unfinished = nd;
              unasked = nc;
            },
          );
        }

    beat-Ends :
        (fuel elapsed now saves : ℕ)
        → budget < fuel + elapsed
        → 0 < budget
        → IsOn elapsed now saves
        → (w : Wait) × (beat budget io fuel elapsed now saves ≡ some w) × Ends w
    unfolding beat stop_at
    beat-Ends zero elapsed now saves enough pos h = absurd (omega (arith, h.within))
    beat-Ends (suc fuel) elapsed now saves enough pos h =
        let until = now + min stage_heartbeat_seconds (budget - elapsed) in
        let checked = until + io.check_delay until in
        let saved = checked + io.save_delay checked in
        let qc = quick_check until in
        let qs = quick_save checked in
        let ends = round-IsPrompt elapsed now saves in
        elim (Bool-cases (leb budget elapsed)) [
          | inl t ↦ (
            returns (record { ended = by_timeout; at = now; saves = saves }),
            rw t refl,
            prompt _ refl (ends now by_timeout h (omega arith) (over elapsed now saves pos h t)),
          )
          | inr on ↦ elim (Bool-cases (done_by io.done_at until)) [
            | inl d ↦
                let (soon_enough, is_done) = back_lem io.done_at now until (omega arith) d in
                (
                  returns
                      (record { ended = with_result; at = back_at io.done_at now; saves = saves }),
                  rw (on, d) refl,
                  prompt _ refl (
                      ends (back_at io.done_at now) with_result h (omega (arith, soon_enough))
                        is_done),
                )
            | inr nd ↦ elim (Option-cases (io.cancel_check until)) [
              | inl n ↦ (
                returns (record { ended = by_error; at = checked; saves = saves }),
                rw (on, nd, n) refl,
                prompt _ refl
                    (ends checked by_error h (omega (arith, qc)) (until, omega arith, inl n)),
              )
              | inr (true, c) ↦
                  let stop : IsStopped until = record { asked = c; unfinished = nd } in
                  elim (Option-cases io.unwinds_in) [
                    | inl n ↦ (hangs, rw (on, nd, c, n, stop_at) refl, hung until stop n refl)
                    | inr (u, k) ↦ (
                      returns (record { ended = by_stop; at = checked + u; saves = saves }),
                      rw (on, nd, c, k, stop_at) refl,
                      prompt _ refl (
                          ends (checked + u) by_stop h (rw k (omega (arith, qc)))
                            (until, omega arith, stop)),
                    )
                  ]
              | inr (false, c) ↦ elim (Bool-cases (io.saves checked)) [
                | inl s ↦
                    let next = next-IsOn elapsed now saves h on nd c in
                    let (w, e, k) =
                      beat-Ends fuel (elapsed + min stage_heartbeat_seconds (budget - elapsed))
                        saved (saves + 1) (ground (arith, on, enough)) pos next in
                    (w, rw (on, nd, c, s) e, k)
                | inr f ↦ (
                  returns (record { ended = by_error; at = saved; saves = saves }),
                  rw (on, nd, c, f) refl,
                  prompt _ refl
                      (ends saved by_error h (omega (arith, qc, qs)) (checked, omega arith, inr f)),
                )
              ]
            ]
          ]
        ]

  -- With a budget, where the stop check and the saving of the run each take at most a delay, the wait
  -- for a stage ends, unless a stop has cancelled a task that never unwinds. It has saved the run at
  -- most once for each heartbeat of the budget, a last short one included, and ends no later than the budget, two delays
  -- for each heartbeat, two more, and the time that the cancelled task takes; with a timeout only if
  -- the task was not done when the budget was over, with a stop only if one was requested, with an
  -- error only if a check or a save raised one; and within a heartbeat, four delays and the time of
  -- the cancelled task from when a stop is requested for good.
  pub run_stage_with_heartbeat-Ends :
      0 < budget
      → ((t : ℕ) → io.check_delay t ≤ delay)
      → ((t : ℕ) → io.save_delay t ≤ delay)
      → (w : Wait) × (run_stage_with_heartbeat budget io ≡ some w) × Ends w
  unfolding run_stage_with_heartbeat
  run_stage_with_heartbeat-Ends pos quick_check quick_save =
      beat-Ends quick_check quick_save (suc budget) 0 0 0 (omega arith) pos (record {
        within = omega arith;
        counted = omega arith;
        full = inr refl;
        early = omega arith;
        late = omega arith;
        last = inl (refl, refl);
      })
