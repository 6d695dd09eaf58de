-- ===== src/Pipeline/Heartbeat.antt =====
-- pipelines/orchestrate.py: `_run_stage_with_heartbeat`. Times are whole seconds from the start of the
-- stage. What the loop awaits is an argument. A cancellation of the whole job, which leaves the loop
-- at once, is left out.
pub mod Prompt
use exact_surface.Prelude.{
  ℕ, zero, suc, ◌+◌, ◌-◌, min, max, Bool, true, false, Option, none, some, leb, if◌then◌else◌,
}

-- STAGE_HEARTBEAT_SECONDS
abbrev pub stage_heartbeat_seconds : ℕ
stage_heartbeat_seconds = 45

-- The stage's task and the calls of the loop: when the task is done if it is let run, and how long it
-- takes to unwind once it is cancelled, if ever; what `cancel_check` answers at a time, where `none`
-- is an exception, and how long that takes; whether `audit.save` succeeds, and how long it takes.
pub record Awaited : Type 0 where
  pub done_at : Option ℕ
  pub unwinds_in : Option ℕ
  pub cancel_check : ℕ → Option Bool
  pub check_delay : ℕ → ℕ
  pub saves : ℕ → Bool
  pub save_delay : ℕ → ℕ

-- What the task came to, its result or its exception; TimeoutError; ScanCancelled; or an exception of
-- `cancel_check` or `audit.save`.
pub data Ended : Type 0 where
  with_result by_timeout by_stop by_error : Ended

-- How the call ends, when, and how often it has saved the run.
pub record Beat : Type 0 where
  pub ended : Ended
  pub at : ℕ
  pub saves : ℕ

-- The call returns or raises, or waits for ever on the cancelled task.
pub data Wait : Type 0 where
  returns : Beat → Wait
  hangs : Wait

-- `task in done`, after a wait until then
abbrev pub done_by : Option ℕ → ℕ → Bool
done_by none now = false
done_by (some t) now = leb t now

-- When a wait that began at `now` comes back with the task.
abbrev pub back_at : Option ℕ → ℕ → ℕ
back_at none now = now
back_at (some t) now = max now t

-- `await task` after the cancellation, and ScanCancelled.
unfoldable pub stop_at : Option ℕ → ℕ → ℕ → Wait
stop_at none now saves = hangs
stop_at (some u) now saves = returns (record { ended = by_stop; at = now + u; saves = saves })

module _ (budget : ℕ) (io : Awaited) where
  -- The `while True` loop on fuel, where `none` means that the fuel ran out; `elapsed` is the time
  -- that the loop has counted, `now` the time that has passed.
  unfoldable pub beat : ℕ → ℕ → ℕ → ℕ → Option Wait
  unfolding stop_at
  beat zero elapsed now saves = none
  beat (suc fuel) elapsed now saves =
      let wait = min stage_heartbeat_seconds (budget - elapsed) in
      let until = now + wait in
      let checked = until + io.check_delay until in
      let saved = checked + io.save_delay checked in
      let rest = beat fuel (elapsed + wait) saved (saves + 1) in
      if leb budget elapsed
      then some (returns (record { ended = by_timeout; at = now; saves = saves }))
      else if done_by io.done_at until
      then some
          (returns (record { ended = with_result; at = back_at io.done_at now; saves = saves }))
      else elim (io.cancel_check until) [
        | none ↦ some (returns (record { ended = by_error; at = checked; saves = saves }))
        | some asked ↦
            if asked
            then some (stop_at io.unwinds_in checked saves)
            else if io.saves checked
            then rest
            else some (returns (record { ended = by_error; at = saved; saves = saves }))
      ]

  unfoldable pub run_stage_with_heartbeat : Option Wait
  unfolding beat
  run_stage_with_heartbeat = beat (suc budget) 0 0 0
