-- ===== src/Examples/Ticks.antt =====
-- A tick over two programs of one tenant with a cap of one job.
use exact_surface.Prelude.{
  contains, update, put, ◌≤◌, String, ◌≡◌, refl, true, false, none, some, [], ◌∷◌, here, get,
  string_eq,
}
use exact_surface.Taskqueue.Cadence.{bad, num, minus, effective_cadence, is_due}
use exact_surface.Taskqueue.Cadence.Floors.{IsPolite, effective_cadence-IsPolite}
use exact_surface.Taskqueue.Timeouts.{effective_timeouts}
use exact_surface.Taskqueue.Timeouts.Limits.{IsLimit, effective_timeouts-IsLimit}
use exact_surface.Taskqueue.Scheduler.{Program, World, plan, full_job}
use exact_surface.Taskqueue.Scheduler.Grounds.{IsJustified}
use exact_surface.Taskqueue.Scheduler.Fairness.{count, plan-fair, plan-IsJustified}

abbrev program : String → Program
program pid = record {
  tenant_id = "t";
  program_id = pid;
  enabled = none;
  verified = true;
  initial_scan_completed = false;
  cadence_overrides = [];
  enabled_modules = [];
  disabled_modules = [];
}

abbrev world : World
world = record {
  programs = program "p" ∷ program "q" ∷ [];
  auth = λ t p. some (record { apex_verified = true; revoked = false });
  active_full = λ t p. false;
  recent_cancelled = λ t p. false;
  last_run = λ t p x. none;
  tenant_defaults = λ t. [];
  min_scan_interval = none;
}

-- One job, for the first program.
plan_test : plan world 1 1000 ≡ full_job (program "p") ∷ []
unfolding plan get is_due put
plan_test = refl

plan-fair_example : count "t" (plan world 1 1000) ≤ 1
plan-fair_example = plan-fair world 1 1000 "t"

plan-IsJustified_example : IsJustified world 1 1000 (full_job (program "p"))
unfolding plan get is_due put
plan-IsJustified_example = plan-IsJustified world 1 1000 (full_job (program "p")) (here refl)

effective_cadence-IsPolite_example : IsPolite (some 600) "probe" 600
unfolding effective_cadence get update contains put
effective_cadence-IsPolite_example =
    (effective_cadence-IsPolite (some 600) (("probe", num 10) ∷ ("scan", bad) ∷ [])
        (("probe", minus 3) ∷ []) "probe" 600).0
      refl

effective_timeouts-IsLimit_example : IsLimit "scan" 21600
unfolding effective_timeouts get update contains put
effective_timeouts-IsLimit_example =
    (effective_timeouts-IsLimit (("scan", num 99999) ∷ ("no", num 50) ∷ []) (("scan", bad) ∷ [])
        "scan" 21600).0
      refl
