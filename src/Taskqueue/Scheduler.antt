-- ===== src/Taskqueue/Scheduler.antt =====
-- taskqueue/scheduler.py and taskqueue/jobs.py: what a tick of the scheduler enqueues. The database
-- reads are the fields of `World`; a time is in seconds.
pub mod Grounds
pub mod Fairness
use exact_surface.Prelude.{
  ℕ, zero, suc, ◌+◌, String, Bool, true, false, not, ◌&&◌, Option, none, some, List, [], ◌∷◌, leb,
  if◌then◌else◌, Dict, get, put, string_eq,
}
use exact_surface.Modules
use exact_surface.Modules.Registry.{modules}
use exact_surface.Taskqueue.Cadence.{Raw, effective_cadence, is_due}

-- `Priority`, a lower value is sooner.
abbrev pub new_asset : ℕ
new_asset = 10

abbrev pub normal : ℕ
normal = 50

abbrev pub full_pipeline : String
full_pipeline = "full"

-- BOOTSTRAP_RETRY_SECONDS
abbrev pub bootstrap_retry_seconds : ℕ
bootstrap_retry_seconds = 1800

pub data Reason : Type 0 where
  initial_full cadence first_run : Reason

-- The fields of `Job` that the scheduler sets.
pub record Job : Type 0 where
  pub tenant_id : String
  pub program_id : String
  pub pipeline : String
  pub priority : ℕ
  pub reason : Reason

-- An authorization record, as `_auth_current` reads it.
pub record Auth : Type 0 where
  pub apex_verified : Bool
  pub revoked : Bool

pub record Program : Type 0 where
  pub tenant_id : String
  pub program_id : String
  pub enabled : Option Bool
  pub verified : Bool
  pub initial_scan_completed : Bool
  pub cadence_overrides : Dict String Raw
  pub enabled_modules : List String
  pub disabled_modules : List String

-- What the repositories answer during one call of `plan`.
pub record World : Type 0 where
  pub programs : List Program
  pub auth : String → String → Option Auth
  pub active_full : String → String → Bool
  pub recent_cancelled : String → String → Bool
  pub last_run : String → String → String → Option ℕ
  pub tenant_defaults : String → Dict String Raw
  pub min_scan_interval : Option ℕ

unfoldable pub auth_current : Option Auth → Bool
auth_current none = false
auth_current (some a) = a.apex_verified && not a.revoked

-- `prog.get("enabled", True)`
abbrev pub or_true : Option Bool → Bool
or_true none = true
or_true (some b) = b

-- What `plan` has gathered: the jobs in reverse order, and the jobs of each tenant.
pub record Plan : Type 0 where
  pub jobs : List Job
  pub per_tenant : Dict String ℕ

abbrev pub or_zero : Option ℕ → ℕ
or_zero none = 0
or_zero (some n) = n

-- per_tenant.get(tid, 0)
abbrev pub used : String → Plan → ℕ
used tid p = or_zero (get tid p.per_tenant)

abbrev pub nothing : Plan
nothing = record { jobs = []; per_tenant = [] }

-- jobs.append(job), and the count of its tenant
unfoldable pub add_job : Plan → Job → Plan
add_job p j = record {
  jobs = j ∷ p.jobs;
  per_tenant = put j.tenant_id (used j.tenant_id p + 1) p.per_tenant;
}

-- The test of `_ready_programs`.
unfoldable pub is_ready : World → Program → Bool
unfolding auth_current
is_ready w p = (or_true p.enabled && p.verified) && auth_current (w.auth p.tenant_id p.program_id)

unfoldable pub capped : ℕ → String → Plan → Bool
capped max_per_tenant tid plan = leb max_per_tenant (used tid plan)

abbrev pub full_job : Program → Job
full_job p = record {
  tenant_id = p.tenant_id;
  program_id = p.program_id;
  pipeline = full_pipeline;
  priority = new_asset;
  reason = initial_full;
}

abbrev pub phase_priority : Option ℕ → ℕ
phase_priority none = new_asset
phase_priority (some t) = normal

abbrev pub phase_reason : Option ℕ → Reason
phase_reason none = first_run
phase_reason (some t) = cadence

abbrev pub phase_job : Program → String → Option ℕ → Job
phase_job p pipeline last = record {
  tenant_id = p.tenant_id;
  program_id = p.program_id;
  pipeline = pipeline;
  priority = phase_priority last;
  reason = phase_reason last;
}

-- `module_state.is_enabled(pipeline)`
abbrev pub enabled_in : Option Modules.ModuleState → String → Bool
enabled_in none pipeline = false
enabled_in (some s) pipeline = Modules.is_enabled s pipeline

unfoldable pub module_enabled : Program → String → Bool
module_enabled p pipeline =
    enabled_in (Modules.resolve modules p.enabled_modules p.disabled_modules) pipeline

abbrev pub cadence_of : World → Program → Dict String ℕ
cadence_of w p =
    effective_cadence w.min_scan_interval p.cadence_overrides (w.tenant_defaults p.tenant_id)

-- jobs.sort(key=priority): stable, so of equal ones the earlier stays first. The jobs arrive
-- latest first.
unfoldable pub insert_job : Job → List Job → List Job
insert_job j [] = j ∷ []
insert_job j (x ∷ xs) = if leb j.priority x.priority then j ∷ x ∷ xs else x ∷ insert_job j xs

unfoldable pub sort_jobs : List Job → List Job → List Job
unfolding insert_job
sort_jobs sorted [] = sorted
sort_jobs sorted (j ∷ js) = sort_jobs (insert_job j sorted) js

module _ (w : World) (max_per_tenant now : ℕ) where
  -- A program that never completed a full run.
  unfoldable pub bootstrap : Program → Plan → Plan
  unfolding capped add_job
  bootstrap p plan =
      if capped max_per_tenant p.tenant_id plan
      then plan
      else if is_due (w.last_run p.tenant_id p.program_id full_pipeline) now bootstrap_retry_seconds
      then add_job plan (full_job p)
      else plan

  -- The body of the loop over the cadence.
  unfoldable pub phase : Program → Plan → String → ℕ → Plan
  unfolding capped add_job module_enabled
  phase p plan pipeline interval =
      let last = w.last_run p.tenant_id p.program_id pipeline in
      if not (module_enabled p pipeline)
      then plan
      else if not (is_due last now interval)
      then plan
      else if capped max_per_tenant p.tenant_id plan
      then plan
      else add_job plan (phase_job p pipeline last)

  unfoldable pub phases : Program → Plan → Dict String ℕ → Plan
  unfolding phase
  phases p plan [] = plan
  phases p plan ((pipeline, interval) ∷ rest) = phases p (phase p plan pipeline interval) rest

  -- The body of the loop over the programs, `_ready_programs` included.
  unfoldable pub visit : Plan → Program → Plan
  unfolding is_ready bootstrap phases
  visit plan p =
      if not (is_ready w p)
      then plan
      else if w.active_full p.tenant_id p.program_id
      then plan
      else if w.recent_cancelled p.tenant_id p.program_id
      then plan
      else if not p.initial_scan_completed
      then bootstrap p plan
      else phases p plan (cadence_of w p)

  unfoldable pub visit_all : Plan → List Program → Plan
  unfolding visit
  visit_all plan [] = plan
  visit_all plan (p ∷ ps) = visit_all (visit plan p) ps

  -- `Scheduler.plan`
  unfoldable pub plan : List Job
  unfolding visit_all sort_jobs
  plan = sort_jobs [] (visit_all nothing w.programs).jobs
