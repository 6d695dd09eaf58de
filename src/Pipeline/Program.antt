-- ===== src/Pipeline/Program.antt =====
-- pipelines/orchestrate.py `run_program` and pipelines/dispatch.py `run_pipeline`: what is asked of a
-- program before anything of it runs, and under which scope it runs. The repositories' answers are
-- arguments, and so is the run itself.
pub mod Authority
use exact_surface.Prelude.{
  ℕ, String, Bool, true, false, not, ◌&&◌, ◌||◌, Option, none, some, List, [], ◌∷◌, any,
  if◌then◌else◌, ◌==◌, Dict, get, string_eq,
}
use exact_surface.Modules.{ModuleState, SkipReason, is_enabled, resolve}
use exact_surface.Modules.Registry.{modules}
use exact_surface.Scope.Engine.{Engine, ProgramScope}
use exact_surface.Scope.Confirm.{
  Program as ScopeFields, Authorization, auth_is_current, build_program_scope,
  confirm_authorization,
}
use exact_surface.Pipeline.{Ending, completed, was_cancelled, killed, Report}
use exact_surface.Taskqueue.Cadence.{Raw}
use exact_surface.Taskqueue.Timeouts.{effective_timeouts}

-- The stored record of a program.
pub record ProgramDoc : Type 0 where
  pub scope_fields : ScopeFields
  pub enabled : Option Bool
  pub initial_scan_completed : Bool
  pub enabled_modules : List String
  pub disabled_modules : List String
  pub timeout_overrides : Dict String Raw

-- What a started run gets.
pub record Launch : Type 0 where
  pub scope : ProgramScope
  pub modules : Option ModuleState
  pub timeouts : Dict String ℕ

-- How the call ends: AuthorizationRequired, a skip, the ValueError on an unknown
-- pipeline, or the run.
pub data Started (R : Type 0) : Type 0 where
  authorization_required monitoring_paused unknown_pipeline already_running : Started R
  disabled : Option SkipReason → Started R
  launched : Launch → R → Started R

abbrev pub or_true : Option Bool → Bool
or_true none = true
or_true (some b) = b

-- Whether the full run has returned, stopped or not; a killed one raises.
abbrev pub has_returned : Ending → Bool
has_returned completed = true
has_returned was_cancelled = true
has_returned killed = false

unfoldable pub launch : ProgramDoc → Option Authorization → Dict String Raw → Launch
launch p auth tenant_timeouts = record {
  scope = build_program_scope p.scope_fields auth;
  modules = resolve modules p.enabled_modules p.disabled_modules;
  timeouts = effective_timeouts p.timeout_overrides tenant_timeouts;
}

-- `pipeline in module_registry.BY_NAME`
abbrev pub is_registered : String → Bool
is_registered pipeline = any (λ m. m.name == pipeline) modules

-- `module_state.is_enabled(pipeline)`, and the reason
abbrev pub is_on : Option ModuleState → String → Bool
is_on none pipeline = false
is_on (some s) pipeline = is_enabled s pipeline

abbrev pub reason_of : Option ModuleState → String → Option SkipReason
reason_of none pipeline = none
reason_of (some s) pipeline = get pipeline s.skipped

-- `not tset and await audit.active_phase_run(...)`
abbrev pub is_duplicate : List String → Bool → Bool
is_duplicate [] active = active
is_duplicate (t ∷ ts) active = false

module _ (e : Engine) (tenant_timeouts : Dict String Raw) where
  -- The run of an authorized program: the result, and whether mark_initial_scan_completed was called.
  unfoldable pub run_authorized :
      ProgramDoc → Authorization → Option (List String) → (Launch → Report) → Started Report × Bool
  unfolding launch
  run_authorized p auth ranges full =
      let l = launch p (some (confirm_authorization e ranges auth)) tenant_timeouts in
      (launched l (full l), has_returned (full l).ending && not p.initial_scan_completed)

  unfoldable pub check_authorized :
      ProgramDoc
      → Option Authorization
      → Option (List String)
      → (Launch → Report)
      → Started Report × Bool
  unfolding run_authorized
  check_authorized p none ranges full = (authorization_required, false)
  check_authorized p (some auth) ranges full =
      if not (auth_is_current (some auth))
      then (authorization_required, false)
      else run_authorized p auth ranges full

  -- `run_program`; `ranges` is the answer of the ASN lookup.
  unfoldable pub run_program :
      Bool
      → Option ProgramDoc
      → Option Authorization
      → Option (List String)
      → (Launch → Report)
      → Started Report × Bool
  unfolding check_authorized
  run_program force none auth ranges full = (authorization_required, false)
  run_program force (some p) auth ranges full =
      if not force && not (or_true p.enabled)
      then (monitoring_paused, false)
      else check_authorized p auth ranges full

module _ (tenant_timeouts : Dict String Raw) where
  -- `run_pipeline` up to the call of the route; `routes` tells which names have one, and `active`
  -- whether a run of the whole program is under way.
  unfoldable pub run_pipeline :
      {R : Type 0}
      → (String → Option (Launch → R))
      → String
      → List String
      → Bool
      → Option ProgramDoc
      → Option Authorization
      → Started R
  unfolding launch
  run_pipeline routes pipeline targets active none auth = authorization_required
  run_pipeline routes pipeline targets active (some p) auth =
      let l = launch p auth tenant_timeouts in
      if not (or_true p.enabled)
      then monitoring_paused
      else if not (auth_is_current auth)
      then authorization_required
      else if is_registered pipeline && not (is_on l.modules pipeline)
      then disabled (reason_of l.modules pipeline)
      else elim (routes pipeline) [
        | none ↦ unknown_pipeline
        | some route ↦ if is_duplicate targets active then already_running else launched l (route l)
      ]
