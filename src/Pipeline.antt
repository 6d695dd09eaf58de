-- ===== src/Pipeline.antt =====
-- pipelines/orchestrate.py: the loop of `run_full_pipeline` over its stages. What the environment
-- does to a stage is a field of its definition; the time stamps and the counts of a stage are left
-- out. Every `audit.save(run)` puts the run on the log, latest first.
pub mod Endings
pub mod Settled
pub mod Gated
pub mod Heartbeat
pub mod Program
use exact_surface.Prelude.{
  String, Bool, true, false, not, Option, none, some, List, [], ◌∷◌, ◌++◌, map, if◌then◌else◌, get,
  string_eq,
}
use exact_surface.Modules.{ModuleState, SkipReason, is_enabled, resolve}
use exact_surface.Modules.Registry.{modules as registry}

pub data ScanStatus : Type 0 where
  queued running success failed skipped cancelled : ScanStatus

-- `note`, by the message that it holds.
pub data Note : Type 0 where
  stopped_by_user not_run timed_out : Note
  disabled : Option SkipReason → Note
  raised : String → Note
  own : Option String → Note

pub record Stage : Type 0 where
  pub name : String
  pub status : ScanStatus
  pub note : Option Note

-- How a stage that was started ends: with its result, of which `skipped` and `note` are read; with
-- an exception of its own; by the stop of a user, which is `ScanCancelled`; or because the whole job
-- is killed.
pub data Outcome : Type 0 where
  finishes : (skipped : Bool) (note : Option String) → Outcome
  times_out stops dies : Outcome
  raises : String → Outcome

-- An entry of `stage_defs`, with what happens when its turn comes: whether a stop was requested by
-- then, and how the stage ends if it is started.
pub record StageDef : Type 0 where
  pub name : String
  pub cancel_requested : Bool
  pub outcome : Outcome

-- The fields of `ScanRun` that the loop writes; `error` names the stage or stages.
pub record Run : Type 0 where
  pub status : ScanStatus
  pub stages : List Stage
  pub error : List String
  pub note : Option String

-- How the call ends: with the results, with a stop, or with the exception of the killed job.
pub data Ending : Type 0 where
  completed was_cancelled killed : Ending

pub record Report : Type 0 where
  pub ending : Ending
  pub run : Run
  pub saved : List Run

-- ScanStage(name=name)
abbrev pub queued_stage : StageDef → Stage
queued_stage d = record { name = d.name; status = queued; note = none }

abbrev pub running_run : List Stage → Run
running_run stages = record { status = running; stages = stages; error = []; note = none }

-- The loop of `_finalise_cancelled` over run.stages.
unfoldable pub cancel_stage : Stage → Stage
cancel_stage s = elim s.status [
  | queued ↦ record s { status = cancelled; note = some not_run }
  | _ ↦ s
]

-- `_finalise_cancelled` on the stages that it finds.
abbrev pub cancelled_run : List Stage → String → Run
cancelled_run stages name = record {
  status = cancelled;
  stages = map cancel_stage stages;
  error = [];
  note = some name;
}

abbrev pub killed_run : List Stage → String → Run
killed_run stages name = record { status = failed; stages = stages; error = name ∷ []; note = none }

-- `ScanStatus.FAILED if failed else ScanStatus.SUCCESS`
abbrev pub final_status : List String → ScanStatus
final_status [] = success
final_status (n ∷ ns) = failed

abbrev pub completed_run : List Stage → List String → Run
completed_run stages names = record {
  status = final_status names;
  stages = stages;
  error = names;
  note = none;
}

-- audit.save(run), and the return or the raise.
abbrev pub finish : Ending → Run → List Run → Report
finish ending run saved = record { ending = ending; run = run; saved = run ∷ saved }

-- The stage after the call, for the outcomes that let the loop go on.
abbrev pub ended : String → Outcome → Stage
ended name (finishes true why) = record { name = name; status = skipped; note = some (own why) }
ended name (finishes false why) = record { name = name; status = success; note = none }
ended name times_out = record { name = name; status = failed; note = some timed_out }
ended name (raises message) = record { name = name; status = failed; note = some (raised message) }
ended name stops = record { name = name; status = cancelled; note = some stopped_by_user }
ended name dies = record { name = name; status = failed; note = none }

-- failed.append(name)
abbrev pub note_failure : String → Outcome → List String → List String
note_failure name times_out names = names ++ (name ∷ [])
note_failure name (raises message) names = names ++ (name ∷ [])
note_failure name (finishes _ _) names = names
note_failure name stops names = names
note_failure name dies names = names

module _ (modules : ModuleState) where
  abbrev pub skipped_stage : String → Stage
  skipped_stage name = record {
    name = name;
    status = skipped;
    note = some (disabled (get name modules.skipped));
  }

  -- The body of the loop from the call of the stage on; `before` are the stages that are through,
  -- `after` those to come, and `rest` the loop over them.
  unfoldable pub conclude_stage :
      List Stage → String → List Stage → List Run → Outcome → Report → Report
  conclude_stage before name after saved stops rest =
      finish was_cancelled (cancelled_run (before ++ (ended name stops ∷ after)) name) saved
  conclude_stage before name after saved dies rest =
      finish killed (killed_run (before ++ (ended name dies ∷ after)) name) saved
  conclude_stage before name after saved times_out rest = rest
  conclude_stage before name after saved (raises message) rest = rest
  conclude_stage before name after saved (finishes _ _) rest = rest

  -- The loop; `before` are the stages that are through, `failures` the list `failed`.
  unfoldable pub run_stages : List Stage → List String → List Run → List StageDef → Report
  unfolding conclude_stage
  run_stages before failures saved [] = finish completed (completed_run before failures) saved
  run_stages before failures saved (d ∷ defs) =
      let after = map queued_stage defs in
      let off = before ++ (skipped_stage d.name ∷ []) in
      let skip = run_stages off failures (running_run (off ++ after) ∷ saved) defs in
      let begun =
        running_run (before ++ (record { name = d.name; status = running; note = none } ∷ after))
        ∷ saved in
      let through = before ++ (ended d.name d.outcome ∷ []) in
      let go =
        run_stages through (note_failure d.name d.outcome failures)
          (running_run (through ++ after) ∷ begun) defs in
      if d.cancel_requested
      then finish was_cancelled (cancelled_run (before ++ (queued_stage d ∷ after)) d.name) saved
      else if is_enabled modules d.name
      then conclude_stage before d.name after begun d.outcome go
      else skip

  -- `run_full_pipeline` behind the resolution of the modules. A kill while the run is being saved, or
  -- while the stop is asked for, is in no `Outcome`: the source then leaves the run as last saved.
  unfoldable pub run_all : List StageDef → Report
  unfolding run_stages
  run_all defs = run_stages [] [] (running_run (map queued_stage defs) ∷ []) defs

-- `run_full_pipeline`, with the choices of the program.
unfoldable pub run_full_pipeline : List String → List String → List StageDef → Option Report
unfolding run_all resolve
run_full_pipeline opted_in opted_out defs = elim (resolve registry opted_in opted_out) [
  | none ↦ none
  | some modules ↦ some (run_all modules defs)
]
