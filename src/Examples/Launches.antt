-- ===== src/Examples/Launches.antt =====
-- A full run of three stages, one of which the user turned off, and the program that it is for.
use exact_surface.Scope.Address.{
  subnet_of, parse_networks, in_network, is_multicast, is_link_local, is_loopback,
}
use exact_surface.Scope.Host.{on_exclusion_list, owns_host}
use exact_surface.Prelude.{
  discard, insert, contains, ℕ, leb, arith, String, ◌≡◌, refl, true, false, Option, none, some,
  List, [], ◌∷◌, All, ◌==◌, string_eq, if◌then◌else◌,
}
use exact_surface.Modules.Registry.{modules}
use exact_surface.Modules.{is_enabled, resolve, ModuleState, turned_off}
use exact_surface.Scope.Engine.{active_scan, evaluate}
use exact_surface.Scope.Confirm.{
  build_program_scope, auth_is_current, or_empty, Authorization, confirm_authorization,
}
use exact_surface.Scope.Confirm.Chain.{IsAnnounced}
use exact_surface.Pipeline.{
  finishes, stops, StageDef, Report, run_all, run_full_pipeline, completed, finish, completed_run,
}
use exact_surface.Pipeline.Endings.{IsSettled}
use exact_surface.Pipeline.Settled.{run_all-IsSettled}
use exact_surface.Pipeline.Gated.{IsChosen, run_full_pipeline-IsChosen}
use exact_surface.Pipeline.Heartbeat.{Awaited, Wait, returns, by_stop, run_stage_with_heartbeat}
use exact_surface.Pipeline.Heartbeat.Prompt.{Ends, run_stage_with_heartbeat-Ends}
use exact_surface.Pipeline.Program.{ProgramDoc, Launch, launch, run_program, run_pipeline}
use exact_surface.Pipeline.Program.Authority.{
  IsAuthorized, run_program-IsAuthorized, run_program-IsAnnounced, IsCleared,
  run_pipeline-IsCleared,
}
use exact_surface.Examples.Hosts.{engine, program, authorization, announced, www, reads_networks}

abbrev choice : ModuleState
choice = record { enabled = "ingest" ∷ "probe" ∷ []; skipped = ("crawl", turned_off) ∷ [] }

abbrev stage_defs : List StageDef
stage_defs =
    record { name = "ingest"; cancel_requested = false; outcome = finishes false none }
    ∷ record { name = "crawl"; cancel_requested = false; outcome = finishes false none }
    ∷ record { name = "probe"; cancel_requested = false; outcome = stops }
    ∷ []

run_all-IsSettled_example :
    IsSettled ("ingest" ∷ "crawl" ∷ "probe" ∷ []) (run_all choice stage_defs)
run_all-IsSettled_example = run_all-IsSettled choice stage_defs

run_full_pipeline-IsChosen_example :
    (s : ModuleState) × (r : Report) × (resolve modules [] ("crawl" ∷ []) ≡ some s)
    × (run_full_pipeline [] ("crawl" ∷ []) stage_defs ≡ some r)
    × All (λ run. IsChosen [] ("crawl" ∷ []) s.enabled run.stages) r.saved
run_full_pipeline-IsChosen_example = run_full_pipeline-IsChosen [] ("crawl" ∷ []) stage_defs

-- A task that is never done and takes three seconds to unwind; a stop is requested after fifty.
abbrev stuck_stage : Awaited
stuck_stage = record {
  done_at = none;
  unwinds_in = some 3;
  cancel_check = λ t. some (leb 50 t);
  check_delay = λ t. 1;
  saves = λ t. true;
  save_delay = λ t. 2;
}

run_stage_with_heartbeat-Ends_example :
    (w : Wait) × (run_stage_with_heartbeat 100 stuck_stage ≡ some w) × Ends 100 stuck_stage 2 w
run_stage_with_heartbeat-Ends_example =
    run_stage_with_heartbeat-Ends 100 stuck_stage 2 (omega arith) (λ t. omega arith)
      (λ t. omega arith)

-- The second poll, at 93 seconds, notices the stop.
run_stage_with_heartbeat_test :
    run_stage_with_heartbeat 100 stuck_stage
    ≡ some (returns (record { ended = by_stop; at = 97; saves = 1 }))
unfolding run_stage_with_heartbeat
run_stage_with_heartbeat_test = refl

abbrev program_doc : ProgramDoc
program_doc = record {
  scope_fields = program;
  enabled = some true;
  initial_scan_completed = false;
  enabled_modules = [];
  disabled_modules = "crawl" ∷ [];
  timeout_overrides = [];
}

abbrev full_run : Launch → Report
full_run l = finish completed (completed_run [] []) []

abbrev confirmed : Authorization
confirmed = confirm_authorization engine announced authorization

abbrev full_launch : Launch
full_launch = launch program_doc (some confirmed) []

abbrev phase_launch : Launch
phase_launch = launch program_doc (some authorization) []

run_program-IsAuthorized_example :
    IsAuthorized engine [] false
      (some program_doc)
      (some authorization)
      announced
      full_launch
      true
      (full_run full_launch)
unfolding run_program auth_is_current
run_program-IsAuthorized_example =
    run_program-IsAuthorized engine [] false (some program_doc) (some authorization) announced
      full_run full_launch (full_run full_launch) true refl

run_program-IsAnnounced_example :
    All (IsAnnounced engine (or_empty announced)) ("198.51.100.7" ∷ [])
unfolding run_program launch auth_is_current build_program_scope evaluate owns_host
    on_exclusion_list is_loopback is_link_local is_multicast in_network parse_networks
    confirm_authorization subnet_of
run_program-IsAnnounced_example =
    run_program-IsAnnounced engine [] false (some program_doc) (some authorization) announced
      full_run full_launch (full_run full_launch) true www "198.51.100.7" [] active_scan refl
      reads_networks refl refl refl refl refl

abbrev routes : String → Option (Launch → ℕ)
routes name = if name == "probe" then some (λ l. 7) else none

run_pipeline-IsCleared_example :
    IsCleared [] routes "probe" [] false (some program_doc) (some authorization) phase_launch 7
unfolding run_pipeline auth_is_current resolve contains insert discard is_enabled
run_pipeline-IsCleared_example =
    run_pipeline-IsCleared [] routes "probe" [] false (some program_doc) (some authorization)
      phase_launch 7 refl
