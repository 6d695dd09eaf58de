-- ===== src/Pipeline/Settled.antt =====
-- pipelines/orchestrate.py: what a run has come to when the call is over.
use exact_surface.Prelude.{
  String, ◌≡◌, refl, sym, ap, ◌∙◌, inl, inr, true, none, List, [], ◌∷◌, ◌++◌, map, All-append,
  subst, Bool-cases,
}
use mathlib.Core.List.{append-nil}
use exact_surface.Modules.{ModuleState, is_enabled}
use exact_surface.Pipeline.{
  running, Stage, Outcome, finishes, times_out, stops, dies, raises, StageDef, Run, Report,
  queued_stage, running_run, cancel_stage, ended, note_failure, final_status, skipped_stage,
  conclude_stage, run_stages, run_all,
}
use exact_surface.Pipeline.Endings.{
  failures_of, names_of, IsSettled, IsThrough, failures_of-append, names-next, stopped-IsSettled,
  killed-IsSettled, ended-name, goes_on, ended_through, note_failure-ended,
}

module _ (modules : ModuleState) where
  conclude_stage-IsSettled :
      (before : List Stage) (name : String) (defs : List StageDef) (saved : List Run) (o : Outcome)
      (rest : Report)
      → IsThrough before
      → (goes_on o ≡ true → IsSettled (names_of before ++ (name ∷ map (λ d. d.name) defs)) rest)
      → IsSettled
          (names_of before ++ (name ∷ map (λ d. d.name) defs))
          (conclude_stage modules before name (map queued_stage defs) saved o rest)
  unfolding conclude_stage cancel_stage
  conclude_stage-IsSettled before name defs saved stops rest h k =
      stopped-IsSettled before (ended name stops) defs name saved h refl
  conclude_stage-IsSettled before name defs saved dies rest h k =
      killed-IsSettled before (ended name dies) defs name saved h refl
  conclude_stage-IsSettled before name defs saved times_out rest h k = k refl
  conclude_stage-IsSettled before name defs saved (raises m) rest h k = k refl
  conclude_stage-IsSettled before name defs saved (finishes _ _) rest h k = k refl

  run_stages-IsSettled :
      (before : List Stage) (failures : List String) (saved : List Run) (defs : List StageDef)
      → IsThrough before
      → failures ≡ failures_of before
      → IsSettled
          (names_of before ++ map (λ d. d.name) defs)
          (run_stages modules before failures saved defs)
  unfolding run_stages cancel_stage
  run_stages-IsSettled before failures saved [] h e = record {
    settled = (h, e, ap final_status e);
    complete = sym (append-nil (names_of before));
    earlier = saved;
    stored = refl;
  }
  run_stages-IsSettled before failures saved (d ∷ defs) h e =
      let names = map (λ (x : StageDef). x.name) defs in
      let off = before ++ (skipped_stage modules d.name ∷ []) in
      let through = before ++ (ended d.name d.outcome ∷ []) in
      let begun =
        running_run (
          before
          ++ (record { name = d.name; status = running; note = none } ∷ map queued_stage defs))
        ∷ saved in
      elim (Bool-cases d.cancel_requested) [
        | inl t ↦ rw t (stopped-IsSettled before (queued_stage d) defs d.name saved h refl)
        | inr f ↦ elim (Bool-cases (is_enabled modules d.name)) [
          | inr g ↦
              rw (f, g)
                (subst
                  (λ ns. IsSettled ns (
                    run_stages modules off failures
                      (running_run (off ++ map queued_stage defs) ∷ saved) defs))
                  (names-next before (skipped_stage modules d.name) names)
                  (run_stages-IsSettled off failures
                    (running_run (off ++ map queued_stage defs) ∷ saved) defs
                    (All-append _ before _ h (refl, tt))
                    (e
                      ∙ sym (append-nil (failures_of before))
                      ∙ sym (failures_of-append before (skipped_stage modules d.name)))))
          | inl t ↦
              rw (f, t)
                (conclude_stage-IsSettled before d.name defs begun d.outcome
                  (run_stages modules through (note_failure d.name d.outcome failures)
                    (running_run (through ++ map queued_stage defs) ∷ begun) defs)
                  h
                  (λ on.
                    subst
                      (λ ns. IsSettled ns (
                        run_stages modules through (note_failure d.name d.outcome failures)
                          (running_run (through ++ map queued_stage defs) ∷ begun) defs))
                      (names-next before (ended d.name d.outcome) names
                        ∙ ap (λ n. names_of before ++ (n ∷ names)) (ended-name d.name d.outcome))
                      (run_stages-IsSettled through (note_failure d.name d.outcome failures)
                        (running_run (through ++ map queued_stage defs) ∷ begun) defs
                        (All-append _ before _ h (ended_through d.name d.outcome on, tt))
                        (ap (note_failure d.name d.outcome) e
                          ∙ note_failure-ended d.name d.outcome before on))))
        ]
      ]

  -- However its stages end and whenever a stop comes, a full run is over with every stage accounted
  -- for, in their order, and the last thing stored is what it has come to. A run that completes has
  -- no stage queued or running, names the stages that failed, and is a success exactly if there are
  -- none. A run that was stopped is cancelled and has no stage queued or running. A run that was
  -- killed within a stage has failed and has no stage running.
  pub run_all-IsSettled :
      (defs : List StageDef) → IsSettled (map (λ d. d.name) defs) (run_all modules defs)
  unfolding run_all
  run_all-IsSettled defs =
      run_stages-IsSettled [] [] (running_run (map queued_stage defs) ∷ []) defs tt refl
