-- ===== src/Pipeline/Endings.antt =====
-- pipelines/orchestrate.py: how a run may end, and what its stages are then.
use exact_surface.Prelude.{
  String, ◌≡◌, refl, sym, ap, ◌∙◌, Bool, true, false, List, [], ◌∷◌, ◌++◌, map, arith, All,
  All-append,
}
use mathlib.Core.List.{append-nil, append_assoc, map-append}
use exact_surface.Pipeline.{
  ScanStatus, running, success, failed, skipped, cancelled, Stage, Outcome, finishes, times_out,
  stops, dies, raises, StageDef, Run, Ending, completed, was_cancelled, killed, Report,
  queued_stage, cancel_stage, cancelled_run, killed_run, finish, ended, note_failure, final_status,
}

-- The statuses in which the loop leaves a stage behind.
abbrev pub is_through : ScanStatus → Bool
is_through success = true
is_through failed = true
is_through skipped = true
is_through _ = false

-- The statuses in which nothing more happens to a stage.
abbrev pub is_over : ScanStatus → Bool
is_over cancelled = true
is_over s = is_through s

abbrev pub is_running : ScanStatus → Bool
is_running running = true
is_running _ = false

-- The stages that failed, in their order.
abbrev pub failures_of : List Stage → List String
failures_of [] = []
failures_of (s ∷ ss) =
    let rest = failures_of ss in elim s.status [ failed ↦ s.name ∷ rest | _ ↦ rest ]

abbrev pub names_of : List Stage → List String
names_of stages = map (λ s. s.name) stages

-- What holds of the run for each way in which the call ends.
abbrev pub Settles : Ending → Run → Type 0
Settles completed run =
    All (λ s. is_through s.status ≡ true) run.stages
    × (run.error ≡ failures_of run.stages)
    × (run.status ≡ final_status (failures_of run.stages))
Settles was_cancelled run = (run.status ≡ cancelled) × All (λ s. is_over s.status ≡ true) run.stages
Settles killed run = (run.status ≡ failed) × All (λ s. is_running s.status ≡ false) run.stages

pub record IsSettled (names : List String) (r : Report) : Type 0 where
  pub settled : Settles r.ending r.run
  pub complete : names_of r.run.stages ≡ names
  pub earlier : List Run
  pub stored : r.saved ≡ r.run ∷ earlier

abbrev pub IsThrough : List Stage → Type 0
IsThrough = All (λ s. is_through s.status ≡ true)

All-weaken :
    (P Q : Stage → Type 0) (ss : List Stage) → ((s : Stage) → P s → Q s) → All P ss → All Q ss
All-weaken P Q [] f h = tt
All-weaken P Q (s ∷ ss) f h = (f s h.0, All-weaken P Q ss f h.1)

through-cancel_stage :
    (s : Stage) → is_through s.status ≡ true → is_over (cancel_stage s).status ≡ true
unfolding cancel_stage
through-cancel_stage s h = ground arith

All-cancel_stage :
    (ss : List Stage)
    → All (λ s. is_over (cancel_stage s).status ≡ true) ss
    → All (λ s. is_over s.status ≡ true) (map cancel_stage ss)
All-cancel_stage [] h = tt
All-cancel_stage (s ∷ ss) h = (h.0, All-cancel_stage ss h.1)

queued-cancel_stage :
    (defs : List StageDef)
    → All (λ s. is_over (cancel_stage s).status ≡ true) (map queued_stage defs)
unfolding cancel_stage
queued-cancel_stage [] = tt
queued-cancel_stage (d ∷ defs) = (refl, queued-cancel_stage defs)

names-cancel_stage : (ss : List Stage) → names_of (map cancel_stage ss) ≡ names_of ss
unfolding cancel_stage
names-cancel_stage [] = refl
names-cancel_stage (s ∷ ss) = cc (names-cancel_stage ss, name_lem s)
  where
    name_lem : (s : Stage) → (cancel_stage s).name ≡ s.name
    name_lem s = ground arith

names-queued : (defs : List StageDef) → names_of (map queued_stage defs) ≡ map (λ d. d.name) defs
names-queued [] = refl
names-queued (d ∷ defs) = ap (λ ns. d.name ∷ ns) (names-queued defs)

pub failures_of-append :
    (ss : List Stage) (s : Stage)
    → failures_of (ss ++ (s ∷ [])) ≡ failures_of ss ++ failures_of (s ∷ [])
failures_of-append [] s = refl
failures_of-append (x ∷ ss) s = ground (arith, failures_of-append ss s)

-- The names of a run whose stages are those through, one more and those to come.
names-run :
    (before : List Stage) (s : Stage) (defs : List StageDef)
    → names_of (before ++ (s ∷ map queued_stage defs))
      ≡ names_of before ++ (s.name ∷ map (λ d. d.name) defs)
names-run before s defs =
    map-append (λ (x : Stage). x.name) before (s ∷ map queued_stage defs)
    ∙ ap (λ ns. names_of before ++ (s.name ∷ ns)) (names-queued defs)

pub names-next :
    (before : List Stage) (s : Stage) (names : List String)
    → names_of (before ++ (s ∷ [])) ++ names ≡ names_of before ++ (s.name ∷ names)
names-next before s names =
    ap (λ ns. ns ++ names) (map-append (λ (x : Stage). x.name) before (s ∷ []))
    ∙ append_assoc (names_of before) (s.name ∷ []) names

pub stopped-IsSettled :
    (before : List Stage) (s : Stage) (defs : List StageDef) (name : String) (saved : List Run)
    → IsThrough before
    → is_over (cancel_stage s).status ≡ true
    → IsSettled
        (names_of before ++ (s.name ∷ map (λ d. d.name) defs))
        (finish was_cancelled (cancelled_run (before ++ (s ∷ map queued_stage defs)) name) saved)
stopped-IsSettled before s defs name saved h o = record {
  settled = (
    refl,
    All-cancel_stage (before ++ (s ∷ map queued_stage defs)) (
        All-append _ before _ (All-weaken _ _ before through-cancel_stage h)
          (o, queued-cancel_stage defs)),
  );
  complete = names-cancel_stage (before ++ (s ∷ map queued_stage defs)) ∙ names-run before s defs;
  earlier = saved;
  stored = refl;
}

not_running : (s : Stage) → is_through s.status ≡ true → is_running s.status ≡ false
not_running s h = ground arith

queued-not_running :
    (defs : List StageDef) → All (λ s. is_running s.status ≡ false) (map queued_stage defs)
queued-not_running [] = tt
queued-not_running (d ∷ defs) = (refl, queued-not_running defs)

pub killed-IsSettled :
    (before : List Stage) (s : Stage) (defs : List StageDef) (name : String) (saved : List Run)
    → IsThrough before
    → is_running s.status ≡ false
    → IsSettled
        (names_of before ++ (s.name ∷ map (λ d. d.name) defs))
        (finish killed (killed_run (before ++ (s ∷ map queued_stage defs)) name) saved)
killed-IsSettled before s defs name saved h o = record {
  settled = (
    refl,
    All-append _ before _ (All-weaken _ _ before not_running h) (o, queued-not_running defs),
  );
  complete = names-run before s defs;
  earlier = saved;
  stored = refl;
}

-- The name of a stage that has ended is the one that it was given, and `note_failure` adds it exactly
-- if the stage failed.
pub ended-name : (name : String) (o : Outcome) → (ended name o).name ≡ name
ended-name name (finishes true why) = refl
ended-name name (finishes false why) = refl
ended-name name times_out = refl
ended-name name stops = refl
ended-name name dies = refl
ended-name name (raises m) = refl

abbrev pub goes_on : Outcome → Bool
goes_on stops = false
goes_on dies = false
goes_on (finishes _ _) = true
goes_on times_out = true
goes_on (raises m) = true

pub ended_through :
    (name : String) (o : Outcome) → goes_on o ≡ true → is_through (ended name o).status ≡ true
ended_through name (finishes true why) h = refl
ended_through name (finishes false why) h = refl
ended_through name times_out h = refl
ended_through name (raises m) h = refl
ended_through name stops h = cc
ended_through name dies h = cc

pub note_failure-ended :
    (name : String) (o : Outcome) (before : List Stage)
    → goes_on o ≡ true
    → note_failure name o (failures_of before) ≡ failures_of (before ++ (ended name o ∷ []))
note_failure-ended name (finishes true why) before h =
    sym (append-nil (failures_of before))
    ∙ sym (failures_of-append before (ended name (finishes true why)))
note_failure-ended name (finishes false why) before h =
    sym (append-nil (failures_of before))
    ∙ sym (failures_of-append before (ended name (finishes false why)))
note_failure-ended name times_out before h = sym (failures_of-append before (ended name times_out))
note_failure-ended name (raises m) before h =
    sym (failures_of-append before (ended name (raises m)))
note_failure-ended name stops before h = cc
note_failure-ended name dies before h = cc
