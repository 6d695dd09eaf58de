-- ===== src/Pipeline/Gated.antt =====
-- pipelines/orchestrate.py: what runs, in every state of a run that is ever stored.
use exact_surface.Prelude.{
  ℕ, ◌+◌, ◌≤◌, String, ◌≡◌, refl, inl, inr, Bool, true, false, none, List, [], ◌∷◌, ◌++◌, map,
  arith, In, some, contains, string_eq, sym, subst, All, All-In, All-of_In, All-append, Bool-cases,
}
use exact_surface.Modules.{ModuleSpec, ModuleState, is_enabled, resolve}
use exact_surface.Modules.Registry.{modules as registry}
use exact_surface.Modules.Choice.{IsWanted, IsAnswer, resolve-IsAnswer}
use exact_surface.Pipeline.{
  ScanStatus, running, success, failed, Stage, Outcome, finishes, times_out, stops, dies, raises,
  StageDef, Run, Report, queued_stage, running_run, cancel_stage, ended, note_failure,
  skipped_stage, conclude_stage, run_stages, run_all, run_full_pipeline,
}

-- The statuses that only a stage that was started has.
abbrev pub was_started : ScanStatus → Bool
was_started running = true
was_started success = true
was_started failed = true
was_started _ = false

abbrev pub running_count : List Stage → ℕ
running_count [] = 0
running_count (s ∷ ss) =
    let rest = running_count ss in elim s.status [ running ↦ rest + 1 | _ ↦ rest ]

module _ (modules : ModuleState) where
  -- Only stages of enabled modules were started, and at most one is running.
  pub record IsGated (stages : List Stage) : Type 0 where
    pub started : All (λ s. was_started s.status ≡ true → is_enabled modules s.name ≡ true) stages
    pub one : running_count stages ≤ 1

  -- The same for stages of which none is running.
  record IsQuiet (stages : List Stage) : Type 0 where
    started : All (λ s. was_started s.status ≡ true → is_enabled modules s.name ≡ true) stages
    idle : running_count stages ≡ 0

running_count-append :
    (xs ys : List Stage) → running_count (xs ++ ys) ≡ running_count xs + running_count ys
running_count-append [] ys = omega arith
running_count-append (x ∷ xs) ys = ground (arith, running_count-append xs ys)

module _ (modules : ModuleState) where
  IsQuiet-append :
      (xs ys : List Stage) → IsQuiet modules xs → IsQuiet modules ys → IsQuiet modules (xs ++ ys)
  IsQuiet-append xs ys h k = record {
    started = All-append _ xs ys h.started k.started;
    idle = ground (arith, running_count-append xs ys, h.idle, k.idle);
  }

  IsQuiet-IsGated : (ss : List Stage) → IsQuiet modules ss → IsGated modules ss
  IsQuiet-IsGated ss h = record { started = h.started; one = omega (arith, h.idle) }

  queued-IsQuiet : (defs : List StageDef) → IsQuiet modules (map queued_stage defs)
  queued-IsQuiet [] = record { started = tt; idle = refl }
  queued-IsQuiet (d ∷ defs) =
      let r = queued-IsQuiet defs in record { started = (λ h. cc, r.started); idle = r.idle }

  running-IsGated :
      (xs ys : List Stage) (name : String)
      → is_enabled modules name ≡ true
      → IsQuiet modules xs
      → IsQuiet modules ys
      → IsGated modules (xs ++ (record { name = name; status = running; note = none } ∷ ys))
  running-IsGated xs ys name e h k =
      let s : Stage = record { name = name; status = running; note = none } in
      record {
        started = All-append _ xs (s ∷ ys) h.started (λ r. e, k.started);
        one = omega (arith, running_count-append xs (s ∷ ys), h.idle, k.idle);
      }

  one-IsQuiet :
      (name : String) (o : Outcome)
      → is_enabled modules name ≡ true
      → IsQuiet modules (ended name o ∷ [])
  one-IsQuiet name (finishes true why) e = record { started = (λ h. e, tt); idle = refl }
  one-IsQuiet name (finishes false why) e = record { started = (λ h. e, tt); idle = refl }
  one-IsQuiet name times_out e = record { started = (λ h. e, tt); idle = refl }
  one-IsQuiet name (raises m) e = record { started = (λ h. e, tt); idle = refl }
  one-IsQuiet name stops e = record { started = (λ h. e, tt); idle = refl }
  one-IsQuiet name dies e = record { started = (λ h. e, tt); idle = refl }

  off-IsQuiet : (name : String) → IsQuiet modules (skipped_stage modules name ∷ [])
  off-IsQuiet name = record { started = (λ h. cc, tt); idle = refl }

  cancel-IsQuiet : (ss : List Stage) → IsQuiet modules ss → IsQuiet modules (map cancel_stage ss)
  unfolding cancel_stage
  cancel-IsQuiet [] h = h
  cancel-IsQuiet (s ∷ ss) h =
      let r = cancel-IsQuiet ss (record { started = h.started.1; idle = ground (arith, h.idle) }) in
      record {
        started = (λ t. ground (arith, h.started.0), r.started);
        idle = ground (arith, r.idle, h.idle);
      }

  abbrev AllGated : List Run → Type 0
  AllGated = All (λ r. IsGated modules r.stages)

  conclude_stage-IsGated :
      (before : List Stage) (name : String) (after : List Stage) (saved : List Run) (o : Outcome)
      (rest : Report)
      → is_enabled modules name ≡ true
      → IsQuiet modules before
      → IsQuiet modules after
      → AllGated saved
      → AllGated rest.saved
      → AllGated (conclude_stage modules before name after saved o rest).saved
  unfolding conclude_stage
  conclude_stage-IsGated before name after saved stops rest e h k s r =
      let all =
        IsQuiet-append before _ h
          (IsQuiet-append (ended name stops ∷ []) after (one-IsQuiet name stops e) k) in
      (IsQuiet-IsGated _ (cancel-IsQuiet (before ++ (ended name stops ∷ after)) all), s)
  conclude_stage-IsGated before name after saved dies rest e h k s r =
      let all =
        IsQuiet-append before _ h
          (IsQuiet-append (ended name dies ∷ []) after (one-IsQuiet name dies e) k) in
      (IsQuiet-IsGated _ all, s)
  conclude_stage-IsGated before name after saved times_out rest e h k s r = r
  conclude_stage-IsGated before name after saved (raises m) rest e h k s r = r
  conclude_stage-IsGated before name after saved (finishes _ _) rest e h k s r = r

  run_stages-IsGated :
      (before : List Stage) (failures : List String) (saved : List Run) (defs : List StageDef)
      → IsQuiet modules before
      → AllGated saved
      → AllGated (run_stages modules before failures saved defs).saved
  unfolding run_stages
  run_stages-IsGated before failures saved [] h s = (IsQuiet-IsGated before h, s)
  run_stages-IsGated before failures saved (d ∷ defs) h s =
      let after = map queued_stage defs in
      let later = queued-IsQuiet defs in
      let off = before ++ (skipped_stage modules d.name ∷ []) in
      let through = before ++ (ended d.name d.outcome ∷ []) in
      let begun =
        running_run (before ++ (record { name = d.name; status = running; note = none } ∷ after))
        ∷ saved in
      elim (Bool-cases d.cancel_requested) [
        | inl t ↦ rw t (
          IsQuiet-IsGated _ (
              cancel-IsQuiet (before ++ map queued_stage (d ∷ defs))
                (IsQuiet-append before _ h (queued-IsQuiet (d ∷ defs)))),
          s,
        )
        | inr f ↦ elim (Bool-cases (is_enabled modules d.name)) [
          | inr g ↦
              let quiet = IsQuiet-append before _ h (off-IsQuiet d.name) in
              rw (f, g)
                (run_stages-IsGated off failures (running_run (off ++ after) ∷ saved) defs quiet
                  (IsQuiet-IsGated _ (IsQuiet-append off after quiet later), s))
          | inl e ↦
              let quiet = IsQuiet-append before _ h (one-IsQuiet d.name d.outcome e) in
              let log : AllGated begun = (running-IsGated before after d.name e h later, s) in
              rw (f, e)
                (conclude_stage-IsGated before d.name after begun d.outcome
                  (run_stages modules through (note_failure d.name d.outcome failures)
                    (running_run (through ++ after) ∷ begun) defs)
                  e h later log
                  (run_stages-IsGated through (note_failure d.name d.outcome failures)
                    (running_run (through ++ after) ∷ begun) defs quiet
                    (IsQuiet-IsGated _ (IsQuiet-append through after quiet later), log)))
        ]
      ]

  run_all-IsGated :
      (defs : List StageDef) → All (λ r. IsGated modules r.stages) (run_all modules defs).saved
  unfolding run_all
  run_all-IsGated defs =
      run_stages-IsGated [] [] (running_run (map queued_stage defs) ∷ []) defs
        (record { started = tt; idle = refl }) (IsQuiet-IsGated _ (queued-IsQuiet defs), tt)

module _ (opted_in opted_out : List String) where
  -- A module that may run under the choices of a program, among those that are enabled: the choices
  -- want it, and each module that it requires is enabled and wanted too.
  pub record MayRun (enabled : List String) (name : String) : Type 0 where
    pub wanted : IsWanted opted_in opted_out registry name
    pub supplied :
        (m : ModuleSpec)
        → In m registry
        → m.name ≡ name
        → (r : String) → In r m.requires
        → (contains r enabled ≡ true) × IsWanted opted_in opted_out registry r

  -- Stages of which at most one is running, and of which only those of enabled modules that may run
  -- were started.
  pub record IsChosen (enabled : List String) (stages : List Stage) : Type 0 where
    pub started :
        All
          (λ s.
            was_started s.status ≡ true → (contains s.name enabled ≡ true) × MayRun enabled s.name)
          stages
    pub one : running_count stages ≤ 1

  answer-MayRun :
      (s : ModuleState)
      → IsAnswer registry opted_in opted_out s
      → (name : String) → contains name s.enabled ≡ true
      → MayRun s.enabled name
  answer-MayRun s a name h = record {
    wanted = a.wanted name h;
    supplied = λ m i e r k.
        let on = a.closed m i (subst (λ n. contains n s.enabled ≡ true) (sym e) h) r k in
        (on, a.wanted r on);
  }

  gated-IsChosen :
      (s : ModuleState) (stages : List Stage)
      → IsAnswer registry opted_in opted_out s
      → IsGated s stages
      → IsChosen s.enabled stages
  unfolding is_enabled
  gated-IsChosen s stages a g = record {
    started =
        All-of_In _ stages
          (λ x m h. let on = All-In _ stages g.started m h in (on, answer-MayRun s a x.name on));
    one = g.one;
  }

  -- For every choice of modules a full run has a definite set of enabled modules; and in every state
  -- of the run that is ever stored, whatever its stages do and whenever a stop comes, at most one
  -- stage is running, and every stage that was started is of an enabled module that the choices want
  -- and whose required modules are enabled and wanted too.
  pub run_full_pipeline-IsChosen :
      (defs : List StageDef)
      → (s : ModuleState) × (r : Report) × (resolve registry opted_in opted_out ≡ some s)
        × (run_full_pipeline opted_in opted_out defs ≡ some r)
        × All (λ run. IsChosen s.enabled run.stages) r.saved
  unfolding run_full_pipeline
  run_full_pipeline-IsChosen defs =
      let (s, e, a) = resolve-IsAnswer registry opted_in opted_out in
      let gated = run_all-IsGated s defs in
      (
        s,
        run_all s defs,
        e,
        rw (e, run_full_pipeline) refl,
        All-of_In _ (run_all s defs).saved
            (λ run m. gated-IsChosen s run.stages a (All-In _ (run_all s defs).saved gated m)),
      )
