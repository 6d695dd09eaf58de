-- ===== src/Taskqueue/Scheduler/Grounds.antt =====
-- taskqueue/scheduler.py: every job that is planned has its grounds. The rule `visit_all_rule` turns
-- what each appended job keeps into what the whole loop keeps.
use exact_surface.Prelude.{
  ℕ, String, ◌≡◌, refl, true, false, List, [], ◌∷◌, In, here, there, Dict, Bool-cases, inl, inr,
}
use exact_surface.Taskqueue.Cadence.{is_due}
use exact_surface.Taskqueue.Scheduler.{
  Job, Program, World, Plan, add_job, is_ready, capped, full_pipeline, bootstrap_retry_seconds,
  full_job, phase_job, module_enabled, bootstrap, phase, phases, cadence_of, visit, visit_all,
}

module _ (w : World) (max_per_tenant now : ℕ) where
  -- Why a job may be planned for a program: it never completed a full run, and the retry interval
  -- of that run is over; or it did, and the pipeline is on its cadence, enabled and due.
  pub data Grounds (p : Program) (j : Job) : Type 0 where
    initial :
        p.initial_scan_completed ≡ false
        → is_due (w.last_run p.tenant_id p.program_id full_pipeline) now bootstrap_retry_seconds
          ≡ true
        → j ≡ full_job p
        → Grounds p j
    recurring :
        p.initial_scan_completed ≡ true
        → (pipeline : String) (interval : ℕ) → In (pipeline, interval) (cadence_of w p)
        → module_enabled p pipeline ≡ true
        → is_due (w.last_run p.tenant_id p.program_id pipeline) now interval ≡ true
        → j ≡ phase_job p pipeline (w.last_run p.tenant_id p.program_id pipeline)
        → Grounds p j

  -- A job stands for a listed program that is enabled, verified and authorized, has no full run
  -- under way, and whose user has not just cancelled one.
  pub record IsJustified (j : Job) : Type 0 where
    pub program : Program
    pub listed : In program w.programs
    pub ready : is_ready w program ≡ true
    pub idle : w.active_full program.tenant_id program.program_id ≡ false
    pub wanted : w.recent_cancelled program.tenant_id program.program_id ≡ false
    pub grounds : Grounds program j

  module _ {P : Plan → Type 0}
      (adds : (plan : Plan) (j : Job)
        → capped max_per_tenant j.tenant_id plan ≡ false
        → IsJustified j
        → P plan
        → P (add_job plan j)) where
    bootstrap_rule :
        (p : Program) (plan : Plan)
        → ((j : Job) → Grounds p j → IsJustified j)
        → p.initial_scan_completed ≡ false
        → P plan
        → P (bootstrap w max_per_tenant now p plan)
    unfolding bootstrap
    bootstrap_rule p plan just fresh h =
        elim (Bool-cases (capped max_per_tenant p.tenant_id plan)) [
          | inl full ↦ rw full h
          | inr room ↦
              elim (Bool-cases (
                is_due (w.last_run p.tenant_id p.program_id full_pipeline) now
                  bootstrap_retry_seconds)) [
                    | inl due ↦
                        rw (room, due) (adds plan _ room (just _ (initial fresh due refl)) h)
                    | inr early ↦ rw (room, early) h
                  ]
        ]

    phase_rule :
        (p : Program) (plan : Plan) (pipeline : String) (interval : ℕ)
        → ((j : Job) → Grounds p j → IsJustified j)
        → p.initial_scan_completed ≡ true
        → In (pipeline, interval) (cadence_of w p)
        → P plan
        → P (phase w max_per_tenant now p plan pipeline interval)
    unfolding phase
    phase_rule p plan pipeline interval just done on h =
        elim (Bool-cases (module_enabled p pipeline)) [
          | inr off ↦ rw off h
          | inl mod_on ↦
              elim (Bool-cases
                (is_due (w.last_run p.tenant_id p.program_id pipeline) now interval)) [
                  | inr early ↦ rw (mod_on, early) h
                  | inl due ↦ elim (Bool-cases (capped max_per_tenant p.tenant_id plan)) [
                    | inl full ↦ rw (mod_on, due, full) h
                    | inr room ↦
                        rw (mod_on, due, room)
                          (adds plan _ room
                            (just _ (recurring done pipeline interval on mod_on due refl)) h)
                  ]
                ]
        ]

    phases_rule :
        (p : Program) (plan : Plan) (cs : Dict String ℕ)
        → ((j : Job) → Grounds p j → IsJustified j)
        → p.initial_scan_completed ≡ true
        → ((pipeline : String) (interval : ℕ)
            → In (pipeline, interval) cs
            → In (pipeline, interval) (cadence_of w p))
        → P plan
        → P (phases w max_per_tenant now p plan cs)
    unfolding phases
    phases_rule p plan [] just done sub h = h
    phases_rule p plan ((pipeline, interval) ∷ cs) just done sub h =
        phases_rule p (phase w max_per_tenant now p plan pipeline interval) cs just done
          (λ q i m. sub q i (there m))
          (phase_rule p plan pipeline interval just done (sub pipeline interval (here refl)) h)

    visit_rule :
        (p : Program) (plan : Plan)
        → In p w.programs
        → P plan
        → P (visit w max_per_tenant now plan p)
    unfolding visit
    visit_rule p plan m h = elim (Bool-cases (is_ready w p)) [
      | inr out ↦ rw out h
      | inl ready ↦ elim (Bool-cases (w.active_full p.tenant_id p.program_id)) [
        | inl busy ↦ rw (ready, busy) h
        | inr idle ↦ elim (Bool-cases (w.recent_cancelled p.tenant_id p.program_id)) [
          | inl stopped ↦ rw (ready, idle, stopped) h
          | inr wanted ↦
              let just = λ (j : Job) (g : Grounds p j).
                let r : IsJustified j = record {
                  program = p;
                  listed = m;
                  ready = ready;
                  idle = idle;
                  wanted = wanted;
                  grounds = g;
                } in
                r in
              elim (Bool-cases p.initial_scan_completed) [
                | inr fresh ↦ rw (ready, idle, wanted, fresh) (bootstrap_rule p plan just fresh h)
                | inl done ↦
                    rw (ready, idle, wanted, done)
                      (phases_rule p plan (cadence_of w p) just done (λ q i k. k) h)
              ]
        ]
      ]
    ]

    -- What every justified job that fits under the cap keeps, the loop over the programs keeps.
    pub visit_all_rule :
        (plan : Plan) (ps : List Program)
        → ((p : Program) → In p ps → In p w.programs)
        → P plan
        → P (visit_all w max_per_tenant now plan ps)
    unfolding visit_all
    visit_all_rule plan [] sub h = h
    visit_all_rule plan (p ∷ ps) sub h =
        visit_all_rule (visit w max_per_tenant now plan p) ps (λ q m. sub q (there m))
          (visit_rule p plan (sub p (here refl)) h)
