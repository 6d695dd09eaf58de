-- ===== src/Taskqueue/Cascade/Chains.antt =====
-- taskqueue/cascade.py: how far a discovery is followed.
use exact_surface.Prelude.{
  ℕ, ◌≤◌, ◌<◌, String, ◌≡◌, refl, subst, Bool, true, Option, none, some, List, [], ◌∷◌, length,
  arith, In, here, there, All, All-In, inl, inr, ◌⊎◌, if◌then◌else◌, ◌==◌, get, contains, string_eq,
  Bool-cases,
}
use exact_surface.Taskqueue.Cascade.{
  program_wide, PhaseResult, Follow, has_some, downstream_of, follow_all, cascade_jobs,
}

-- How many phases may still come after one.
abbrev pub remaining : String → ℕ
remaining name =
    if name == "ingest"
    then 4
    else if name == "probe"
    then 3
    else if name == "crawl"
    then 2
    else if name == "scan"
    then 1
    else if name == "secrets"
    then 1
    else 0

-- A job that follows a phase: it is one of the table, nearer to its end, and has targets unless it is for the
-- whole program.
pub record IsFollow (pipeline : String) (j : Follow) : Type 0 where
  pub listed : In j.pipeline (downstream_of pipeline)
  pub aimed : (has_some j.targets ≡ true) ⊎ (contains j.pipeline program_wide ≡ true)

follow_all-All :
    (pipeline tenant_id program_id : String) (targets : List String) (has_new : Bool)
    (names : List String)
    → ((x : String) → In x names → In x (downstream_of pipeline))
    → All (IsFollow pipeline) (follow_all pipeline tenant_id program_id targets has_new names)
unfolding follow_all
follow_all-All pipeline tenant_id program_id targets has_new [] h = tt
follow_all-All pipeline tenant_id program_id targets has_new (x ∷ xs) h =
    let rest =
      follow_all-All pipeline tenant_id program_id targets has_new xs (λ y m. h y (there m)) in
    elim (Bool-cases (contains x program_wide)) [
      | inl w ↦ elim (Bool-cases has_new) [
        | inl n ↦ rw (w, n, follow_all) (record { listed = h x (here refl); aimed = inr w }, rest)
        | inr n ↦ rw (w, n, follow_all) rest
      ]
      | inr w ↦ elim (Bool-cases (has_some targets)) [
        | inl n ↦ rw (w, n, follow_all) (record { listed = h x (here refl); aimed = inl n }, rest)
        | inr n ↦ rw (w, n, follow_all) rest
      ]
    ]

cascade_jobs-All :
    (pipeline : String) (r : Option PhaseResult) (tenant_id program_id : String)
    → All (IsFollow pipeline) (cascade_jobs pipeline r tenant_id program_id)
unfolding cascade_jobs
cascade_jobs-All pipeline none tenant_id program_id = tt
cascade_jobs-All pipeline (some r) tenant_id program_id = elim (Bool-cases r.skipped) [
  | inl s ↦ rw (s, cascade_jobs) tt
  | inr s ↦
      rw (s, cascade_jobs)
        (follow_all-All pipeline tenant_id program_id _ _ (downstream_of pipeline) (λ x m. m))
]

-- A run of phases in which each follows the one before by a job of the cascade.
pub data Chain : String → List Follow → Type 0 where
  done : {pipeline : String} → Chain pipeline []
  next :
      {pipeline : String} {j : Follow} {js : List Follow} (r : Option PhaseResult)
      (tenant_id program_id : String)
      → In j (cascade_jobs pipeline r tenant_id program_id)
      → Chain j.pipeline js
      → Chain pipeline (j ∷ js)

module _ (P : String → Type 0) where
  at_name : (name pipeline : String) → (name == pipeline) ≡ true → P name → P pipeline
  at_name name pipeline t h = subst P ((string_eq.beq_iff name pipeline).0 t) h

downstream-remaining :
    (pipeline : String) → All (λ x. remaining x < remaining pipeline) (downstream_of pipeline)
unfolding downstream_of get
downstream-remaining pipeline =
    let Nearer = λ (p : String). All (λ x. remaining x < remaining p) (downstream_of p) in
    elim (Bool-cases ("ingest" == pipeline)) [
      | inl t ↦ at_name Nearer "ingest" pipeline t (omega arith, tt)
      | inr a ↦ elim (Bool-cases ("probe" == pipeline)) [
        | inl t ↦ at_name Nearer "probe" pipeline t (omega arith, (omega arith, tt))
        | inr b ↦ elim (Bool-cases ("crawl" == pipeline)) [
          | inl t ↦ at_name Nearer "crawl" pipeline t (omega arith, (omega arith, tt))
          | inr c ↦ elim (Bool-cases ("scan" == pipeline)) [
            | inl t ↦ at_name Nearer "scan" pipeline t (omega arith, tt)
            | inr d ↦ elim (Bool-cases ("secrets" == pipeline)) [
              | inl t ↦ at_name Nearer "secrets" pipeline t (omega arith, tt)
              | inr f ↦ rw (a, b, c, d, f, downstream_of) tt
            ]
          ]
        ]
      ]
    ]

remaining_bound : (pipeline : String) → remaining pipeline ≤ 4
remaining_bound pipeline = ground arith

chain_lem :
    (pipeline : String) (js : List Follow)
    → Chain pipeline js
    → All (λ j. (has_some j.targets ≡ true) ⊎ (contains j.pipeline program_wide ≡ true)) js
      × (length js ≤ remaining pipeline)
chain_lem pipeline [] done = (tt, omega arith)
chain_lem pipeline (j ∷ js) (next r tenant_id program_id m c) =
    let f =
      All-In (IsFollow pipeline) (cascade_jobs pipeline r tenant_id program_id)
        (cascade_jobs-All pipeline r tenant_id program_id) m in
    let nearer = All-In _ (downstream_of pipeline) (downstream-remaining pipeline) f.listed in
    let ih = chain_lem j.pipeline js c in ((f.aimed, ih.0), omega (arith, nearer, ih.1))

-- Whatever the phases report, discoveries set off at most four jobs one after the other, and each of them has
-- targets or is for the whole program: the cascade cannot loop.
pub Chain-length :
    (pipeline : String) (js : List Follow)
    → Chain pipeline js
    → All (λ j. (has_some j.targets ≡ true) ⊎ (contains j.pipeline program_wide ≡ true)) js
      × (length js ≤ 4)
Chain-length pipeline js c =
    let h = chain_lem pipeline js c in (h.0, omega (arith, h.1, remaining_bound pipeline))
