-- ===== src/Taskqueue/Scheduler/Fairness.antt =====
-- taskqueue/scheduler.py: how many jobs a tenant gets, which they are, and in which order.
use exact_surface.Prelude.{
  ℕ, ◌+◌, ◌≤◌, String, ◌≡◌, refl, ap, false, List, [], ◌∷◌, arith, In, here, there, In-cons, All,
  All-In, if◌then◌else◌, get, get-put, string_eq, ◌==◌, Bool-cases, inl, inr, leb, leb→le, ◌⊎◌,
}
use native.Mathlib.Nat.{le_trans}
use exact_surface.Taskqueue.Scheduler.{
  Job, World, Plan, nothing, used, add_job, capped, insert_job, sort_jobs, visit_all, plan,
}
use exact_surface.Taskqueue.Scheduler.Grounds.{IsJustified, visit_all_rule}

-- The jobs of a tenant.
unfoldable pub count : String → List Job → ℕ
count tid [] = 0
count tid (j ∷ js) = (if j.tenant_id == tid then 1 else 0) + count tid js

count-insert_job :
    (tid : String) (j : Job) (js : List Job) → count tid (insert_job j js) ≡ count tid (j ∷ js)
unfolding count insert_job
count-insert_job tid j [] = refl
count-insert_job tid j (x ∷ xs) = ground (arith, count-insert_job tid j xs)

count-sort_jobs :
    (tid : String) (sorted js : List Job)
    → count tid (sort_jobs sorted js) ≡ count tid sorted + count tid js
unfolding sort_jobs count
count-sort_jobs tid sorted [] = omega arith
count-sort_jobs tid sorted (j ∷ js) =
    omega (arith, count-sort_jobs tid (insert_job j sorted) js, count-insert_job tid j sorted)

In-insert_job : (j x : Job) (js : List Job) → In x (insert_job j js) → (x ≡ j) ⊎ In x js
unfolding insert_job
In-insert_job j x [] m = In-cons m
In-insert_job j x (y ∷ ys) m = elim (Bool-cases (leb j.priority y.priority)) [
  | inl t ↦ In-cons (rw (t, insert_job) at m)
  | inr f ↦ elim (In-cons (rw (f, insert_job) at m)) [
    | inl e ↦ inr (here e)
    | inr k ↦ elim (In-insert_job j x ys k) [ inl e ↦ inl e | inr k' ↦ inr (there k') ]
  ]
]

pub In-sort_jobs :
    (x : Job) (sorted js : List Job) → In x (sort_jobs sorted js) → In x sorted ⊎ In x js
unfolding sort_jobs
In-sort_jobs x sorted [] m = inl m
In-sort_jobs x sorted (j ∷ js) m = elim (In-sort_jobs x (insert_job j sorted) js m) [
  | inl k ↦ elim (In-insert_job j x sorted k) [ inl e ↦ inr (here e) | inr k' ↦ inl k' ]
  | inr k ↦ inr (there k)
]

-- No job comes before one of a lower priority number.
abbrev pub IsSorted : List Job → Type 0
IsSorted [] = Unit
IsSorted (j ∷ js) = All (λ x. j.priority ≤ x.priority) js × IsSorted js

All-insert_job :
    (P : Job → Type 0) (j : Job) (js : List Job) → P j → All P js → All P (insert_job j js)
unfolding insert_job
All-insert_job P j [] p h = (p, tt)
All-insert_job P j (x ∷ xs) p h = elim (Bool-cases (leb j.priority x.priority)) [
  | inl t ↦ rw (t, All) (p, h)
  | inr f ↦ rw (f, All) (h.0, All-insert_job P j xs p h.1)
]

All-mono : (P Q : Job → Type 0) (js : List Job) → ((x : Job) → P x → Q x) → All P js → All Q js
All-mono P Q [] f h = tt
All-mono P Q (j ∷ js) f h = (f j h.0, All-mono P Q js f h.1)

insert_job-IsSorted : (j : Job) (js : List Job) → IsSorted js → IsSorted (insert_job j js)
unfolding insert_job
insert_job-IsSorted j [] h = (tt, tt)
insert_job-IsSorted j (x ∷ xs) h = elim (Bool-cases (leb j.priority x.priority)) [
  | inl t ↦
      let first = leb→le j.priority x.priority t in
      rw (t, IsSorted)
        (
          (
            first,
            All-mono _ _ xs (λ (y : Job) (l : x.priority ≤ y.priority). le_trans first l) h.0,
          ),
          h,
        )
  | inr f ↦
      rw (f, IsSorted) (All-insert_job _ j xs (ground arith) h.0, insert_job-IsSorted j xs h.1)
]

sort_jobs-IsSorted : (sorted js : List Job) → IsSorted sorted → IsSorted (sort_jobs sorted js)
unfolding sort_jobs
sort_jobs-IsSorted sorted [] h = h
sort_jobs-IsSorted sorted (j ∷ js) h =
    sort_jobs-IsSorted (insert_job j sorted) js (insert_job-IsSorted j sorted h)

used-add_job :
    (tid : String) (p : Plan) (j : Job)
    → used tid (add_job p j) ≡ (if j.tenant_id == tid then used j.tenant_id p + 1 else used tid p)
unfolding add_job
used-add_job tid p j = elim (Bool-cases (j.tenant_id == tid)) [
  | inl t ↦ rw get-put (rw t)
  | inr f ↦ rw get-put (rw f)
]

-- The counts that the loop keeps are those of its list, and none passes the cap.
record IsCounted (max_per_tenant : ℕ) (p : Plan) : Type 0 where
  counted : (tid : String) → used tid p ≡ count tid p.jobs
  within : (tid : String) → used tid p ≤ max_per_tenant

adds-IsCounted :
    (max_per_tenant : ℕ) (p : Plan) (j : Job)
    → capped max_per_tenant j.tenant_id p ≡ false
    → IsCounted max_per_tenant p
    → IsCounted max_per_tenant (add_job p j)
unfolding count capped add_job
adds-IsCounted max_per_tenant p j room h = record {
  counted = λ tid. elim (Bool-cases (j.tenant_id == tid)) [
    | inl t ↦
        let same = ap (λ x. used x p) ((string_eq.beq_iff j.tenant_id tid).0 t) in
        ground (arith, used-add_job tid p j, h.counted tid, same, t)
    | inr f ↦ ground (arith, used-add_job tid p j, h.counted tid, f)
  ];
  within = λ tid. elim (Bool-cases (j.tenant_id == tid)) [
    | inl t ↦ ground (arith, used-add_job tid p j, room, t)
    | inr f ↦ ground (arith, used-add_job tid p j, h.within tid, f)
  ];
}

module _ (w : World) (max_per_tenant now : ℕ) where
  gathered : Plan
  gathered = visit_all w max_per_tenant now nothing w.programs

  gathered-IsCounted : IsCounted max_per_tenant gathered
  unfolding gathered get count
  gathered-IsCounted =
      visit_all_rule w max_per_tenant now
        (λ p j room just h. adds-IsCounted max_per_tenant p j room h) nothing w.programs (λ p m. m)
        (record { counted = λ tid. refl; within = λ tid. omega arith })

  gathered-IsJustified : All (IsJustified w max_per_tenant now) gathered.jobs
  unfolding gathered add_job
  gathered-IsJustified =
      visit_all_rule w max_per_tenant now {P = λ p. All (IsJustified w max_per_tenant now) p.jobs}
        (λ p j room just h. (just, h)) nothing w.programs (λ p m. m) tt

  -- No tenant gets more jobs in one tick than its cap, however many programs it has and whatever
  -- else is due.
  pub plan-fair : (tid : String) → count tid (plan w max_per_tenant now) ≤ max_per_tenant
  unfolding plan count gathered
  plan-fair tid = omega (
    arith,
    count-sort_jobs tid [] gathered.jobs,
    gathered-IsCounted.counted tid,
    gathered-IsCounted.within tid,
  )

  -- Every planned job is for a listed program that is enabled, verified and currently authorized,
  -- has no full run under way or just cancelled, and is due: the first full run alone for a program
  -- that never completed one, an enabled module on its cadence for any other.
  pub plan-IsJustified :
      (j : Job) → In j (plan w max_per_tenant now) → IsJustified w max_per_tenant now j
  unfolding plan gathered
  plan-IsJustified j m = elim (In-sort_jobs j [] gathered.jobs m) [
    | inl k ↦ elim k [ ]
    | inr k ↦ All-In (IsJustified w max_per_tenant now) gathered.jobs gathered-IsJustified k
  ]

  -- The jobs stand in the order of their priority, and each tenant has as many of them as the loop
  -- over the programs has gathered.
  pub plan-IsSorted :
      IsSorted (plan w max_per_tenant now)
      × ((tid : String)
          → count tid (plan w max_per_tenant now)
            ≡ count tid (visit_all w max_per_tenant now nothing w.programs).jobs)
  unfolding plan count gathered
  plan-IsSorted = (
    sort_jobs-IsSorted [] gathered.jobs tt,
    λ tid. omega (arith, count-sort_jobs tid [] gathered.jobs),
  )
