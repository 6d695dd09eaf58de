-- ===== src/Liveness/Proof.antt =====
-- core/liveness.py: a record is gone only on the evidence of runs that covered everything.
use exact_surface.Prelude.{
  ℕ, ◌<◌, ◌≤◌, String, ◌≡◌, refl, sym, ap, ◌∙◌, true, false, Option, none, some, List, [], ◌∷◌,
  ◌==◌, arith, inl, inr, Dict, get, string_eq, Bool-cases, In, here, there, In-map, Entries,
  Entries-put, Entries-get,
}
use exact_surface.Liveness.{
  Stage, Run, or_time, later, bump, bump_stages, is_full, is_scoped, bump_run, bump_runs,
  phase_reference_starts, Doc, freshest, overtaken, is_gone, annotate_gone,
}

-- A start that counts: of a successful stage of a full run, or of a successful run of the phase alone;
-- no run that was aimed at targets counts.
pub data Evidence (runs : List Run) (phase : String) (t : ℕ) : Type 0 where
  stage :
      (r : Run) (st : Stage)
      → In r runs
      → is_scoped r.targets ≡ false
      → r.pipeline ≡ some "full"
      → In st r.stages
      → st.status ≡ "success"
      → st.name ≡ some phase
      → or_time st.started_at r.started_at ≡ some t
      → Evidence runs phase t
  alone :
      (r : Run)
      → In r runs
      → is_scoped r.targets ≡ false
      → r.status ≡ "success"
      → r.pipeline ≡ some phase
      → r.started_at ≡ some t
      → Evidence runs phase t

bump_rule :
    (P : String → ℕ → Type 0) (refs : Dict String ℕ) (phase : Option String) (when : Option ℕ)
    → ((p : String) (w : ℕ) → phase ≡ some p → when ≡ some w → P p w)
    → Entries P refs
    → Entries P (bump refs phase when)
unfolding bump
bump_rule P refs none when f h = h
bump_rule P refs (some p) none f h = h
bump_rule P refs (some p) (some w) f h = elim (Bool-cases (p == "")) [
  | inl t ↦ rw t h
  | inr g ↦ elim (Bool-cases (later (get p refs) w)) [
    | inl l ↦ rw (g, l) (Entries-put P p w refs (f p w refl refl) h)
    | inr n ↦ rw (g, n) h
  ]
]

is_full-full : (p : Option String) → is_full p ≡ true → p ≡ some "full"
is_full-full none h = cc
is_full-full (some p) h = ap (λ x. some x) ((string_eq.beq_iff p "full").0 h)

bump_stages_rule :
    (P : String → ℕ → Type 0) (refs : Dict String ℕ) (started : Option ℕ) (stages : List Stage)
    → ((st : Stage) (p : String) (w : ℕ)
        → In st stages
        → st.status ≡ "success"
        → st.name ≡ some p
        → or_time st.started_at started ≡ some w
        → P p w)
    → Entries P refs
    → Entries P (bump_stages refs started stages)
unfolding bump_stages
bump_stages_rule P refs started [] f h = h
bump_stages_rule P refs started (st ∷ rest) f h = elim (Bool-cases (st.status == "success")) [
  | inl t ↦ rw t (
      bump_stages_rule P (bump refs st.name (or_time st.started_at started)) started rest
        (λ s p w m. f s p w (there m))
        (bump_rule P refs st.name _
          (λ p w. f st p w (here refl) ((string_eq.beq_iff st.status "success").0 t)) h))
  | inr g ↦ rw g (bump_stages_rule P refs started rest (λ s p w m. f s p w (there m)) h)
]

bump_runs_rule :
    (all : List Run) (refs : Dict String ℕ) (runs : List Run)
    → ((r : Run) → In r runs → In r all)
    → Entries (Evidence all) refs
    → Entries (Evidence all) (bump_runs refs runs)
unfolding bump_runs bump_run
bump_runs_rule all refs [] sub h = h
bump_runs_rule all refs (r ∷ rest) sub h =
    bump_runs_rule all (bump_run refs r) rest (λ x m. sub x (there m))
      (elim (Bool-cases (is_scoped r.targets)) [
        | inl t ↦ rw (bump_run, t) h
        | inr wide ↦ elim (Bool-cases (is_full r.pipeline)) [
          | inl t ↦
              rw (bump_run, wide, t)
                (bump_stages_rule (Evidence all) refs r.started_at r.stages
                  (λ st p w m ok name at.
                    stage r st (sub r (here refl)) wide (is_full-full r.pipeline t) m ok name at)
                  h)
          | inr g ↦ elim (Bool-cases (r.status == "success")) [
            | inl ok ↦
                rw (bump_run, wide, g, ok)
                  (bump_rule (Evidence all) refs r.pipeline r.started_at
                    (λ p w name at.
                      alone r (sub r (here refl)) wide ((string_eq.beq_iff r.status "success").0 ok)
                        name at)
                    h)
            | inr bad ↦ rw (bump_run, wide, g, bad) h
          ]
        ]
      ])

-- Somebody of the phase was seen at that time.
abbrev pub Seen : (Doc → Option String) → List Doc → String → ℕ → Type 0
Seen phase_of docs phase t =
    (d : Doc) × In d docs × (phase_of d ≡ some phase) × (d.last_seen ≡ some t)

freshest_rule :
    (phase_of : Doc → Option String) (all : List Doc) (phase_max : Dict String ℕ) (docs : List Doc)
    → ((d : Doc) → In d docs → In d all)
    → Entries (Seen phase_of all) phase_max
    → Entries (Seen phase_of all) (freshest phase_of phase_max docs)
unfolding freshest
freshest_rule phase_of all phase_max [] sub h = h
freshest_rule phase_of all phase_max (d ∷ rest) sub h =
    freshest_rule phase_of all (bump phase_max (phase_of d) d.last_seen) rest
      (λ x m. sub x (there m))
      (bump_rule (Seen phase_of all) phase_max (phase_of d) d.last_seen
        (λ p w name at. (d, sub d (here refl), name, at)) h)

overtaken-cases :
    (ref pmax ls : Option ℕ)
    → overtaken ref pmax ls ≡ true
    → (r : ℕ) × (m : ℕ) × (t : ℕ) × (ref ≡ some r)
      × (pmax ≡ some m)
      × (ls ≡ some t)
      × (r ≤ m)
      × (t < r)
unfolding overtaken
overtaken-cases (some r) (some m) (some t) h =
    (r, m, t, refl, refl, refl, ground arith, ground arith)
overtaken-cases none m t h = cc
overtaken-cases (some r) none t h = cc
overtaken-cases (some r) (some m) none h = cc

-- The proof that a record is gone.
pub record IsProven (runs : List Run) (phase_of : Doc → Option String) (docs : List Doc) (d : Doc)
    : Type 0 where
  pub phase : String
  pub ref : ℕ
  pub seen : ℕ
  pub peer : ℕ
  pub of_phase : phase_of d ≡ some phase
  pub evidence : Evidence runs phase ref
  pub last : d.last_seen ≡ some seen
  pub older : seen < ref
  pub peer_seen : Seen phase_of docs phase peer
  pub newer : ref ≤ peer

is_gone-IsProven :
    (runs : List Run) (phase_of : Doc → Option String) (docs : List Doc) (d : Doc)
    (o : Option String)
    → phase_of d ≡ o
    → is_gone (phase_reference_starts runs) (freshest phase_of [] docs) d o ≡ true
    → IsProven runs phase_of docs d
unfolding is_gone phase_reference_starts
is_gone-IsProven runs phase_of docs d none e h = cc
is_gone-IsProven runs phase_of docs d (some ph) e h = elim (Bool-cases (ph == "")) [
  | inl t ↦ cc (rw t at h)
  | inr g ↦
      let (r, m, t, er, em, et, le, lt) = overtaken-cases _ _ _ (rw g at h) in
      record {
        phase = ph;
        ref = r;
        seen = t;
        peer = m;
        of_phase = e;
        evidence = Entries-get _ ph r _ (bump_runs_rule runs [] runs (λ x m. m) tt) er;
        last = et;
        older = lt;
        peer_seen = Entries-get _ ph m _ (freshest_rule phase_of docs [] docs (λ x m. m) tt) em;
        newer = le;
      }
]

-- A record is tagged as gone only if its phase has succeeded in a run that covered everything, the
-- record was last seen before the phase's stage of that run started (the run, where the stage has no
-- start of its own), and another record of the same phase was seen since.
pub annotate_gone-IsProven :
    (runs : List Run) (phase_of : Doc → Option String) (docs : List Doc) (tagged : Doc)
    → In tagged (annotate_gone phase_of docs (phase_reference_starts runs))
    → tagged.gone ≡ true
    → (d : Doc) × In d docs × (tagged.last_seen ≡ d.last_seen) × IsProven runs phase_of docs d
unfolding annotate_gone
annotate_gone-IsProven runs phase_of docs tagged m g =
    let r = In-map _ docs m in
    (
      r.0,
      r.1,
      ap (λ x. x.last_seen) r.2,
      is_gone-IsProven runs phase_of docs r.0 (phase_of r.0) refl (sym (ap (λ x. x.gone) r.2) ∙ g),
    )
