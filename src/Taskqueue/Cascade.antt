-- ===== src/Taskqueue/Cascade.antt =====
-- taskqueue/cascade.py: the jobs that follow a phase which has found something new.
pub mod Chains
use exact_surface.Prelude.{
  ℕ, String, Bool, true, false, not, ◌&&◌, Option, none, some, List, [], ◌∷◌, ◌++◌, ltb,
  if◌then◌else◌, Dict, get, contains, string_eq,
}
use exact_surface.Taskqueue.Scheduler.{new_asset}

abbrev pub cascade : Dict String (List String)
cascade =
    ("ingest", "probe" ∷ [])
    ∷ ("probe", "crawl" ∷ "port_scan" ∷ [])
    ∷ ("crawl", "scan" ∷ "secrets" ∷ [])
    ∷ ("scan", "notify" ∷ [])
    ∷ ("secrets", "notify" ∷ [])
    ∷ []

-- `_PROGRAM_WIDE`
abbrev pub program_wide : List String
program_wide = "notify" ∷ []

-- The fields that are read of a result that is a dict.
pub record PhaseResult : Type 0 where
  pub skipped : Bool
  pub cascade_targets : List String
  pub new_count : ℕ

-- A job; its reason is "cascade:" and the phase before.
pub record Follow : Type 0 where
  pub tenant_id : String
  pub program_id : String
  pub pipeline : String
  pub targets : List String
  pub priority : ℕ
  pub after : String

-- tuple(dict.fromkeys(targets))
unfoldable pub unique : List String → List String → List String
unfolding contains
unique out [] = out
unique out (t ∷ ts) = unique (if contains t out then out else out ++ (t ∷ [])) ts

abbrev pub has_some : List String → Bool
has_some [] = false
has_some (t ∷ ts) = true

-- CASCADE.get(pipeline, ())
unfoldable pub downstream_of : String → List String
unfolding get
downstream_of pipeline = elim (get pipeline cascade) [ none ↦ [] | some names ↦ names ]

module _ (pipeline tenant_id program_id : String) (targets : List String) (has_new : Bool) where
  abbrev pub follow : String → List String → Follow
  follow next scope = record {
    tenant_id = tenant_id;
    program_id = program_id;
    pipeline = next;
    targets = scope;
    priority = new_asset;
    after = pipeline;
  }

  -- The loop over the downstream phases.
  unfoldable pub follow_all : List String → List Follow
  unfolding contains
  follow_all [] = []
  follow_all (next ∷ rest) =
      let more = follow_all rest in
      if contains next program_wide
      then if has_new then follow next [] ∷ more else more
      else if has_some targets
      then follow next targets ∷ more
      else more

-- `cascade_jobs`; `none` is a result that is no dict.
unfoldable pub cascade_jobs : String → Option PhaseResult → String → String → List Follow
unfolding downstream_of unique follow_all
cascade_jobs pipeline none tenant_id program_id = []
cascade_jobs pipeline (some r) tenant_id program_id =
    if r.skipped
    then []
    else follow_all pipeline tenant_id program_id (unique [] r.cascade_targets) (ltb 0 r.new_count)
        (downstream_of pipeline)
