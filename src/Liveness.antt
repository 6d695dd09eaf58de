-- ===== src/Liveness.antt =====
-- core/liveness.py: when a record that was not seen again counts as gone. A `datetime` is in seconds,
-- and a missing one is none.
pub mod Proof
use exact_surface.Prelude.{
  ℕ, ◌<◌, String, Bool, true, false, not, ◌&&◌, Option, none, some, List, [], ◌∷◌, map, ltb, leb,
  if◌then◌else◌, ◌==◌, Dict, get, put, string_eq,
}

abbrev pub endpoint_source_phase : Dict String String
endpoint_source_phase =
    ("probe", "probe")
    ∷ ("crawl", "crawl")
    ∷ ("katana", "crawl")
    ∷ ("gau", "crawl")
    ∷ ("wayback", "crawl")
    ∷ ("feroxbuster", "content_discovery")
    ∷ ("ffuf", "content_discovery")
    ∷ []

abbrev pub finding_module_phase : Dict String String
finding_module_phase =
    ("nuclei", "scan")
    ∷ ("tlsx", "tls")
    ∷ ("dork", "dork")
    ∷ ("takeover", "takeover")
    ∷ ("domain_intel", "domain_intel")
    ∷ ("js_mine", "js_mine")
    ∷ ("http_misconfig", "http_misconfig")
    ∷ ("api_surface", "api_surface")
    ∷ ("param_discovery", "param_discovery")
    ∷ ("broken_links", "broken_links")
    ∷ ("supply_chain", "supply_chain")
    ∷ ("typosquat", "typosquat")
    ∷ ("cloud_assets", "cloud_assets")
    ∷ ("cloud_buckets", "cloud_buckets")
    ∷ []

pub record Stage : Type 0 where
  pub name : Option String
  pub status : String
  pub started_at : Option ℕ

pub record Run : Type 0 where
  pub targets : List String
  pub pipeline : Option String
  pub status : String
  pub started_at : Option ℕ
  pub stages : List Stage

-- `a or b`
abbrev pub or_time : Option ℕ → Option ℕ → Option ℕ
or_time none b = b
or_time (some t) b = some t

-- `cur is None or w > cur`, and the same test in `annotate_gone`
abbrev pub later : Option ℕ → ℕ → Bool
later none w = true
later (some cur) w = ltb cur w

unfoldable pub bump : Dict String ℕ → Option String → Option ℕ → Dict String ℕ
bump refs none when = refs
bump refs (some phase) none = refs
bump refs (some phase) (some w) =
    if phase == "" then refs else if later (get phase refs) w then put phase w refs else refs

unfoldable pub bump_stages : Dict String ℕ → Option ℕ → List Stage → Dict String ℕ
unfolding bump
bump_stages refs started [] = refs
bump_stages refs started (st ∷ rest) =
    let one =
      if st.status == "success" then bump refs st.name (or_time st.started_at started) else refs in
    bump_stages one started rest

-- r.get("pipeline") == "full"
abbrev pub is_full : Option String → Bool
is_full none = false
is_full (some p) = p == "full"

abbrev pub is_scoped : List String → Bool
is_scoped [] = false
is_scoped (t ∷ ts) = true

unfoldable pub bump_run : Dict String ℕ → Run → Dict String ℕ
unfolding bump_stages
bump_run refs r =
    if is_scoped r.targets
    then refs
    else if is_full r.pipeline
    then bump_stages refs r.started_at r.stages
    else if r.status == "success"
    then bump refs r.pipeline r.started_at
    else refs

unfoldable pub bump_runs : Dict String ℕ → List Run → Dict String ℕ
unfolding bump_run
bump_runs refs [] = refs
bump_runs refs (r ∷ rest) = bump_runs (bump_run refs r) rest

unfoldable pub phase_reference_starts : List Run → Dict String ℕ
unfolding bump_runs
phase_reference_starts runs = bump_runs [] runs

-- The fields of a record that the test reads, and the one that it writes; `origin` is the source of an
-- endpoint and the module of a finding.
pub record Doc : Type 0 where
  pub origin : String
  pub last_seen : Option ℕ
  pub gone : Bool

unfoldable pub endpoint_phase : Doc → Option String
endpoint_phase d = get d.origin endpoint_source_phase

unfoldable pub finding_phase : Doc → Option String
finding_phase d = get d.origin finding_module_phase

-- ref and ls and pmax and ref <= pmax and ls < ref
unfoldable pub overtaken : Option ℕ → Option ℕ → Option ℕ → Bool
overtaken (some ref) (some pmax) (some ls) = leb ref pmax && ltb ls ref
overtaken none pmax ls = false
overtaken (some ref) none ls = false
overtaken (some ref) (some pmax) none = false

unfoldable pub is_gone : Dict String ℕ → Dict String ℕ → Doc → Option String → Bool
unfolding overtaken
is_gone refs phase_max d none = false
is_gone refs phase_max d (some ph) =
    if ph == "" then false else overtaken (get ph refs) (get ph phase_max) d.last_seen

module _ (phase_of : Doc → Option String) where
  -- The first loop.
  unfoldable pub freshest : Dict String ℕ → List Doc → Dict String ℕ
  unfolding bump
  freshest phase_max [] = phase_max
  freshest phase_max (d ∷ rest) = freshest (bump phase_max (phase_of d) d.last_seen) rest

  unfoldable pub annotate_gone : List Doc → Dict String ℕ → List Doc
  unfolding freshest is_gone
  annotate_gone docs refs =
      let phase_max = freshest [] docs in
      map
        (λ d. record {
          origin = d.origin;
          last_seen = d.last_seen;
          gone = is_gone refs phase_max d (phase_of d);
        })
        docs
