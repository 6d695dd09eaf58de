-- ===== src/Taskqueue/Cadence.antt =====
-- taskqueue/cadence.py: how often each pipeline runs. A value that a user stores is what `int(val)`
-- makes of it; times are whole seconds.
pub mod Floors
use exact_surface.Prelude.{
  ℕ, zero, suc, ◌+◌, max, String, Bool, true, false, not, Option, none, some, List, [], ◌∷◌, leb,
  if◌then◌else◌, Dict, get, put, update, contains, keys, string_eq,
}

abbrev pub default_cadence_seconds : Dict String ℕ
default_cadence_seconds =
    ("notify", 60)
    ∷ ("cve_watch", 900)
    ∷ ("probe", 7200)
    ∷ ("ingest", 21600)
    ∷ ("scan", 43200)
    ∷ ("crawl", 86400)
    ∷ ("takeover", 86400)
    ∷ ("port_scan", 86400)
    ∷ ("content_discovery", 86400)
    ∷ ("secrets", 86400)
    ∷ ("github_osint", 86400)
    ∷ ("domain_intel", 43200)
    ∷ ("js_mine", 86400)
    ∷ ("broken_links", 86400)
    ∷ ("tls", 86400)
    ∷ ("uncover", 86400)
    ∷ ("service_scan", 86400)
    ∷ ("cloud_buckets", 86400)
    ∷ ("nuclei_watch", 43200)
    ∷ ("dork", 86400)
    ∷ ("api_surface", 86400)
    ∷ ("http_misconfig", 86400)
    ∷ ("supply_chain", 86400)
    ∷ ("typosquat", 86400)
    ∷ ("reverse_dns", 86400)
    ∷ ("param_discovery", 86400)
    ∷ ("cloud_assets", 43200)
    ∷ []

abbrev pub configurable_pipelines : List String
configurable_pipelines = keys default_cadence_seconds

abbrev pub min_interval_seconds : ℕ
min_interval_seconds = 300

abbrev pub non_scanning : List String
non_scanning = "notify" ∷ []

-- `int(val)`: a TypeError or ValueError, a number, or a negative number, `minus n` for -(n + 1). An
-- infinite float, whose OverflowError is not caught, is no `Raw`.
pub data Raw : Type 0 where
  bad : Raw
  num : ℕ → Raw
  minus : ℕ → Raw

-- `floor or 0`
abbrev pub or_zero : Option ℕ → ℕ
or_zero none = 0
or_zero (some n) = n

module _ (floor : Option ℕ) where
  abbrev pub lowest : String → ℕ
  lowest key = if contains key non_scanning then 0 else max min_interval_seconds (or_zero floor)

  -- What the body of the loop stores for a known key.
  unfoldable pub accept : String → Raw → Option ℕ
  accept key bad = none
  accept key (minus n) = none
  accept key (num zero) = none
  accept key (num (suc n)) = some (max (suc n) (lowest key))

  abbrev pub store_if : String → Option ℕ → Dict String ℕ → Dict String ℕ
  store_if key none out = out
  store_if key (some v) out = put key v out

  -- The body of the loop.
  unfoldable pub sanitize_step : Dict String ℕ → String → Raw → Dict String ℕ
  unfolding accept
  sanitize_step out key val =
      if contains key configurable_pipelines then store_if key (accept key val) out else out

  unfoldable pub sanitize_from : Dict String ℕ → Dict String Raw → Dict String ℕ
  unfolding sanitize_step
  sanitize_from out [] = out
  sanitize_from out ((key, val) ∷ rest) = sanitize_from (sanitize_step out key val) rest

  -- `sanitize_overrides`; no overrides are the empty dict.
  unfoldable pub sanitize_overrides : Dict String Raw → Dict String ℕ
  unfolding sanitize_from
  sanitize_overrides overrides = sanitize_from [] overrides

  -- The comprehension over the defaults.
  unfoldable pub floored : Dict String ℕ → Dict String ℕ
  floored [] = []
  floored ((k, v) ∷ d) =
      (k, if contains k non_scanning then v else max v (or_zero floor)) ∷ floored d

  -- `effective_cadence`
  unfoldable pub effective_cadence : Dict String Raw → Dict String Raw → Dict String ℕ
  unfolding sanitize_overrides floored
  effective_cadence program_overrides tenant_defaults =
      update (update (floored default_cadence_seconds) (sanitize_overrides tenant_defaults))
        (sanitize_overrides program_overrides)

-- `(now - last_run) >= interval`, for a pipeline that has run.
unfoldable pub is_due : Option ℕ → ℕ → ℕ → Bool
is_due none now interval = true
is_due (some last) now interval = leb (last + interval) now

unfoldable pub next_due : Option ℕ → ℕ → Option ℕ
next_due none interval = none
next_due (some last) interval = some (last + interval)
