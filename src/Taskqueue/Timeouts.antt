-- ===== src/Taskqueue/Timeouts.antt =====
-- taskqueue/timeouts.py: the longest time that each stage may run, in seconds. A value that a user
-- stores is what `int(val)` makes of it.
pub mod Limits
use exact_surface.Prelude.{
  ℕ, zero, max, min, String, Bool, List, [], ◌∷◌, if◌then◌else◌, Dict, put, update, contains, keys,
  string_eq,
}
use exact_surface.Taskqueue.Cadence.{Raw, bad, num, minus}

abbrev pub default_timeouts_seconds : Dict String ℕ
default_timeouts_seconds =
    ("domain_intel", 180)
    ∷ ("ingest", 300)
    ∷ ("uncover", 300)
    ∷ ("probe", 300)
    ∷ ("tls", 300)
    ∷ ("takeover", 300)
    ∷ ("crawl", 600)
    ∷ ("content_discovery", 600)
    ∷ ("js_mine", 600)
    ∷ ("broken_links", 600)
    ∷ ("port_scan", 600)
    ∷ ("service_scan", 600)
    ∷ ("scan", 3600)
    ∷ ("secrets", 600)
    ∷ ("cve_watch", 120)
    ∷ ("github_osint", 300)
    ∷ ("cloud_buckets", 300)
    ∷ ("nuclei_watch", 120)
    ∷ ("dork", 300)
    ∷ ("api_surface", 900)
    ∷ ("http_misconfig", 600)
    ∷ ("supply_chain", 600)
    ∷ ("typosquat", 600)
    ∷ ("reverse_dns", 900)
    ∷ ("param_discovery", 1200)
    ∷ ("cloud_assets", 600)
    ∷ ("correlate", 120)
    ∷ ("notify", 120)
    ∷ []

abbrev pub configurable_stages : List String
configurable_stages = keys default_timeouts_seconds

abbrev pub min_timeout_seconds : ℕ
min_timeout_seconds = 30

abbrev pub max_timeout_seconds : ℕ
max_timeout_seconds = 21600

abbrev pub clamp : ℕ → ℕ
clamp seconds = max min_timeout_seconds (min seconds max_timeout_seconds)

-- What the loop stores for a known stage: nothing where `int` raises, and the floor for a negative
-- number.
unfoldable pub store : String → Raw → Dict String ℕ → Dict String ℕ
store key bad out = out
store key (num n) out = put key (clamp n) out
store key (minus n) out = put key (clamp 0) out

unfoldable pub sanitize_from : Dict String ℕ → Dict String Raw → Dict String ℕ
unfolding store
sanitize_from out [] = out
sanitize_from out ((key, val) ∷ rest) =
    sanitize_from (if contains key configurable_stages then store key val out else out) rest

-- No overrides are the empty dict.
unfoldable pub sanitize_timeout_overrides : Dict String Raw → Dict String ℕ
unfolding sanitize_from
sanitize_timeout_overrides overrides = sanitize_from [] overrides

unfoldable pub effective_timeouts : Dict String Raw → Dict String Raw → Dict String ℕ
unfolding sanitize_timeout_overrides
effective_timeouts program_overrides tenant_defaults =
    update (update default_timeouts_seconds (sanitize_timeout_overrides tenant_defaults))
      (sanitize_timeout_overrides program_overrides)
