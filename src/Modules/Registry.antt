-- ===== src/Modules/Registry.antt =====
-- core/modules.py: the registered modules, in execution order. The texts for the user interface are
-- left out.
use exact_surface.Prelude.{String, Bool, true, false, List, [], ◌∷◌}
use exact_surface.Modules.{ModuleSpec}

-- A row of `MODULES`: name, requires, default_enabled, essential, schedulable.
abbrev spec : String → List String → Bool → Bool → Bool → ModuleSpec
spec name requires default_enabled essential schedulable = record {
  name = name;
  requires = requires;
  default_enabled = default_enabled;
  essential = essential;
  schedulable = schedulable;
}

abbrev pub modules : List ModuleSpec
modules =
    spec "domain_intel" ([]) true false true
    ∷ spec "ingest" ([]) true true true
    ∷ spec "cloud_assets" ([]) false false true
    ∷ spec "uncover" ([]) false false true
    ∷ spec "reverse_dns" ("ingest" ∷ []) false false true
    ∷ spec "probe" ("ingest" ∷ []) true true true
    ∷ spec "tls" ("ingest" ∷ []) false false true
    ∷ spec "takeover" ("ingest" ∷ []) true false true
    ∷ spec "crawl" ("probe" ∷ []) true false true
    ∷ spec "content_discovery" ("probe" ∷ []) true false true
    ∷ spec "js_mine" ("crawl" ∷ []) true false true
    ∷ spec "api_surface" ("probe" ∷ []) true false true
    ∷ spec "http_misconfig" ("probe" ∷ []) true false true
    ∷ spec "param_discovery" ("crawl" ∷ []) false false true
    ∷ spec "broken_links" ("crawl" ∷ []) true false true
    ∷ spec "port_scan" ("ingest" ∷ []) true false true
    ∷ spec "service_scan" ("port_scan" ∷ []) false false true
    ∷ spec "scan" ("probe" ∷ []) true false true
    ∷ spec "secrets" ("probe" ∷ []) true false true
    ∷ spec "cve_watch" ("probe" ∷ []) true false true
    ∷ spec "github_osint" ([]) true false true
    ∷ spec "cloud_buckets" ([]) false false true
    ∷ spec "nuclei_watch" ("probe" ∷ []) false false true
    ∷ spec "dork" ([]) false false true
    ∷ spec "supply_chain" ("js_mine" ∷ []) true false true
    ∷ spec "typosquat" ([]) false false true
    ∷ spec "correlate" ([]) true false false
    ∷ spec "notify" ([]) true false true
    ∷ []
