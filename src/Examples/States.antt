-- ===== src/Examples/States.antt =====
-- Findings, severities and module choices.
use exact_surface.Prelude.{◌+◌, ◌≤◌, ◌≡◌, false, some, [], ◌∷◌}
use exact_surface.Lifecycle.{new, resolved}
use exact_surface.Lifecycle.Alerts.{
  triage, reobserve, alerts, resolutions, one_if, alerts-le-resolutions,
}
use exact_surface.Modules.{ModuleState, resolve}
use exact_surface.Modules.Registry.{modules}
use exact_surface.Modules.Choice.{IsAnswer, resolve-IsAnswer}

resolve-IsAnswer_example :
    (r : ModuleState) × (resolve modules ("github_osint" ∷ []) ("crawl" ∷ []) ≡ some r)
    × IsAnswer modules ("github_osint" ∷ []) ("crawl" ∷ []) r
resolve-IsAnswer_example = resolve-IsAnswer modules ("github_osint" ∷ []) ("crawl" ∷ [])

-- What the choice comes to.
abbrev chosen :
    (r : ModuleState) × (resolve modules ("github_osint" ∷ []) ("crawl" ∷ []) ≡ some r)
    × IsAnswer modules ("github_osint" ∷ []) ("crawl" ∷ []) r
chosen = resolve-IsAnswer modules ("github_osint" ∷ []) ("crawl" ∷ [])

alerts-le-resolutions_example :
    alerts new (triage resolved ∷ reobserve ∷ reobserve ∷ [])
    ≤ one_if false + resolutions new (triage resolved ∷ reobserve ∷ reobserve ∷ [])
alerts-le-resolutions_example =
    alerts-le-resolutions new (triage resolved ∷ reobserve ∷ reobserve ∷ [])
