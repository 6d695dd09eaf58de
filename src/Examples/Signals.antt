-- ===== src/Examples/Signals.antt =====
-- Two signals on one host of a program, a discovery that is followed, and a post to a host with an internal
-- address.
use exact_surface.Netguard.{guarded_post}
use exact_surface.Prelude.{
  ◌≡◌, refl, Bool, true, false, not, Option, some, List, [], ◌∷◌, keep, All, arith, here, length,
  ◌≤◌, ◌==◌, string_eq, contains, ◌⊎◌,
}
use exact_surface.Scope.Host.{Text}
use exact_surface.Scope.Address.{Address, cgnat_network, in_network}
use exact_surface.Scope.Engine.{hard_deny, classify_ip}
use exact_surface.Correlator.{Asset, Found, Secret, in_scope, correlate}
use exact_surface.Correlator.Ranked.{IsIssue, IsRanked, correlate-IsRanked}
use exact_surface.Correlator.Live.{is_live, correlate-keep}
use exact_surface.Netguard.Public.{guarded_post-All}
use exact_surface.Taskqueue.Cascade.{PhaseResult, Follow, has_some, program_wide, cascade_jobs}
use exact_surface.Taskqueue.Cascade.Chains.{Chain, done, next, Chain-length}
use exact_surface.Examples.Hosts.{engine}

abbrev site : Text
site = b'a' ∷ b'.' ∷ b'b' ∷ []

abbrev assets : List Asset
assets = record { hostname = site; resolved_ips = []; fingerprint = "f"; is_ephemeral = true } ∷ []

abbrev findings : List Found
findings =
    record { state = "new"; severity = "critical"; location = site; check_id = "c1" }
    ∷ record { state = "resolved"; severity = "critical"; location = site; check_id = "c2" }
    ∷ []

abbrev secrets : List Secret
secrets = record { severity = "high"; source_locator = site; kind = "key" } ∷ []

abbrev plain_host : Text → Text
plain_host s = s

correlate-IsRanked_example :
    All (IsIssue (in_scope assets)) (correlate plain_host assets findings secrets [] [] [])
    × IsRanked (correlate plain_host assets findings secrets [] [] [])
correlate-IsRanked_example = correlate-IsRanked plain_host assets findings secrets [] [] []

correlate-keep_example :
    correlate plain_host assets findings secrets [] [] []
    ≡ correlate plain_host assets (keep is_live findings) secrets [] [] []
correlate-keep_example = correlate-keep plain_host assets findings secrets [] [] []

abbrev found_host : Option PhaseResult
found_host = some (record { skipped = false; cascade_targets = "a.b" ∷ "a.b" ∷ []; new_count = 1 })

abbrev probe_job : Follow
probe_job = record {
  tenant_id = "t";
  program_id = "p";
  pipeline = "probe";
  targets = "a.b" ∷ [];
  priority = 10;
  after = "ingest";
}

followed : Chain "ingest" (probe_job ∷ [])
unfolding cascade_jobs
followed = next found_host "t" "p" (here refl) done

Chain-length_example :
    All
      (λ j. (has_some j.targets ≡ true) ⊎ (contains j.pipeline program_wide ≡ true))
      (probe_job ∷ [])
    × (length (probe_job ∷ []) ≤ 4)
Chain-length_example = Chain-length "ingest" (probe_job ∷ []) followed

abbrev is_global : Address → Bool
is_global a = not (in_network a cgnat_network)

cgnat_private : (a : Address) → in_network a cgnat_network ≡ true → is_global a ≡ false
cgnat_private a h = ground (arith, h)

guarded_post-All_example :
    All (λ ip. hard_deny (classify_ip engine ip) ≡ false) ("198.51.100.7" ∷ [])
unfolding guarded_post in_network
guarded_post-All_example =
    guarded_post-All engine is_global cgnat_private (λ host. host == "198.51.100.7")
      (λ host. "10.0.0.1" ∷ "198.51.100.7" ∷ []) "a.b" ("198.51.100.7" ∷ []) (λ t. cc) refl
