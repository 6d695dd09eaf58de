-- ===== src/Correlator/Live.antt =====
-- modules/intelligence/correlator.py: which findings count.
use exact_surface.Prelude.{
  ◌≡◌, refl, ap, sym, ◌∙◌, Bool, not, List, [], ◌∷◌, keep, contains, string_eq, Bool-cases, inl,
  inr,
}
use exact_surface.Scope.Host.{Text}
use exact_surface.Correlator.{
  Asset, Found, Secret, Leak, CveMatch, Port, Tally, suppressed_states, ephemeral, ip_to_host,
  fp_to_host, add_finding, add_findings, boost, add_ports, add_cve_matches, add_leaks, add_secrets,
  no_tally, tally, sort_issues, issues_of, in_scope, correlate,
}

abbrev pub is_live : Found → Bool
is_live f = not (contains f.state suppressed_states)

add_findings-keep :
    (url_host : Text → Text) (fs : List Found) (t : Tally)
    → add_findings url_host fs t ≡ add_findings url_host (keep is_live fs) t
unfolding add_findings add_finding
add_findings-keep url_host [] t = refl
add_findings-keep url_host (f ∷ fs) t = elim (Bool-cases (contains f.state suppressed_states)) [
  | inl s ↦
      let idle : add_finding url_host f t ≡ t = rw (s, add_finding) refl in
      let gone : keep is_live (f ∷ fs) ≡ keep is_live fs = rw s refl in
      ap (add_findings url_host fs) idle
      ∙ add_findings-keep url_host fs t
      ∙ sym (ap (λ l. add_findings url_host l t) gone)
  | inr l ↦
      let kept : keep is_live (f ∷ fs) ≡ f ∷ keep is_live fs = rw l refl in
      add_findings-keep url_host fs (add_finding url_host f t)
      ∙ sym (ap (λ m. add_findings url_host m t) kept)
]

-- A finding that was marked as false positive or resolved has no part in any issue: the report is the one without
-- it.
pub correlate-keep :
    (url_host : Text → Text) (assets : List Asset) (findings : List Found) (secrets : List Secret)
    (leaks : List Leak) (cve_matches : List CveMatch) (ports : List Port)
    → correlate url_host assets findings secrets leaks cve_matches ports
      ≡ correlate url_host assets (keep is_live findings) secrets leaks cve_matches ports
unfolding correlate tally
correlate-keep url_host assets findings secrets leaks cve_matches ports =
    ap
      (λ u.
        let t = boost (ephemeral assets) (
          add_ports (ip_to_host assets []) ports (
            add_cve_matches (fp_to_host assets []) cve_matches
              (add_leaks url_host leaks (add_secrets url_host secrets u)))) in
        sort_issues (issues_of t (in_scope assets) t.score))
      (add_findings-keep url_host findings no_tally)
