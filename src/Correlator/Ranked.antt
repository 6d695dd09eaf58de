-- ===== src/Correlator/Ranked.antt =====
-- modules/intelligence/correlator.py: what `correlate` returns.
use exact_surface.Prelude.{
  ℕ, ◌≤◌, ◌≡◌, true, false, List, [], ◌∷◌, length, arith, In, All, All-In, All-of_In, inl, inr,
  Dict, contains, contains→In, Entries, text_eq, string_eq, nat_eq, Bool-cases,
}
use exact_surface.Scope.Host.{Text}
use exact_surface.Correlator.{
  CorrelatedIssue, Asset, Found, Secret, Leak, CveMatch, Port, Tally, get_or, in_scope, issue_of,
  issues_of, ranks_below, insert_issue, sort_issues, no_tally, tally, correlate,
}
use exact_surface.Correlator.Counted.{IsCounted, add-IsCounted, tally-keeps}

-- An issue of the report.
pub record IsIssue (scope : List Text) (i : CorrelatedIssue) : Type 0 where
  pub owned : In i.host scope
  pub capped : i.risk_score ≤ 100
  pub chained : i.is_chain ≡ true → 2 ≤ length i.signals

-- Nothing ranks below what comes after it.
abbrev pub IsRanked : List CorrelatedIssue → Type 0
IsRanked [] = Unit
IsRanked (i ∷ is) = All (λ x. ranks_below i x ≡ false) is × IsRanked is

issues_of-IsIssue :
    (t : Tally) (scope : List Text) (d : Dict Text ℕ)
    → IsCounted t
    → Entries (λ host n. n ≤ 100) d
    → All (IsIssue scope) (issues_of t scope d)
unfolding issues_of issue_of
issues_of-IsIssue t scope [] h k = tt
issues_of-IsIssue t scope ((host, score) ∷ rest) h k = elim (Bool-cases (contains host scope)) [
  | inr f ↦ rw (f, issues_of) (issues_of-IsIssue t scope rest h k.1)
  | inl c ↦
      rw (c, issues_of)
        (
          record {
            owned = contains→In host scope c;
            capped = k.0;
            chained = λ q. ground (arith, q, h.backed host);
          },
          issues_of-IsIssue t scope rest h k.1,
        )
]

module _ (P : CorrelatedIssue → Type 0) where
  insert_issue-All :
      (i : CorrelatedIssue) (xs : List CorrelatedIssue) → P i → All P xs → All P (insert_issue i xs)
  unfolding insert_issue
  insert_issue-All i [] p h = (p, tt)
  insert_issue-All i (x ∷ xs) p h = elim (Bool-cases (ranks_below i x)) [
    | inl t ↦ rw (t, insert_issue) (h.0, insert_issue-All i xs p h.1)
    | inr f ↦ rw (f, insert_issue) (p, h)
  ]

  sort_issues-All : (xs : List CorrelatedIssue) → All P xs → All P (sort_issues xs)
  unfolding sort_issues
  sort_issues-All [] h = tt
  sort_issues-All (x ∷ xs) h = insert_issue-All x (sort_issues xs) h.0 (sort_issues-All xs h.1)

below_asym : (a b : CorrelatedIssue) → ranks_below a b ≡ true → ranks_below b a ≡ false
unfolding ranks_below
below_asym a b h = ground (arith, h)

below_trans :
    (a b c : CorrelatedIssue)
    → ranks_below a b ≡ false
    → ranks_below b c ≡ false
    → ranks_below a c ≡ false
unfolding ranks_below
below_trans a b c h k = ground (arith, h, k)

insert_issue-IsRanked :
    (i : CorrelatedIssue) (xs : List CorrelatedIssue) → IsRanked xs → IsRanked (insert_issue i xs)
unfolding insert_issue
insert_issue-IsRanked i [] h = (tt, tt)
insert_issue-IsRanked i (x ∷ xs) h = elim (Bool-cases (ranks_below i x)) [
  | inl t ↦
      rw (t, insert_issue)
        (
          insert_issue-All (λ y. ranks_below x y ≡ false) i xs (below_asym i x t) h.0,
          insert_issue-IsRanked i xs h.1,
        )
  | inr f ↦
      rw (f, insert_issue) ((f, All-of_In _ xs (λ y m. below_trans i x y f (All-In _ xs h.0 m))), h)
]

sort_issues-IsRanked : (xs : List CorrelatedIssue) → IsRanked (sort_issues xs)
unfolding sort_issues
sort_issues-IsRanked [] = tt
sort_issues-IsRanked (x ∷ xs) = insert_issue-IsRanked x (sort_issues xs) (sort_issues-IsRanked xs)

-- Every issue is for the name of a discovered asset, its score is at most 100, it is a chain only with two
-- signals or more, and the issues are ranked: chains first, and the higher score before the lower.
pub correlate-IsRanked :
    (url_host : Text → Text) (assets : List Asset) (findings : List Found) (secrets : List Secret)
    (leaks : List Leak) (cve_matches : List CveMatch) (ports : List Port)
    → All
        (IsIssue (in_scope assets))
        (correlate url_host assets findings secrets leaks cve_matches ports)
      × IsRanked (correlate url_host assets findings secrets leaks cve_matches ports)
unfolding correlate
correlate-IsRanked url_host assets findings secrets leaks cve_matches ports =
    let t = tally url_host assets findings secrets leaks cve_matches ports in
    let h =
      tally-keeps url_host IsCounted add-IsCounted assets findings secrets leaks cve_matches ports
        (record { capped = tt; backed = λ host. empty_lem host }) in
    (
      sort_issues-All (IsIssue (in_scope assets)) _
          (issues_of-IsIssue t (in_scope assets) t.score h h.capped),
      sort_issues-IsRanked (issues_of t (in_scope assets) t.score),
    )
  where
    empty_lem :
        (host : Text)
        → get_or 0 host no_tally.high_signal_count ≤ length (get_or [] host no_tally.signals)
    empty_lem host = ground arith
