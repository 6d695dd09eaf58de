-- ===== src/Signals/Counts.antt =====
-- core/signal.py: how the counts of a summary stand to each other.
use exact_surface.Prelude.{
  ℕ, ◌+◌, ◌≤◌, String, ◌≡◌, refl, subst, Option, none, some, List, [], ◌∷◌, length, arith, inl, inr,
  ◌==◌, Dict, get, put, string_eq, Bool-cases,
}
use exact_surface.Signals.{
  FindingDoc, Summary, bump, count, count_all, nothing_counted, summarize_findings,
}

-- The sum of the values.
pub sum_of : Dict String ℕ → ℕ
sum_of [] = 0
sum_of ((k, n) ∷ d) = n + sum_of d

abbrev number_of : Option ℕ → ℕ
number_of o = elim o [ none ↦ 0 | some n ↦ n ]

sum_of-put :
    (k : String) (v : ℕ) (d : Dict String ℕ)
    → sum_of (put k v d) + number_of (get k d) ≡ sum_of d + v
unfolding sum_of get put
sum_of-put k v [] = omega arith
sum_of-put k v ((j, n) ∷ d) = elim (Bool-cases (j == k)) [
  | inl t ↦ rw (t, get, put) (omega arith)
  | inr f ↦ rw (f, get, put) (omega (arith, sum_of-put k v d))
]

sum_of-bump : (k : String) (d : Dict String ℕ) → sum_of (bump k d) ≡ sum_of d + 1
sum_of-bump k d = omega (arith, sum_of-put k (number_of (get k d) + 1) d)

-- What holds of a summary of so many findings.
pub record IsTally (total : ℕ) (s : Summary) : Type 0 where
  pub split : s.actionable + s.informational ≤ total
  pub judged : s.false_positives ≤ s.decided
  pub within : (s.decided ≤ total) × (s.new ≤ total)
  pub severities : sum_of s.by_severity ≡ total
  pub states : sum_of s.by_state ≡ total

count-IsTally : (f : FindingDoc) (n : ℕ) (s : Summary) → IsTally n s → IsTally (n + 1) (count f s)
unfolding count
count-IsTally f n s h = record {
  split = ground (arith, h.split);
  judged = ground (arith, h.judged);
  within = ground (arith, h.within);
  severities = omega (arith, sum_of-bump f.severity s.by_severity, h.severities);
  states = omega (arith, sum_of-bump f.state s.by_state, h.states);
}

count_all-IsTally :
    (fs : List FindingDoc) (n : ℕ) (s : Summary)
    → IsTally n s
    → IsTally (n + length fs) (count_all fs s)
unfolding count_all
count_all-IsTally [] n s h = subst (λ m. IsTally m s) (omega arith) h
count_all-IsTally (f ∷ fs) n s h =
    subst (λ m. IsTally m (count_all fs (count f s))) (omega arith)
      (count_all-IsTally fs (n + 1) (count f s) (count-IsTally f n s h))

-- In a summary every finding is counted once by its severity and once by its state, none is both actionable and
-- informational, and the false positives are among the decided ones.
pub summarize_findings-IsTally :
    (findings : List FindingDoc) → IsTally (length findings) (summarize_findings findings)
unfolding summarize_findings sum_of
summarize_findings-IsTally findings =
    subst (λ m. IsTally m (summarize_findings findings)) (omega arith)
      (count_all-IsTally findings 0 nothing_counted (record {
        split = omega arith;
        judged = omega arith;
        within = (omega arith, omega arith);
        severities = refl;
        states = refl;
      }))
