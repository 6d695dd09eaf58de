-- ===== src/Signals.antt =====
-- core/signal.py: the summary of the findings of a program. The false positive rate stays a pair of counts.
pub mod Counts
use exact_surface.Prelude.{
  ℕ, zero, suc, ◌+◌, String, Bool, true, false, not, ◌&&◌, Option, none, some, List, [], ◌∷◌, map,
  leb, ltb, length, if◌then◌else◌, Dict, get, put, contains, string_eq,
}
use exact_surface.Severity.{Severity, info, medium, rank, parse}
use exact_surface.Lifecycle.{
  FindingState, confirmed, false_positive, accepted_risk, resolved, open_states, value,
}

abbrev pub actionable_floor : Severity
actionable_floor = medium

abbrev pub decided_states : List FindingState
decided_states = false_positive ∷ confirmed ∷ accepted_risk ∷ resolved ∷ []

-- `_OPEN_VALUES` and `_DECIDED_VALUES`
abbrev pub open_values : List String
open_values = map value open_states

abbrev pub decided_values : List String
decided_values = map value decided_states

-- The fields of a finding that are read, with the defaults of `get` filled in.
pub record FindingDoc : Type 0 where
  pub severity : String
  pub state : String
  pub is_new : Bool

unfoldable pub severity_rank : String → ℕ
unfolding parse rank
severity_rank value = elim (parse value) [ none ↦ rank info | some s ↦ rank s ]

unfoldable pub is_actionable : FindingDoc → Bool
unfolding severity_rank rank contains
is_actionable f =
    contains f.state open_values && leb (rank actionable_floor) (severity_rank f.severity)

pub record Summary : Type 0 where
  pub new : ℕ
  pub actionable : ℕ
  pub informational : ℕ
  pub by_severity : Dict String ℕ
  pub by_state : Dict String ℕ
  pub decided : ℕ
  pub false_positives : ℕ

-- n += 1, if it holds
abbrev pub plus_if : Bool → ℕ → ℕ
plus_if b n = if b then n + 1 else n

-- d[k] = d.get(k, 0) + 1
abbrev pub bump : String → Dict String ℕ → Dict String ℕ
bump k d = put k ((elim (get k d) [ none ↦ 0 | some n ↦ n ]) + 1) d

-- The body of the loop.
unfoldable pub count : FindingDoc → Summary → Summary
unfolding is_actionable severity_rank rank contains get put
count f s = record {
  new = plus_if f.is_new s.new;
  actionable = plus_if (is_actionable f) s.actionable;
  informational =
      plus_if (not (is_actionable f) && ltb (severity_rank f.severity) (rank actionable_floor))
        s.informational;
  by_severity = bump f.severity s.by_severity;
  by_state = bump f.state s.by_state;
  decided = plus_if (contains f.state decided_values) s.decided;
  false_positives =
      plus_if (contains f.state decided_values && contains f.state (value false_positive ∷ []))
        s.false_positives;
}

abbrev pub nothing_counted : Summary
nothing_counted = record {
  new = 0;
  actionable = 0;
  informational = 0;
  by_severity = [];
  by_state = [];
  decided = 0;
  false_positives = 0;
}

unfoldable pub count_all : List FindingDoc → Summary → Summary
unfolding count
count_all [] s = s
count_all (f ∷ fs) s = count_all fs (count f s)

unfoldable pub summarize_findings : List FindingDoc → Summary
unfolding count_all
summarize_findings findings = count_all findings nothing_counted
