-- ===== src/Lifecycle.antt =====
-- core/lifecycle.py: the states of a finding, the transition table and the re-observation rule.
pub mod Paths
pub mod Alerts
use exact_surface.Prelude.{
  ℕ, String, Bool, true, false, Option, none, some, List, [], ◌∷◌, ◌≡◌, refl, if◌then◌else◌, ◌==◌,
  string_eq,
}

pub data FindingState : Type 0 where
  new triaged confirmed false_positive accepted_risk resolved regressed : FindingState

abbrev pub state_beq : FindingState → FindingState → Bool
state_beq new new = true
state_beq triaged triaged = true
state_beq confirmed confirmed = true
state_beq false_positive false_positive = true
state_beq accepted_risk accepted_risk = true
state_beq resolved resolved = true
state_beq regressed regressed = true
state_beq _ _ = false

-- `x in s` for a frozenset of states.
abbrev pub member : FindingState → List FindingState → Bool
member x [] = false
member x (y ∷ ys) = if state_beq x y then true else member x ys

-- `_ALLOWED`
unfoldable pub allowed : FindingState → List FindingState
allowed new = triaged ∷ false_positive ∷ resolved ∷ []
allowed triaged = confirmed ∷ false_positive ∷ accepted_risk ∷ resolved ∷ []
allowed confirmed = resolved ∷ accepted_risk ∷ []
allowed false_positive = regressed ∷ triaged ∷ []
allowed accepted_risk = triaged ∷ resolved ∷ []
allowed resolved = regressed ∷ []
allowed regressed = triaged ∷ confirmed ∷ resolved ∷ []

abbrev pub suppressed_states : List FindingState
suppressed_states = false_positive ∷ accepted_risk ∷ []

abbrev pub open_states : List FindingState
open_states = new ∷ triaged ∷ confirmed ∷ regressed ∷ []

unfoldable pub can_transition : FindingState → FindingState → Bool
unfolding allowed
can_transition src dst = member dst (allowed src)

-- The result of `transition`, which raises `IllegalTransition`.
pub data Moved : Type 0 where
  moved : FindingState → Moved
  illegal_transition : FindingState → FindingState → Moved

unfoldable pub transition : FindingState → FindingState → Moved
unfolding can_transition
transition src dst = if can_transition src dst then moved dst else illegal_transition src dst

unfoldable pub on_reobserved : FindingState → FindingState × Bool
on_reobserved current = if state_beq current resolved then (regressed, true) else (current, false)

-- The stored values of the states.
abbrev pub value : FindingState → String
value new = "new"
value triaged = "triaged"
value confirmed = "confirmed"
value false_positive = "false_positive"
value accepted_risk = "accepted_risk"
value resolved = "resolved"
value regressed = "regressed"
