-- ===== src/Lifecycle/Alerts.antt =====
-- core/lifecycle.py: how often the re-observation of a finding raises an alert.
use exact_surface.Prelude.{ℕ, ◌+◌, ◌≤◌, ◌≡◌, Bool, true, false, List, [], ◌∷◌, arith, if◌then◌else◌}
use exact_surface.Lifecycle.{
  FindingState, resolved, regressed, Moved, moved, illegal_transition, state_beq, member,
  suppressed_states, transition, on_reobserved,
}

-- What happens to one finding: someone asks for a state, or a scan sees it again.
pub data Event : Type 0 where
  triage : FindingState → Event
  reobserve : Event

-- A refused move leaves the finding where it was.
after : FindingState → Moved → FindingState
after s (moved t) = t
after s (illegal_transition _ _) = s

pub step : FindingState → Event → FindingState × Bool
unfolding after
step s (triage t) = (after s (transition s t), false)
step s reobserve = on_reobserved s

abbrev pub one_if : Bool → ℕ
one_if b = if b then 1 else 0

abbrev pub alerts : FindingState → List Event → ℕ
unfolding step
alerts s [] = 0
alerts s (e ∷ es) = one_if (step s e).1 + alerts (step s e).0 es

-- How often the history enters `resolved`.
abbrev pub resolutions : FindingState → List Event → ℕ
unfolding step
resolutions s [] = 0
resolutions s (e ∷ es) =
    (if state_beq s resolved then 0 else one_if (state_beq (step s e).0 resolved))
    + resolutions (step s e).0 es

alerts-step :
    (s : FindingState) (e : Event)
    → one_if (step s e).1 + one_if (state_beq (step s e).0 resolved)
      ≤ one_if (state_beq s resolved)
        + (if state_beq s resolved then 0 else one_if (state_beq (step s e).0 resolved))
unfolding step on_reobserved
alerts-step s (triage t) = ground arith
alerts-step s reobserve = ground arith

-- Over any sequence of triage requests, legal or refused, and re-observations, a finding alerts at
-- most once for each time it entered `resolved`, and once more if it was resolved to begin with:
-- a finding that nobody resolves never alerts again.
pub alerts-le-resolutions :
    (s : FindingState) (es : List Event)
    → alerts s es ≤ one_if (state_beq s resolved) + resolutions s es
unfolding step
alerts-le-resolutions s [] = omega arith
alerts-le-resolutions s (e ∷ es) =
    omega (arith, alerts-step s e, alerts-le-resolutions (step s e).0 es)

-- A suppressed finding stays where it is and does not alert when it is seen again; a resolved one
-- regresses by a legal transition and alerts; every other one neither moves nor alerts, so that a
-- second sighting after any first one never alerts.
pub on_reobserved_cases :
    (s : FindingState)
    → (member s suppressed_states ≡ true → on_reobserved s ≡ (s, false))
      × ((on_reobserved s).1 ≡ true
          → (s ≡ resolved) × (transition s (on_reobserved s).0 ≡ moved regressed))
      × ((on_reobserved s).1 ≡ false → (on_reobserved s).0 ≡ s)
      × (on_reobserved (on_reobserved s).0 ≡ ((on_reobserved s).0, false))
unfolding on_reobserved transition
on_reobserved_cases s = ground arith
