-- ===== src/Lifecycle/Paths.antt =====
-- core/lifecycle.py: which states a finding can pass through.
use exact_surface.Prelude.{◌≡◌, ◌≢◌, refl, arith}
use exact_surface.Lifecycle.{
  FindingState, new, triaged, confirmed, false_positive, accepted_risk, resolved, regressed, moved,
  transition,
}

-- A history of moves, each of which `transition` has accepted.
pub data History (s : FindingState) : FindingState → Type 0 where
  start : History s s
  move : {t u : FindingState} → History s t → transition t u ≡ moved u → History s u

-- An accepted move goes where it was asked to go, never to `new`, and never stays in place.
pub transition_sound :
    (src dst res : FindingState)
    → transition src dst ≡ moved res
    → (res ≡ dst) × (dst ≢ new) × (src ≢ dst)
unfolding transition
transition_sound new dst res h = ground arith
transition_sound triaged dst res h = ground arith
transition_sound _ dst res h = ground arith

-- Once a finding has left `new` no history brings it back.
pub History-new : (s t : FindingState) → History s t → t ≡ new → s ≡ new
History-new s t start e = e
History-new s t (move {t = u} h m) e = absurd ((transition_sound u t t m).1 e)

pub History-trans : {s t u : FindingState} → History s t → History t u → History s u
History-trans p start = p
History-trans p (move q e) = move (History-trans p q) e

to_triaged : (s : FindingState) → History s triaged
unfolding transition
to_triaged new = move start refl
to_triaged triaged = start
to_triaged confirmed = move (move {t = confirmed} {u = accepted_risk} start refl) refl
to_triaged false_positive = move start refl
to_triaged accepted_risk = move start refl
to_triaged resolved = move (move {t = resolved} {u = regressed} start refl) refl
to_triaged regressed = move start refl

from_triaged : (t : FindingState) → t ≢ new → History triaged t
unfolding transition
from_triaged new h = absurd (h refl)
from_triaged triaged h = start
from_triaged confirmed h = move start refl
from_triaged false_positive h = move start refl
from_triaged accepted_risk h = move start refl
from_triaged resolved h = move start refl
from_triaged regressed h = move (move {t = triaged} {u = resolved} start refl) refl

-- From every state, `resolved` and the suppressed ones included, legal moves lead to every state
-- but `new`: triage can always correct itself and no state is a dead end.
pub History-total : (s t : FindingState) → t ≢ new → History s t
History-total s t h = History-trans (to_triaged s) (from_triaged t h)
