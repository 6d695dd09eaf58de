-- ===== src/Severity/Bands.antt =====
-- core/severity.py: how the bands, the escalation and the thresholds fit together.
use exact_surface.Prelude.{ℕ, ◌≤◌, ◌≡◌, refl, Bool, true, none, some, arith, leb→le, le→leb}
use exact_surface.Severity.{
  Severity, info, low, medium, high, critical, rank, value, parse, from_cvss, escalate_for_kev,
  meets_threshold,
}

-- Every severity is read back from its stored value.
pub parse-value : (s : Severity) → parse (value s) ≡ some s
unfolding parse
parse-value info = refl
parse-value low = refl
parse-value medium = refl
parse-value high = refl
parse-value critical = refl

-- A higher CVSS score never lands in a lower band, and a missing score lands below them all.
pub from_cvss_mono :
    (a b : ℕ)
    → a ≤ b
    → (rank (from_cvss (some a)) ≤ rank (from_cvss (some b)))
      × (rank (from_cvss none) ≤ rank (from_cvss (some a)))
unfolding from_cvss rank
from_cvss_mono a b h = ground arith

-- The escalation never lowers a severity, brings a KEV match to high at least, leaves every other
-- match and every severity from high up as it was, and applying it twice is applying it once.
pub escalate_for_kev_bounds :
    (base : Severity) (on_kev : Bool)
    → (rank base ≤ rank (escalate_for_kev base on_kev))
      × (on_kev ≡ true → rank high ≤ rank (escalate_for_kev base on_kev))
      × (rank high ≤ rank base → escalate_for_kev base on_kev ≡ base)
      × (escalate_for_kev (escalate_for_kev base on_kev) on_kev ≡ escalate_for_kev base on_kev)
unfolding escalate_for_kev rank
escalate_for_kev_bounds base on_kev = ground arith

-- A severity that passes a threshold still passes it after the escalation, and a severity that
-- passes a threshold passes every lower one.
pub meets_threshold_mono :
    (s t u : Severity) (on_kev : Bool)
    → meets_threshold s t ≡ true
    → rank u ≤ rank t
    → (meets_threshold (escalate_for_kev s on_kev) t ≡ true) × (meets_threshold s u ≡ true)
unfolding meets_threshold
meets_threshold_mono s t u on_kev h l =
    let p = leb→le (rank t) (rank s) h in
    let q = (escalate_for_kev_bounds s on_kev).0 in
    (le→leb _ _ (omega arith), le→leb _ _ (omega arith))
