-- ===== src/Severity.antt =====
-- core/severity.py: the ordered severity, the CVSS bands and the KEV escalation.
-- A CVSS score is a float with one decimal; the model holds it in tenths (9.0 is 90).
pub mod Bands
use exact_surface.Prelude.{
  ℕ, ◌<◌, String, Bool, true, false, ◌&&◌, Option, none, some, leb, ltb, if◌then◌else◌, ◌==◌,
  string_eq,
}

pub data Severity : Type 0 where
  info low medium high critical : Severity

-- `_ORDER`, read by the property `rank`.
unfoldable pub rank : Severity → ℕ
rank info = 0
rank low = 1
rank medium = 2
rank high = 3
rank critical = 4

-- The values of the enum.
abbrev pub value : Severity → String
value info = "info"
value low = "low"
value medium = "medium"
value high = "high"
value critical = "critical"

-- `Severity(value)`; `none` is the ValueError.
unfoldable pub parse : String → Option Severity
parse s =
    if s == "info"
    then some info
    else if s == "low"
    then some low
    else if s == "medium"
    then some medium
    else if s == "high"
    then some high
    else if s == "critical"
    then some critical
    else none

unfoldable pub from_cvss : Option ℕ → Severity
from_cvss none = info
from_cvss (some score) =
    if leb 90 score
    then critical
    else if leb 70 score
    then high
    else if leb 40 score
    then medium
    else if ltb 0 score
    then low
    else info

unfoldable pub escalate_for_kev : Severity → Bool → Severity
unfolding rank
escalate_for_kev base on_kev = if on_kev && ltb (rank base) (rank high) then high else base

unfoldable pub meets_threshold : Severity → Severity → Bool
unfolding rank
meets_threshold sev threshold = leb (rank threshold) (rank sev)
