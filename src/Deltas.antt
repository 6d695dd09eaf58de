-- ===== src/Deltas.antt =====
-- modules/intelligence/delta_monitor.py. What a change event says before and after is the value that the source
-- prints; the identities of the event are left out.
pub mod Changes
use exact_surface.Prelude.{
  ℕ, String, Bool, true, false, not, ◌&&◌, Option, none, some, List, [], ◌∷◌, ◌++◌, Keyed, nat_eq,
  if◌then◌else◌, ◌==◌, contains, string_eq,
}

-- The kinds that are used here, with what is printed.
pub data Delta : Type 0 where
  status_change : (before after : Option ℕ) → Delta
  title_change : (before after : Option String) → Delta
  tech_change : (before after : List String) → Delta

-- The fields of an endpoint, stored or fresh, that are read.
pub record Endpoint : Type 0 where
  pub status_code : Option ℕ
  pub content_hash : Option String
  pub title : Option String
  pub tech : List String

-- a == b, for values that may be None
abbrev pub same : {A : Type 0} ⦃k : Keyed A⦄ → Option A → Option A → Bool
same none none = true
same (some a) (some b) = a == b
same none (some b) = false
same (some a) none = false

abbrev pub subset : List String → List String → Bool
subset [] ys = true
subset (x ∷ xs) ys = contains x ys && subset xs ys

-- set(a) == set(b)
abbrev pub same_set : List String → List String → Bool
same_set a b = subset a b && subset b a

-- deltas.append(d), if it holds
abbrev pub append_if : Bool → Delta → List Delta → List Delta
append_if b d ds = if b then ds ++ (d ∷ []) else ds

unfoldable pub compute_endpoint_deltas : Option Endpoint → Endpoint → List Delta
unfolding contains
compute_endpoint_deltas none new = []
compute_endpoint_deltas (some old) new =
    append_if (not (same_set old.tech new.tech)) (tech_change old.tech new.tech) (
      append_if (not (same old.content_hash new.content_hash)) (title_change old.title new.title) (
        append_if (not (same old.status_code new.status_code))
          (status_change old.status_code new.status_code) []))
