-- ===== src/Modules.antt =====
-- core/modules.py: which modules run, given what a user turned on and off. A set of names is a list,
-- and the reasons of `skipped` are constructors; `needs` carries the name of the missing module,
-- whose label the source looks up for its message.
pub mod Registry
pub mod Closure
pub mod Choice
pub mod Spine
use exact_surface.Prelude.{
  ℕ, zero, suc, String, Bool, true, false, not, ◌&&◌, Option, none, some, List, [], ◌∷◌, length,
  find, if◌then◌else◌, Dict, get, put, contains, insert, discard, string_eq,
}

pub record ModuleSpec : Type 0 where
  pub name : String
  pub requires : List String
  pub default_enabled : Bool
  pub essential : Bool
  pub schedulable : Bool

pub data SkipReason : Type 0 where
  turned_off not_enabled : SkipReason
  needs : String → SkipReason

pub record ModuleState : Type 0 where
  pub enabled : List String
  pub skipped : Dict String SkipReason

-- `ModuleState.is_enabled`
unfoldable pub is_enabled : ModuleState → String → Bool
is_enabled s name = contains name s.enabled

module _ (opted_in opted_out : List String) where
  -- The body of the first loop.
  unfoldable pub choose : ModuleState → ModuleSpec → ModuleState
  choose s m =
      if m.essential
      then record s { enabled = insert m.name s.enabled }
      else if contains m.name opted_out
      then record s { skipped = put m.name turned_off s.skipped }
      else if not m.default_enabled && not (contains m.name opted_in)
      then record s { skipped = put m.name not_enabled s.skipped }
      else record s { enabled = insert m.name s.enabled }

  unfoldable pub choose_all : ModuleState → List ModuleSpec → ModuleState
  unfolding choose
  choose_all s [] = s
  choose_all s (m ∷ ms) = choose_all (choose s m) ms

-- missing[0], for `missing = [r for r in spec.requires if r not in enabled]`
abbrev pub first_missing : List String → List String → Option String
first_missing enabled requires = find (λ r. not (contains r enabled)) requires

-- The body of the second loop: the new state, and whether it has changed.
unfoldable pub prune : ModuleState → ModuleSpec → ModuleState × Bool
prune s m =
    if contains m.name s.enabled
    then elim (first_missing s.enabled m.requires) [
      | none ↦ (s, false)
      | some r ↦ (
        record { enabled = discard m.name s.enabled; skipped = put m.name (needs r) s.skipped },
        true,
      )
    ]
    else (s, false)

abbrev pub either : Bool → Bool → Bool
either true _ = true
either false b = b

-- One round of `while changed`.
unfoldable pub sweep : ModuleState → List ModuleSpec → ModuleState × Bool
unfolding prune
sweep s [] = (s, false)
sweep s (m ∷ ms) = let (s', c) = prune s m in let (s'', d) = sweep s' ms in (s'', either c d)

-- `while changed` on fuel; `none` means that the fuel ran out.
unfoldable pub settle : ℕ → List ModuleSpec → ModuleState → Option ModuleState
unfolding sweep
settle zero ms s = none
settle (suc fuel) ms s =
    let rest = settle fuel ms (sweep s ms).0 in if (sweep s ms).1 then rest else some (sweep s ms).0

abbrev pub start : ModuleState
start = record { enabled = []; skipped = [] }

-- `resolve`, for any registry.
unfoldable pub resolve : List ModuleSpec → List String → List String → Option ModuleState
unfolding choose_all settle
resolve ms opted_in opted_out =
    let chosen = choose_all opted_in opted_out start ms in
    settle (suc (length chosen.enabled)) ms chosen
