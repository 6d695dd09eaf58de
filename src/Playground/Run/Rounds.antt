-- ===== src/Playground/Run/Rounds.antt =====
-- pipelines/playground.py: how a round of the loop of `run_workflow` ends.
use exact_surface.Prelude.{
  ◌≡◌, refl, ap, sym, ◌∙◌, ◌⊎◌, inl, inr, Bool, true, false, Option, none, some,
}
use mathlib.Core.Option.{some-injective}
use exact_surface.Playground.{Timeout, finite, endless, unreadable}
use exact_surface.Playground.Run.{
  Result, produced, timed_out, refused, raised, State, Crash, timeout_error, Round, goes_on,
  escapes, with_budget,
}

abbrev pub is_finite : Timeout → Bool
is_finite finite = true
is_finite endless = false
is_finite unreadable = false

module _ {V : Type 0} where
  abbrev kept : Round V → Option (State V)
  kept (goes_on s) = some s
  kept (escapes c) = none

  pub goes_on-injective : (s t : State V) → ◌≡◌ {A = Round V} (goes_on s) (goes_on t) → s ≡ t
  goes_on-injective s t h = some-injective s t (ap kept h)

  pub Round-cases :
      (r : Round V) → ((c : Crash) × (r ≡ escapes c)) ⊎ ((s : State V) × (r ≡ goes_on s))
  Round-cases (goes_on s) = inr (s, refl)
  Round-cases (escapes c) = inl (c, refl)

  -- A budget stops the call only where the node's timeout is not a finite number.
  pub with_budget-cases :
      (w : Timeout) (r : Result V) (s : State V)
      → ((is_finite w ≡ false) × (with_budget w r s ≡ escapes timeout_error))
        ⊎ (with_budget w r s ≡ goes_on s)
  unfolding with_budget
  with_budget-cases finite r s = inr refl
  with_budget-cases unreadable r s = inl (refl, refl)
  with_budget-cases endless timed_out s = inl (refl, refl)
  with_budget-cases endless (produced made) s = inr refl
  with_budget-cases endless refused s = inr refl
  with_budget-cases endless raised s = inr refl

  pub with_budget-goes_on :
      (w : Timeout) (r : Result V) (s t : State V) → with_budget w r s ≡ goes_on t → s ≡ t
  with_budget-goes_on w r s t h = elim (with_budget-cases w r s) [
    | inl (f, e) ↦ let z = sym e ∙ h in cc
    | inr e ↦ goes_on-injective s t (sym e ∙ h)
  ]
