-- ===== src/Repository/Retired.antt =====
-- db/findings.py: a scanner retires a finding only where the lifecycle lets it.
use exact_surface.Prelude.{
  ℕ, String, ◌≡◌, ◌≢◌, refl, inl, inr, true, false, Option, none, some, [], contains, string_eq,
  Option-cases, Bool-cases, ◌⊎◌, arith, ◌∷◌,
}
use exact_surface.Lifecycle.{
  FindingState, new, triaged, confirmed, false_positive, accepted_risk, resolved, regressed,
  can_transition, value,
}
use exact_surface.Lifecycle.Paths.{History, History-new}
use exact_surface.Repository.{
  text, Value, Doc, Filter, Collection, Model, parse_state, notes, retirement, retirable, empty,
  mark_found, mark_false_positive, upsert, dump,
}
use exact_surface.Repository.Documents.{written, KeepsKey, IsDocumented}
use exact_surface.Repository.Observed.{upsert-known}

retirement-KeepsKey :
    {C : Type 0} (mongo : Collection C) (reason : String) (now : ℕ) (raw : Option Value)
    → KeepsKey (retirement mongo reason now raw)
unfolding retirement
retirement-KeepsKey mongo reason now raw = record { tenant = refl; fingerprint = refl }

-- A scanner may retire what no person has judged.
retirable-cases :
    (s : Option FindingState) → retirable s ≡ true → (s ≡ some new) ⊎ (s ≡ some triaged)
unfolding retirable can_transition
retirable-cases none h = cc
retirable-cases (some new) h = inl refl
retirable-cases (some triaged) h = inr refl
retirable-cases (some confirmed) h = cc
retirable-cases (some false_positive) h = cc
retirable-cases (some accepted_risk) h = cc
retirable-cases (some resolved) h = cc
retirable-cases (some regressed) h = cc

after_state :
    {C : Type 0} (mongo : Collection C) (reason : String) (now : ℕ) (d : Doc)
    → parse_state (written d (retirement mongo reason now (d "raw")) "state") ≡ some false_positive
unfolding written retirement parse_state
after_state mongo reason now d = refl

after_raw :
    {C : Type 0} (mongo : Collection C) (reason : String) (now : ℕ) (d : Doc)
    → written d (retirement mongo reason now (d "raw")) "raw"
      ≡ some (mongo.set_in (d "raw") (notes reason now))
unfolding written retirement
after_raw mongo reason now d = refl

module _ {C : Type 0} (mongo : Collection C) (ok : IsDocumented mongo) where
  -- A scanner's retirement either reports nothing done and leaves the collection as it is, or the
  -- stored finding was new or triaged, and is now a false positive whose `raw` got the verdict, the
  -- reason and the time; every other field but the time of the update is as it was, and no verdict
  -- of a person is overridden.
  pub mark_false_positive-IsAllowed :
      (reason : String) (now : ℕ) (f : Filter) (c : C)
      → (mark_false_positive mongo reason now f c ≡ (c, false))
        ⊎ ((before : Doc) × (after : Doc) × ((mark_false_positive mongo reason now f c).1 ≡ true)
            × (mongo.find_one f c ≡ some before)
            × (mongo.find_one f (mark_false_positive mongo reason now f c).0 ≡ some after)
            × ((parse_state (before "state") ≡ some new)
                ⊎ (parse_state (before "state") ≡ some triaged))
            × (parse_state (after "state") ≡ some false_positive)
            × (after "raw" ≡ some (mongo.set_in (before "raw") (notes reason now)))
            × ((k : String)
                → contains k ("state" ∷ "updated_at" ∷ "raw" ∷ []) ≡ false
                → after k ≡ before k))
  unfolding mark_false_positive mark_found written retirement contains
  mark_false_positive-IsAllowed reason now f c = elim (Option-cases (mongo.find_one f c)) [
    | inl e ↦ inl (rw e refl)
    | inr (d, e) ↦ elim (Bool-cases (retirable (parse_state (d "state")))) [
      | inl t ↦
          let set = retirement mongo reason now (d "raw") in
          let r =
            ok.updates f false empty set d c (retirement-KeepsKey mongo reason now (d "raw")) e in
          inr (
            d,
            written d set,
            rw (e, mark_found, t) refl,
            e,
            rw (e, mark_found, t) r.1,
            retirable-cases _ t,
            after_state mongo reason now d,
            after_raw mongo reason now d,
            λ k h. ground (
              arith,
              h,
              string_eq.beq_iff k "state",
              string_eq.beq_iff "state" k,
              string_eq.beq_iff k "updated_at",
              string_eq.beq_iff "updated_at" k,
              string_eq.beq_iff k "raw",
              string_eq.beq_iff "raw" k,
            ),
          )
      | inr g ↦ inl (rw (e, mark_found, g) refl)
    ]
  ]

  -- An observation by the repository of findings stores the state that the scanner sends, which is
  -- new for a finding just built, over any state that was stored; from a state other than new, no
  -- history of legal moves leads there.
  pub upsert-state :
      (s t : FindingState) (now : ℕ) (m : Model) (c : C) (d : Doc)
      → mongo.find_one m.key c ≡ some d
      → d "state" ≡ some (text (value s))
      → m.fields "state" ≡ some (text (value t))
      → ((after : Doc) × (mongo.find_one m.key (upsert [] mongo now m c).0 ≡ some after)
          × (after "state" ≡ some (text (value t))))
        × (s ≢ new → t ≡ new → ¬ History s t)
  unfolding dump contains
  upsert-state s t now m c d h was sent =
      let r = upsert-known mongo ok [] now m c d h in
      (
        (r.1.0, r.1.1, r.1.2.overwrites "state" (text (value t)) refl refl sent),
        λ left e p. left (History-new s t p e),
      )
