-- ===== src/Modules/Choice.antt =====
-- core/modules.py: what `resolve` answers, against what the user asked for.
use exact_surface.Prelude.{
  ℕ, zero, suc, String, ◌≡◌, refl, sym, subst, ◌⊎◌, true, false, some, List, [], ◌∷◌, arith, length,
  In, here, there, contains, contains-insert, contains-discard, string_eq, Bool-cases, inl, inr,
}
use mathlib.Core.Option.{some-injective}
use exact_surface.Modules.{
  ModuleSpec, ModuleState, choose, choose_all, prune, sweep, settle, start, resolve,
}
use exact_surface.Modules.Closure.{
  IsClosed, Supports, Has, settle_total, settle-IsClosed, settle-Has,
}

module _ (opted_in opted_out : List String) where
  -- The user's choices want a module: it is essential, or not turned off and on by default or by
  -- choice.
  abbrev pub Wanted : ModuleSpec → Type 0
  Wanted m =
      (m.essential ≡ true)
      ⊎ ((contains m.name opted_out ≡ false)
          × ((m.default_enabled ≡ true) ⊎ (contains m.name opted_in ≡ true)))

  -- A registered and wanted module has the name.
  abbrev pub IsWanted : List ModuleSpec → String → Type 0
  IsWanted ms n = (m : ModuleSpec) × In m ms × (m.name ≡ n) × Wanted m

  choose-contains :
      (s : ModuleState) (m : ModuleSpec) (n : String)
      → contains n (choose opted_in opted_out s m).enabled ≡ true
      → (contains n s.enabled ≡ true) ⊎ ((m.name ≡ n) × Wanted m)
  unfolding choose
  choose-contains s m n h =
      ground (arith, contains-insert m.name n s.enabled, string_eq.beq_iff m.name n)

  choose-keeps :
      (s : ModuleState) (m : ModuleSpec) (n : String)
      → (contains n s.enabled ≡ true) ⊎ ((m.name ≡ n) × Wanted m)
      → contains n (choose opted_in opted_out s m).enabled ≡ true
  unfolding choose
  choose-keeps s m n h =
      ground (arith, contains-insert m.name n s.enabled, string_eq.beq_iff m.name n)

  chosen_sound :
      (s : ModuleState) (ms : List ModuleSpec) (n : String)
      → contains n (choose_all opted_in opted_out s ms).enabled ≡ true
      → (contains n s.enabled ≡ true) ⊎ IsWanted ms n
  unfolding choose_all
  chosen_sound s [] n h = inl h
  chosen_sound s (m ∷ ms) n h = elim (chosen_sound (choose opted_in opted_out s m) ms n h) [
    | inl k ↦ elim (choose-contains s m n k) [
      | inl old ↦ inl old
      | inr (e, w) ↦ inr (m, here refl, e, w)
    ]
    | inr (x, k, e, w) ↦ inr (x, there k, e, w)
  ]

  chosen_keeps :
      (s : ModuleState) (ms : List ModuleSpec) (n : String)
      → contains n s.enabled ≡ true
      → contains n (choose_all opted_in opted_out s ms).enabled ≡ true
  unfolding choose_all
  chosen_keeps s [] n h = h
  chosen_keeps s (m ∷ ms) n h =
      chosen_keeps (choose opted_in opted_out s m) ms n (choose-keeps s m n (inl h))

  chosen_complete :
      (s : ModuleState) (ms : List ModuleSpec) (n : String) (m : ModuleSpec)
      → In m ms
      → m.name ≡ n
      → Wanted m
      → contains n (choose_all opted_in opted_out s ms).enabled ≡ true
  unfolding choose_all
  chosen_complete s [] n m k e w = elim k [ ]
  chosen_complete s (x ∷ ms) n m (here q) e w = chosen_keeps (choose opted_in opted_out s x) ms n (
      choose-keeps s x n
        (subst (λ y. (contains n s.enabled ≡ true) ⊎ ((y.name ≡ n) × Wanted y)) q (inr (e, w))))
  chosen_complete s (x ∷ ms) n m (there k) e w =
      chosen_complete (choose opted_in opted_out s x) ms n m k e w

prune-contains :
    (s : ModuleState) (m : ModuleSpec) (n : String)
    → contains n (prune s m).0.enabled ≡ true
    → contains n s.enabled ≡ true
unfolding prune
prune-contains s m n h = ground (arith, contains-discard m.name n s.enabled)

sweep-contains :
    (s : ModuleState) (ms : List ModuleSpec) (n : String)
    → contains n (sweep s ms).0.enabled ≡ true
    → contains n s.enabled ≡ true
unfolding sweep
sweep-contains s [] n h = h
sweep-contains s (m ∷ ms) n h = prune-contains s m n (sweep-contains (prune s m).0 ms n h)

settle-contains :
    (fuel : ℕ) (ms : List ModuleSpec) (s r : ModuleState) (n : String)
    → settle fuel ms s ≡ some r
    → contains n r.enabled ≡ true
    → contains n s.enabled ≡ true
unfolding settle
settle-contains zero ms s r n e h = cc
settle-contains (suc fuel) ms s r n e h = elim (Bool-cases (sweep s ms).1) [
  | inl t ↦
      sweep-contains s ms n (settle-contains fuel ms (sweep s ms).0 r n (rw (t, settle) at e) h)
  | inr f ↦ sweep-contains s ms n (
      subst (λ (x : ModuleState). contains n x.enabled ≡ true)
        (sym (some-injective _ _ (rw (f, settle) at e))) h)
]

-- What makes a state the right answer: every enabled module is wanted and has all it requires, and
-- every set of wanted modules that holds all it requires is enabled.
pub record IsAnswer (ms : List ModuleSpec) (opted_in opted_out : List String) (r : ModuleState)
    : Type 1 where
  pub wanted : (n : String) → contains n r.enabled ≡ true → IsWanted opted_in opted_out ms n
  pub closed : IsClosed ms r.enabled
  pub largest :
      (S : String → Type 0)
      → Supports ms S
      → ((n : String) → S n → IsWanted opted_in opted_out ms n)
      → Has S r

-- For every registry and every choice `resolve` stops and enables the largest set of wanted modules
-- in which every module has all that it requires: nothing runs starved, nothing that the user
-- turned off runs, and nothing else is lost.
pub resolve-IsAnswer :
    (ms : List ModuleSpec) (opted_in opted_out : List String)
    → (r : ModuleState) × (resolve ms opted_in opted_out ≡ some r)
      × IsAnswer ms opted_in opted_out r
unfolding resolve contains
resolve-IsAnswer ms opted_in opted_out =
    let chosen = choose_all opted_in opted_out start ms in
    let fuel = suc (length chosen.enabled) in
    let (r, e) = settle_total fuel ms chosen (omega arith) in
    (
      r,
      e,
      record {
        wanted = λ n h.
            elim (chosen_sound opted_in opted_out start ms n
              (settle-contains fuel ms chosen r n e h)) [ inl z ↦ cc | inr x ↦ x ];
        closed = settle-IsClosed fuel ms chosen r e;
        largest = λ S sup w.
            settle-Has S fuel ms chosen r sup
              (λ n k.
                let (m, i, q, x) = w n k in chosen_complete opted_in opted_out start ms n m i q x)
              e;
      },
    )
