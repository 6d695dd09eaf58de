-- ===== src/Taskqueue/Cadence/Floors.antt =====
-- taskqueue/cadence.py: no setting makes a scan run more often than the floors allow.
use exact_surface.Prelude.{
  ℕ, zero, suc, ◌≤◌, String, ◌≡◌, refl, ◌↔◌, Bool, true, false, ◌&&◌, ◌||◌, Option, none, some, [],
  ◌∷◌, arith, leb, Dict, get, contains, string_eq, Bool-cases, inl, inr, Entries, Entries-put,
  Entries-update, Entries-get, get-update_keys,
}
use exact_surface.Taskqueue.Cadence.{
  default_cadence_seconds, configurable_pipelines, min_interval_seconds, non_scanning, Raw, bad,
  num, minus, or_zero, accept, store_if, sanitize_step, sanitize_from, sanitize_overrides, floored,
  effective_cadence, is_due, next_due,
}

module _ (floor : Option ℕ) where
  -- An interval is positive, and that of a scanning pipeline respects both floors.
  abbrev pub IsPolite : String → ℕ → Type 0
  IsPolite k v =
      (1 ≤ v) × (contains k non_scanning ≡ false → (min_interval_seconds ≤ v) × (or_zero floor ≤ v))

  accept-IsPolite : (k : String) (val : Raw) (v : ℕ) → accept floor k val ≡ some v → IsPolite k v
  unfolding accept
  accept-IsPolite k bad v h = cc
  accept-IsPolite k (minus n) v h = cc
  accept-IsPolite k (num zero) v h = cc
  accept-IsPolite k (num (suc n)) v h = ground arith

  store_if-IsPolite :
      (k : String) (val : Option ℕ) (out : Dict String ℕ)
      → ((v : ℕ) → val ≡ some v → IsPolite k v)
      → Entries IsPolite out
      → Entries IsPolite (store_if floor k val out)
  store_if-IsPolite k none out p h = h
  store_if-IsPolite k (some v) out p h = Entries-put IsPolite k v out (p v refl) h

  sanitize_step-IsPolite :
      (out : Dict String ℕ) (k : String) (val : Raw)
      → Entries IsPolite out
      → Entries IsPolite (sanitize_step floor out k val)
  unfolding sanitize_step
  sanitize_step-IsPolite out k val h = elim (Bool-cases (contains k configurable_pipelines)) [
    | inl t ↦ rw t (store_if-IsPolite k (accept floor k val) out (accept-IsPolite k val) h)
    | inr f ↦ rw f h
  ]

  sanitize_from-IsPolite :
      (out : Dict String ℕ) (o : Dict String Raw)
      → Entries IsPolite out
      → Entries IsPolite (sanitize_from floor out o)
  unfolding sanitize_from
  sanitize_from-IsPolite out [] h = h
  sanitize_from-IsPolite out ((k, val) ∷ rest) h =
      sanitize_from-IsPolite (sanitize_step floor out k val) rest
        (sanitize_step-IsPolite out k val h)

  abbrev IsSlow : String → ℕ → Type 0
  IsSlow k v = (1 ≤ v) × (contains k non_scanning ≡ false → min_interval_seconds ≤ v)

  floored-IsPolite : (d : Dict String ℕ) → Entries IsSlow d → Entries IsPolite (floored floor d)
  unfolding floored
  floored-IsPolite [] h = tt
  floored-IsPolite ((k, v) ∷ d) h = (ground (arith, h.0), floored-IsPolite d h.1)

  all_slow : Dict String ℕ → Bool
  all_slow [] = true
  all_slow ((k, v) ∷ d) =
      leb 1 v && ((contains k non_scanning || leb min_interval_seconds v) && all_slow d)

  all_slow-IsSlow : (d : Dict String ℕ) → all_slow d ≡ true → Entries IsSlow d
  unfolding all_slow
  all_slow-IsSlow [] h = tt
  all_slow-IsSlow ((k, v) ∷ d) h = (ground arith, all_slow-IsSlow d (ground arith))

  defaults-IsSlow : Entries IsSlow default_cadence_seconds
  unfolding all_slow contains
  defaults-IsSlow = all_slow-IsSlow default_cadence_seconds refl

  sanitize_overrides-IsPolite :
      (o : Dict String Raw) → Entries IsPolite (sanitize_overrides floor o)
  unfolding sanitize_overrides
  sanitize_overrides-IsPolite o = sanitize_from-IsPolite [] o tt

  -- Whatever a program and its tenant have stored, every interval that the scheduler reads is
  -- positive, and that of a pipeline that scans is at least five minutes and at least the floor of
  -- the installation; and every pipeline with a default has an interval.
  pub effective_cadence-IsPolite :
      (program_overrides tenant_defaults : Dict String Raw) (k : String) (v : ℕ)
      → (get k (effective_cadence floor program_overrides tenant_defaults) ≡ some v → IsPolite k v)
        × (get k (effective_cadence floor program_overrides tenant_defaults) ≡ none
            → get k (floored floor default_cadence_seconds) ≡ none)
  unfolding effective_cadence
  effective_cadence-IsPolite p t k v =
      let base = floored floor default_cadence_seconds in
      let mine = sanitize_overrides-IsPolite p in
      let theirs = sanitize_overrides-IsPolite t in
      let own = floored-IsPolite default_cadence_seconds defaults-IsSlow in
      (
        λ h.
            Entries-get IsPolite k v _
              (Entries-update IsPolite _ _ (Entries-update IsPolite base _ own theirs) mine) h,
        λ h. (get-update_keys k base _ (get-update_keys k _ _ h).0).0,
      )

-- A pipeline is due exactly from the time on that `next_due` shows, and at once if it never ran;
-- once due it stays due.
pub is_due_iff :
    (last : Option ℕ) (now later interval t : ℕ)
    → (next_due last interval ≡ some t → (is_due last now interval ≡ true) ↔ (t ≤ now))
      × (next_due last interval ≡ none → is_due last now interval ≡ true)
      × (now ≤ later → is_due last now interval ≡ true → is_due last later interval ≡ true)
unfolding is_due next_due
is_due_iff none now later interval t = ground arith
is_due_iff (some last) now later interval t = ground arith
