-- ===== src/Taskqueue/Timeouts/Limits.antt =====
-- taskqueue/timeouts.py: no setting makes a stage die at once or hang.
use exact_surface.Prelude.{
  ℕ, ◌≤◌, String, ◌≡◌, refl, Bool, true, ◌&&◌, none, some, [], ◌∷◌, arith, leb, Dict, get, contains,
  string_eq, Bool-cases, inl, inr, Entries, Entries-put, Entries-update, Entries-get,
  get-update_keys,
}
use exact_surface.Taskqueue.Cadence.{Raw, bad, num, minus}
use exact_surface.Taskqueue.Timeouts.{
  default_timeouts_seconds, configurable_stages, min_timeout_seconds, max_timeout_seconds, clamp,
  store, sanitize_from, sanitize_timeout_overrides, effective_timeouts,
}

-- A stage that the pipeline knows, with a time that it may be given.
abbrev pub IsLimit : String → ℕ → Type 0
IsLimit k v =
    (contains k configurable_stages ≡ true) × (min_timeout_seconds ≤ v) × (v ≤ max_timeout_seconds)

store-IsLimit :
    (k : String) (val : Raw) (out : Dict String ℕ)
    → contains k configurable_stages ≡ true
    → Entries IsLimit out
    → Entries IsLimit (store k val out)
unfolding store
store-IsLimit k bad out known h = h
store-IsLimit k (num n) out known h =
    Entries-put IsLimit k (clamp n) out (known, omega arith, omega arith) h
store-IsLimit k (minus n) out known h =
    Entries-put IsLimit k (clamp 0) out (known, omega arith, omega arith) h

sanitize_from-IsLimit :
    (out : Dict String ℕ) (o : Dict String Raw)
    → Entries IsLimit out
    → Entries IsLimit (sanitize_from out o)
unfolding sanitize_from
sanitize_from-IsLimit out [] h = h
sanitize_from-IsLimit out ((k, val) ∷ rest) h = elim (Bool-cases (contains k configurable_stages)) [
  | inl t ↦ rw t (sanitize_from-IsLimit (store k val out) rest (store-IsLimit k val out t h))
  | inr f ↦ rw f (sanitize_from-IsLimit out rest h)
]

all_limits : Dict String ℕ → Bool
all_limits [] = true
all_limits ((k, v) ∷ d) =
    contains k configurable_stages
    && ((leb min_timeout_seconds v && leb v max_timeout_seconds) && all_limits d)

all_limits-IsLimit : (d : Dict String ℕ) → all_limits d ≡ true → Entries IsLimit d
unfolding all_limits
all_limits-IsLimit [] h = tt
all_limits-IsLimit ((k, v) ∷ d) h =
    ((ground arith, ground arith, ground arith), all_limits-IsLimit d (ground arith))

defaults-IsLimit : Entries IsLimit default_timeouts_seconds
unfolding all_limits contains
defaults-IsLimit = all_limits-IsLimit default_timeouts_seconds refl

-- Whatever a program and its tenant have stored, a stage with a time limit is one of the known
-- stages and its limit lies between 30 seconds and six hours; and a stage without one is a stage
-- that has no default.
pub effective_timeouts-IsLimit :
    (program_overrides tenant_defaults : Dict String Raw) (k : String) (v : ℕ)
    → (get k (effective_timeouts program_overrides tenant_defaults) ≡ some v → IsLimit k v)
      × (get k (effective_timeouts program_overrides tenant_defaults) ≡ none
          → get k default_timeouts_seconds ≡ none)
unfolding effective_timeouts sanitize_timeout_overrides
effective_timeouts-IsLimit p t k v =
    let own = defaults-IsLimit in
    let mine = sanitize_from-IsLimit [] p tt in
    let theirs = sanitize_from-IsLimit [] t tt in
    (
      λ h.
          Entries-get IsLimit k v _
            (Entries-update IsLimit _ _ (Entries-update IsLimit _ _ own theirs) mine) h,
      λ h. (get-update_keys k _ _ (get-update_keys k _ _ h).0).0,
    )
