-- ===== src/Rate/Subprocess.antt =====
-- core/ratelimit.py: the rate flag of a scanner subprocess. The cap, a float, is held in thousandths.
use exact_surface.Prelude.{
  ℕ, ◌*◌, ◌/◌, ◌≤◌, min, max, ◌≡◌, ◌↔◌, Bool, true, arith, leb, leb→le, le→leb,
}

-- max(1, min(ceiling, int(per_target_cap * n))) with n = max(1, host_count)
unfoldable pub subprocess_rate_for : ℕ → ℕ → ℕ → ℕ
subprocess_rate_for host_count cap_milli ceiling =
    max 1 (min ceiling (cap_milli * max 1 host_count / 1000))

pub record SubprocessRate : Type 0 where
  pub aggregate : ℕ
  pub hosts : ℕ  -- `per_target` is aggregate / hosts
  pub cap_milli : ℕ

-- `derive_subprocess_rate`, without the publishing of its metrics.
unfoldable pub derive_subprocess_rate : ℕ → ℕ → ℕ → SubprocessRate
unfolding subprocess_rate_for
derive_subprocess_rate host_count cap_milli ceiling = record {
  aggregate = subprocess_rate_for host_count cap_milli ceiling;
  hosts = max 1 host_count;
  cap_milli = cap_milli;
}

-- `within_cap`: per_target <= cap, multiplied out.
unfoldable pub within_cap : SubprocessRate → Bool
within_cap r = leb (r.aggregate * 1000) (r.cap_milli * r.hosts)

rate_bounds :
    (ceiling t : ℕ)
    → (1 ≤ max 1 (min ceiling (t / 1000)))
      × (max 1 (min ceiling (t / 1000)) ≤ max 1 ceiling)
      × (max 1 (min ceiling (t / 1000)) * 1000 ≤ t → 1000 ≤ t)
      × (1000 ≤ t → max 1 (min ceiling (t / 1000)) * 1000 ≤ t)
rate_bounds ceiling t = omega arith

-- The flag is at least 1 and at most the ceiling (or 1), and the rate of each target stays within the
-- cap exactly if the cap leaves room for one packet a second over all targets: below that the
-- floor of 1 exceeds the cap.
pub derive_subprocess_rate_bounds :
    (host_count cap_milli ceiling : ℕ)
    → (1 ≤ (derive_subprocess_rate host_count cap_milli ceiling).aggregate)
      × ((derive_subprocess_rate host_count cap_milli ceiling).aggregate ≤ max 1 ceiling)
      × ((within_cap (derive_subprocess_rate host_count cap_milli ceiling) ≡ true)
          ↔ (1000 ≤ cap_milli * max 1 host_count))
unfolding derive_subprocess_rate within_cap
derive_subprocess_rate_bounds host_count cap_milli ceiling =
    let (low, high, over, under) = rate_bounds ceiling (cap_milli * max 1 host_count) in
    (low, high, (λ h. over (leb→le _ _ h), λ h. le→leb _ _ (under h)))
