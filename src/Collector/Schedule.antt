-- ===== src/Collector/Schedule.antt =====
-- `nextAlignedRun` and `hasTurnoutIndependentVetoPower`.
use native.Mathlib.Nat.{div-add-mod, mod-lt}
use validator_health_collect.Base.{ℕ, ◌+◌, ◌-◌, ◌*◌, ◌/◌, ◌%◌, ◌≤◌, ◌<◌, ◌≡◌, Bool, ◌&&◌, arith}
use validator_health_collect.Base.Float.{Float64}
use validator_health_collect.Go.Time.{Time, zero_time}

-- t.Truncate(d), for an interval that is not 0 and a time from the year 1 on
unfoldable pub truncate : Time → ℕ → Time
truncate t d = t - (t - zero_time) % d

unfoldable pub next_aligned_run : Time → ℕ → Time
next_aligned_run now interval = truncate now interval + interval

module _ {W : Type 0} ⦃f : Float64 W⦄ where
  unfoldable pub has_turnout_independent_veto_power : W → W → Bool
  has_turnout_independent_veto_power entity_share veto_threshold =
      f.lt (f.of_nat 0) veto_threshold
      && f.lt veto_threshold (f.of_nat 1)
      && f.lt veto_threshold entity_share

-- With an interval that is not 0, the next run is later than now, by at most the interval, and a whole
-- number of intervals after the zero time.
pub next_aligned_run_lem :
    (now interval : ℕ)
    → 0 < interval
    → zero_time ≤ now
    → (now < next_aligned_run now interval)
      × (next_aligned_run now interval ≤ now + interval)
      × ((k : ℕ) × (next_aligned_run now interval ≡ zero_time + interval * k))
unfolding next_aligned_run truncate
next_aligned_run_lem now interval pos le =
    let split = div-add-mod (now - zero_time) interval in
    let small = mod-lt (now - zero_time) pos in
    (
      omega (arith, split, small),
      omega (arith, split, small),
      ((now - zero_time) / interval + 1, omega (arith, split, small)),
    )
