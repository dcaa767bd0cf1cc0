-- ===== src/Collector/Run.antt =====
-- `Run` of collector/collector.go: cycle after cycle. The loop ends with the process alone, so a run is what
-- its first cycles have done.
pub mod Progress
pub mod Remembered
pub mod Uniform
use validator_health_collect.Base.{ℕ, ◌≤◌}
use validator_health_collect.Base.Float.{Float64}
use validator_health_collect.Go.Time.{Time}
use validator_health_collect.Collector.State.{Settings, CollectorState, Answers}
use validator_health_collect.Collector.Snapshot.{collect_snapshot}
use validator_health_collect.Collector.Schedule.{next_aligned_run}

-- What the turns of the loop make of the state `s0` that a cycle at `t0` has left: the time of the
-- last cycle and the state after it. `P` holds of the answers and the time of each cycle. A cycle
-- starts when the timer fires, and that is not before the run that was computed from the end of the
-- cycle before.
pub data Runs {W : Type 0} ⦃f : Float64 W⦄ (cfg : Settings) (interval : ℕ)
    (P : Answers W → Time → Type 0) (t0 : Time) (s0 : CollectorState W)
    : Time → CollectorState W → Type 0 where
  started : Runs cfg interval P t0 s0 t0 s0
  turn :
      {t : Time} {s : CollectorState W}
      → Runs cfg interval P t0 s0 t s
      → (a : Answers W) (ended now : Time) → P a now
      → t ≤ ended
      → next_aligned_run ended interval ≤ now
      → Runs cfg interval P t0 s0 now (collect_snapshot cfg a now s).0
