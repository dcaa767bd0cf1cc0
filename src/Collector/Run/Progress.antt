-- ===== src/Collector/Run/Progress.antt =====
-- How the time of the last success moves during a run.
use validator_health_collect.Base.{ℕ, ◌≤◌, ◌<◌, inl, inr, Option, none, some, arith}
use validator_health_collect.Base.Float.{Float64}
use validator_health_collect.Go.Time.{Time, zero_time, unix}
use validator_health_collect.Collector.State.{Settings, CollectorState, Answers}
use validator_health_collect.Collector.Schedule.{next_aligned_run_lem}
use validator_health_collect.Collector.Snapshot.{collect_snapshot}
use validator_health_collect.Collector.Snapshot.Success.{collect_snapshot-Reports}
use validator_health_collect.Collector.Run.{Runs, started, turn}

-- A gauge that was never set is before every value.
abbrev pub IsUpTo : Option ℕ → Option ℕ → Type 0
IsUpTo none new = Unit
IsUpTo (some n) none = ⊥
IsUpTo (some n) (some m) = n ≤ m

IsUpTo-refl : (a : Option ℕ) → IsUpTo a a
IsUpTo-refl none = tt
IsUpTo-refl (some n) = omega arith

IsUpTo-trans : (a b c : Option ℕ) → IsUpTo a b → IsUpTo b c → IsUpTo a c
IsUpTo-trans none b c h k = tt
IsUpTo-trans (some n) none c h k = absurd h
IsUpTo-trans (some n) (some m) none h k = absurd k
IsUpTo-trans (some n) (some m) (some l) h k = omega (arith, h, k)

unix_mono : (a b : Time) → a ≤ b → unix a ≤ unix b
unfolding unix
unix_mono a b le = omega (arith, le)

module _ {W : Type 0} ⦃f : Float64 W⦄ (cfg : Settings) (interval : ℕ)
    (P : Answers W → Time → Type 0) (t0 : Time) (s0 : CollectorState W) where
  -- The cycles of a run with a positive interval follow one another in time. If the time of the last
  -- success is at first none, or not after the first cycle, it is after any number of cycles not after
  -- the last one, and it has not gone back nor been lost.
  pub Runs-Advances :
      (t : Time) (s : CollectorState W)
      → 0 < interval
      → zero_time ≤ t0
      → IsUpTo s0.last_success (some (unix t0))
      → Runs cfg interval P t0 s0 t s
      → (t0 ≤ t) × IsUpTo s.last_success (some (unix t)) × IsUpTo s0.last_success s.last_success
  Runs-Advances t s pos later up started = (omega arith, up, IsUpTo-refl s0.last_success)
  Runs-Advances t s pos later up (turn {t = t'} {s = s'} r a ended now p le due) =
      let (before, up', back) = Runs-Advances t' s' pos later up r in
      let (lt, _, _) = next_aligned_run_lem ended interval pos (omega (arith, before)) in
      let le' : t' ≤ now = omega (arith, lt) in
      let new =
        IsUpTo-trans s'.last_success (some (unix t')) (some (unix now)) up'
          (unix_mono t' now le') in
      let s'' = (collect_snapshot cfg a now s').0 in
      let ends : IsUpTo s''.last_success (some (unix now))
          × IsUpTo s0.last_success s''.last_success =
        elim (collect_snapshot-Reports cfg a now s') [
          | inr (told, _, _, _) ↦
              rw told (
                omega arith,
                IsUpTo-trans s0.last_success s'.last_success (some (unix now)) back new,
              )
          | inl kept ↦ rw kept (new, back)
        ] in
      (omega (arith, before, lt), ends.0, ends.1)
