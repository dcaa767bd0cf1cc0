-- ===== src/Collector/Run/Uniform.antt =====
-- The gate of the alerts after each cycle of a run, from the start of the process on.
use validator_health_collect.Base.{ℕ, inl, inr, ◌++◌, string_eq}
use validator_health_collect.Base.Dict
use validator_health_collect.Base.Float.{Float64}
use validator_health_collect.Base.Trace.{Keeps-append, All-states_play, Each-Keeps}
use validator_health_collect.Go.Time.{Time}
use validator_health_collect.Governance.Gauges.{GovernanceGauges, no_gauges}
use validator_health_collect.Governance.Memory.{Memory}
use validator_health_collect.Governance.Publish.Writes.{retire_writes}
use validator_health_collect.Governance.Publish.Scraped.{Whole}
use validator_health_collect.Endpoints.Resolver.{Resolver}
use validator_health_collect.Collector.State.{Settings, CollectorState, Answers}
use validator_health_collect.Collector.Stages.{tally_answer, votes_answer}
use validator_health_collect.Collector.New.{new}
use validator_health_collect.Collector.Snapshot.{collect_snapshot}
use validator_health_collect.Collector.Scraped.{
  remaining_writes, cycle_writes, IsUniform, retire_writes-Keeps, remaining_writes-Each,
  cycle_writes-IsUniform,
}
use validator_health_collect.Collector.Scraped.Played.{IsPlayed, collect_snapshot-IsPlayed}
use validator_health_collect.Collector.Run.{Runs, started, turn}

module _ {W : Type 0} ⦃f : Float64 W⦄ (cfg : Settings) where
  -- There is a quorum beside which each gate stands, with its turnout.
  abbrev pub AllWhole : GovernanceGauges W → Type 0
  AllWhole g = (quorum : W) × Whole quorum g

  IsPlayed-AllWhole :
      (a : Answers W) (now : Time) (m : Memory) (g g' : GovernanceGauges W)
      → AllWhole g
      → IsPlayed cfg a now m g g'
      → AllWhole g'
  IsPlayed-AllWhole a now m g g' (q, h) (inl e) =
      (q, rw e (All-states_play (Whole q) retire_writes g (retire_writes-Keeps q g h)))
  IsPlayed-AllWhole a now m g g' (q, h) (inr (inl (ps, e))) = (
    q,
    rw e (
        All-states_play (Whole q) (retire_writes ++ remaining_writes now ps) g (
          Keeps-append (Whole q) _ _ (retire_writes-Keeps q)
            (Each-Keeps (Whole q) _ (remaining_writes-Each now q ps)) g h)),
  )
  IsPlayed-AllWhole a now m g g' (q, h) (inr (inr (p, scan, vs, bonded, _, e))) =
      let ws =
        cycle_writes now cfg.codec vs cfg.entity_map bonded p.quorum p.veto_threshold
          (tally_answer a) (votes_answer a) scan.active scan.recent_closed in
      elim (All-states_play (IsUniform q p.quorum) ws g (
        cycle_writes-IsUniform now cfg.codec vs cfg.entity_map bonded p.quorum p.veto_threshold
          (tally_answer a) (votes_answer a) scan.active scan.recent_closed q g h)) [
            | inl old ↦ (q, rw e old)
            | inr fresh ↦ (p.quorum, rw e fresh)
          ]

  collect_snapshot-AllWhole :
      (a : Answers W) (now : Time) (s : CollectorState W)
      → AllWhole s.governance
      → AllWhole (collect_snapshot cfg a now s).0.governance
  collect_snapshot-AllWhole a now s h =
      IsPlayed-AllWhole a now s.memory s.governance _ h (collect_snapshot-IsPlayed cfg a now s)

  new-Whole : (quorum : W) (resolver : Resolver) → Whole quorum (new resolver).governance
  unfolding new no_gauges Dict.lookup
  new-Whole quorum resolver id held = cc

  Runs-AllWhole :
      (interval : ℕ) (P : Answers W → Time → Type 0) (t0 : Time) (s0 : CollectorState W) (t : Time)
      (s : CollectorState W)
      → AllWhole s0.governance
      → Runs cfg interval P t0 s0 t s
      → AllWhole s.governance
  Runs-AllWhole interval P t0 s0 t s h started = h
  Runs-AllWhole interval P t0 s0 t s h (turn {t = t'} {s = s'} run a ended now p le due) =
      collect_snapshot-AllWhole a now s' (Runs-AllWhole interval P t0 s0 t' s' h run)

  -- From the start of the process on, after its first cycle and any number of further ones, each proposal
  -- that the gate holds stands beside its turnout, and all of them stand beside one quorum.
  pub process-AllWhole :
      (interval : ℕ) (P : Answers W → Time → Type 0) (resolver : Resolver) (a : Answers W)
      (t0 t : Time) (s : CollectorState W)
      → Runs cfg interval P t0 (collect_snapshot cfg a t0 (new resolver)).0 t s
      → AllWhole s.governance
  process-AllWhole interval P resolver a t0 t s run =
      Runs-AllWhole interval P t0 (collect_snapshot cfg a t0 (new resolver)).0 t s
        (collect_snapshot-AllWhole a t0 (new resolver)
          (f.of_nat 0, new-Whole (f.of_nat 0) resolver))
        run
