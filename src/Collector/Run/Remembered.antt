-- ===== src/Collector/Run/Remembered.antt =====
-- A run during which an open proposal cannot be decoded.
use validator_health_collect.Base.{ℕ, ◌≤◌, ◌≡◌, refl, ◌∙◌, inl, inr, ap, subst, sym}
use validator_health_collect.Base.Float.{Float64}
use validator_health_collect.Base.Results.{ok}
use validator_health_collect.Go.Time.{Time}
use validator_health_collect.Governance.Proposal.{Proposal}
use validator_health_collect.Governance.Scan.{ProposalScan}
use validator_health_collect.Governance.Hidden.{
  Remembers, Voting, Hides, record_proposal_scan-Hides,
}
use validator_health_collect.Queries.Params.{GovParams, no_gov_params, query_gov_params}
use validator_health_collect.Collector.State.{Settings, CollectorState, Answers}
use validator_health_collect.Collector.Stages.{ok_or}
use validator_health_collect.Collector.Snapshot.{collect_snapshot}
use validator_health_collect.Collector.Snapshot.Success.{collect_snapshot-Reports}
use validator_health_collect.Collector.Snapshot.Recorded.{lifespan_read, collect_snapshot-Recorded}
use validator_health_collect.Collector.Run.{Runs, started, turn}

module _ {W : Type 0} ⦃f : Float64 W⦄ (cfg : Settings) (id : ℕ) (p : Proposal) (end : Time) where
  -- A cycle while the vote may be open, whose scans report the ID as unreadable.
  pub record Hiding (a : Answers W) (now : Time) : Type 0 where
    pub hidden :
        (cutoff : Time) (lifespan known : ℕ) (scan : ProposalScan)
        → a.relevant_proposals cutoff lifespan known ≡ ok scan
        → Hides id scan
    pub voting : Voting p end (lifespan_read a)
    pub early : now ≤ end

  collect_snapshot-Remembers :
      (a : Answers W) (now : Time) (s : CollectorState W)
      → Hiding a now
      → Remembers id p s.memory
      → Remembers id p (collect_snapshot cfg a now s).0.memory
  collect_snapshot-Remembers a now s h r = elim (collect_snapshot-Recorded cfg a now s) [
    | inl same ↦ subst (Remembers id p) (sym same) r
    | inr (scan, read, told) ↦
        subst (Remembers id p) (sym told)
          (record_proposal_scan-Hides id p end now cfg.proposal_history_window (lifespan_read a)
            h.voting h.early s.memory scan r (h.hidden _ _ _ scan read)).0
  ]

  -- The lifespan that the scan was made with is the one that the cycle has read.
  read_lifespan :
      (a : Answers W) (g : GovParams W)
      → query_gov_params a.gov_params ≡ ok g
      → lifespan_read a ≡ g.proposal_lifespan
  read_lifespan a g e = ap (λ r. (ok_or no_gov_params r).proposal_lifespan) e

  collect_snapshot-last_success :
      (a : Answers W) (now : Time) (s : CollectorState W)
      → Hiding a now
      → Remembers id p s.memory
      → (collect_snapshot cfg a now s).0.last_success ≡ s.last_success
  collect_snapshot-last_success a now s h r = elim (collect_snapshot-Reports cfg a now s) [
    | inl kept ↦ kept
    | inr (_, _, _, (g, scan, _, _, (params, read), clear, _)) ↦
        let voting = subst (Voting p end) (read_lifespan a g params) h.voting in
        let (_, (ids, told)) =
          record_proposal_scan-Hides id p end now cfg.proposal_history_window g.proposal_lifespan
            voting h.early s.memory scan r (h.hidden _ _ _ scan read) in
        cc (rw told at clear)
  ]

  -- No open vote is lost from sight. If the collector remembers a proposal whose vote is open until a time
  -- that is within the lifespan of its first date, then during any run of cycles that start by that
  -- time and whose scans report its ID as unreadable, the collector keeps remembering it, and no
  -- cycle advances the time of the last success.
  pub Runs-Hiding :
      (interval : ℕ) (t0 : Time) (s0 : CollectorState W) (t : Time) (s : CollectorState W)
      → Remembers id p s0.memory
      → Runs cfg interval Hiding t0 s0 t s
      → Remembers id p s.memory × (s.last_success ≡ s0.last_success)
  Runs-Hiding interval t0 s0 t s r started = (r, refl)
  Runs-Hiding interval t0 s0 t s r (turn {t = t'} {s = s'} run a ended now h le due) =
      let (known, same) = Runs-Hiding interval t0 s0 t' s' r run in
      (
        collect_snapshot-Remembers a now s' h known,
        collect_snapshot-last_success a now s' h known ∙ same,
      )
