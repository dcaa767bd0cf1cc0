-- ===== src/Collector/Scraped/Played.antt =====
-- That the governance gauges after `CollectSnapshot` are what its writes have made of them.
use validator_health_collect.Base.{
  ◌≡◌, refl, sym, ap, ◌∙◌, ◌⊎◌, inl, inr, List, [], ◌∷◌, ◌++◌, arith, subst, string_eq, Bool-cases,
  Option-cases,
}
use validator_health_collect.Base.Float.{Float64}
use validator_health_collect.Base.Results.{Result-cases}
use validator_health_collect.Base.Trace.{play, play-append}
use validator_health_collect.Go.Time.{Time}
use validator_health_collect.Validators.{Validator}
use validator_health_collect.Governance.Memory.{Memory}
use validator_health_collect.Governance.Scan.{ProposalScan}
use validator_health_collect.Governance.Proposal.{Proposal}
use validator_health_collect.Governance.Gauges.{GovernanceGauges, retire_live_proposal_series}
use validator_health_collect.Governance.Publish.Writes.{retire_writes}
use validator_health_collect.Governance.Publish.Played.{play-retire_writes}
use validator_health_collect.Queries.Consensus.{query_comet_status}
use validator_health_collect.Queries.Params.{GovParams, query_staking_pool, SlashingParams}
use validator_health_collect.Collector.Resolving.{resolve_endpoints}
use validator_health_collect.Collector.Concentration.{sort_validators}
use validator_health_collect.Collector.State.{Settings, CollectorState, Answers}
use validator_health_collect.Collector.Stages.{
  Reading, set_query_success, on_status, on_pool, read_governance, slashing_of, active_set,
  tally_answer, votes_answer, analysis_stage, set_remaining,
}
use validator_health_collect.Collector.Snapshot.{
  publish_sections, from_pool, from_consensus, from_status, collect_snapshot,
}
use validator_health_collect.Collector.Snapshot.Outcome.{
  Scanned, Faithful, read_governance-Faithful,
}
use validator_health_collect.Collector.Snapshot.FailClosed.{finish_lem, on_pool_lem, on_status_lem}
use validator_health_collect.Collector.Scraped.{
  remaining_writes, play-remaining_writes, cycle_writes, play-cycle_writes,
}

module _ {W : Type 0} ⦃f : Float64 W⦄ (cfg : Settings) (a : Answers W) (now : Time) where
  -- The cycle has retired the gate alone; or it has set the seconds that remain, too; or it has made all
  -- governance writes, for the proposals of its scan.
  abbrev pub IsPlayed : Memory → GovernanceGauges W → GovernanceGauges W → Type 0
  IsPlayed m g g' =
      (g' ≡ play retire_writes g)
      ⊎ ((active : List Proposal) × (g' ≡ play (retire_writes ++ remaining_writes now active) g))
      ⊎ ((p : GovParams W) × (scan : ProposalScan) × (validators : List Validator) × (bonded : W)
          × Scanned cfg a now m p scan
          × (g'
              ≡ play
                  (cycle_writes now cfg.codec validators cfg.entity_map bonded p.quorum
                    p.veto_threshold (tally_answer a) (votes_answer a) scan.active
                    scan.recent_closed)
                  g))

  -- The gauges with which the analysis starts.
  abbrev remaining : List Proposal → GovernanceGauges W → GovernanceGauges W
  remaining ps g = record g { seconds_remaining = set_remaining now ps g.seconds_remaining }

  remaining-Played :
      (ps : List Proposal) (g : GovernanceGauges W)
      → remaining ps (retire_live_proposal_series g)
        ≡ play (retire_writes ++ remaining_writes now ps) g
  remaining-Played ps g = rw (play-append, play-retire_writes, play-remaining_writes) refl

  analysis_stage-IsPlayed :
      (m : Memory) (r : Reading W) (validators : List Validator) (bonded : W)
      (g : GovernanceGauges W)
      → Faithful cfg a now m r
      → IsPlayed m g
          (analysis_stage cfg a r validators bonded
            (remaining r.active (retire_live_proposal_series g))).0
  unfolding analysis_stage
  analysis_stage-IsPlayed m r validators bonded g (inl bad) =
      inr (inl (r.active, ground (arith, bad, remaining-Played r.active g)))
  analysis_stage-IsPlayed m r validators bonded g (inr (p, scan, read, h, q, k, _)) =
      let partial = remaining-Played r.active g in
      elim (Bool-cases r.scanned) [
        | inr e ↦ inr (inl (r.active, ground (arith, e, h, partial)))
        | inl e ↦ elim (Bool-cases (f.lt (f.of_nat 0) bonded)) [
          | inr none_bonded ↦ inr (inl (r.active, ground (arith, e, h, none_bonded, partial)))
          | inl some_bonded ↦ inr (
              inr (
                p,
                scan,
                validators,
                bonded,
                read,
                rw (h, e, some_bonded, q, k, analysis_stage)
                    (sym (
                      play-cycle_writes now cfg.codec validators cfg.entity_map bonded p.quorum
                        p.veto_threshold (tally_answer a) (votes_answer a) scan.active
                        scan.recent_closed g)),
              ))
        ]
      ]

  publish_sections-governance :
      (r : Reading W) (p : SlashingParams W) (active : List Validator) (s : CollectorState W)
      → (publish_sections cfg a now r p active s).governance ≡ remaining r.active s.governance
  unfolding publish_sections
  publish_sections-governance r p active s = refl

  -- The stages after the gate has been retired.
  from_pool-IsPlayed :
      (active : List Validator) (s : CollectorState W) (g : GovernanceGauges W)
      → s.governance ≡ retire_live_proposal_series g
      → IsPlayed s.memory g (from_pool cfg a now active s).0.governance
  unfolding from_pool
  from_pool-IsPlayed active s g retired =
      let (s1, bonded) = on_pool {W = W} (query_staking_pool a.staking_pool) s in
      let (memory, governance) = on_pool_lem cfg a now (query_staking_pool a.staking_pool) s in
      let (s2, r) = read_governance cfg a now s1 in
      let (kept, faithful) = read_governance-Faithful cfg a now s1 in
      let start : s2.governance ≡ retire_live_proposal_series g = kept ∙ (governance ∙ retired) in
      elim (Option-cases (slashing_of cfg a s2)) [
        | inl none_known ↦ rw (none_known, from_pool) (inl (start ∙ sym (play-retire_writes g)))
        | inr (p, e) ↦
            let vs = sort_validators W active in
            let s3 = publish_sections cfg a now r p active s2 in
            let begun : s3.governance ≡ remaining r.active (retire_live_proposal_series g) =
              publish_sections-governance r p active s2 ∙ ap (remaining r.active) start in
            let done =
              analysis_stage-IsPlayed s.memory r vs bonded g
                (subst (λ m. Faithful cfg a now m r) memory faithful) in
            rw (e, from_pool)
              (subst (IsPlayed s.memory g)
                (sym (
                  finish_lem cfg a now r active bonded s3
                  ∙ ap (λ h. (analysis_stage cfg a r vs bonded h).0) begun))
                done)
      ]

  from_status-IsPlayed :
      (s : CollectorState W) (g : GovernanceGauges W)
      → s.governance ≡ retire_live_proposal_series g
      → IsPlayed s.memory g (from_status cfg a now s).0.governance
  unfolding from_status from_consensus set_query_success tally_answer votes_answer
  from_status-IsPlayed s g retired =
      let s1 = on_status (query_comet_status a.status) s in
      let (memory, governance) = on_status_lem cfg a now (query_comet_status a.status) s in
      let start = governance ∙ retired in
      let early = start ∙ sym (play-retire_writes g) in
      elim (Result-cases a.bonded_validators) [
        | inr (e, h) ↦ rw (h, from_status) (inl early)
        | inl (bonded, h) ↦ elim (Result-cases a.consensus_set) [
          | inr (e, k) ↦ rw (h, k, from_status, from_consensus) (inl early)
          | inl ([], k) ↦ rw (h, k, from_status, from_consensus) (inl early)
          | inl (v ∷ vs, k) ↦
              let s2 = set_query_success "rest" 1 s1 in
              let active = active_set cfg (v ∷ vs) bonded in
              rw (h, k, from_status, from_consensus)
                (subst (λ m. IsPlayed m g (from_pool cfg a now active s2).0.governance) memory
                  (from_pool-IsPlayed active s2 g start))
        ]
      ]

  pub collect_snapshot-IsPlayed :
      (s : CollectorState W)
      → IsPlayed s.memory s.governance (collect_snapshot cfg a now s).0.governance
  unfolding collect_snapshot
  collect_snapshot-IsPlayed s =
      let (clients, failure) = resolve_endpoints a.servers a.registry s.clients now in
      let s' : CollectorState W = record s {
        governance = retire_live_proposal_series s.governance;
        clients = clients;
      } in
      elim (Option-cases failure) [
        | inl e ↦ rw (e, collect_snapshot) (from_status-IsPlayed s' s.governance refl)
        | inr (x, e) ↦ rw (e, collect_snapshot) (inl (sym (play-retire_writes s.governance)))
      ]
