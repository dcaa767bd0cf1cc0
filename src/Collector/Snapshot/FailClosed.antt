-- ===== src/Collector/Snapshot/FailClosed.antt =====
-- What a cycle of `CollectSnapshot` leaves in the gate of the governance alerts.
use validator_health_collect.Base.{
  ◌⊎◌, none, ◌≡◌, refl, subst, sym, ◌∙◌, inl, inr, String, true, List, [], ◌∷◌, string_eq,
  Bool-cases, Option-cases,
}
use validator_health_collect.Base.Dict
use validator_health_collect.Base.Dict.{Dict}
use validator_health_collect.Base.Float.{Float64}
use validator_health_collect.Base.Results.{Result, ok, err, Result-cases}
use validator_health_collect.Go.Time.{Time}
use validator_health_collect.Validators.{Validator}
use validator_health_collect.Governance.Memory.{Memory}
use validator_health_collect.Governance.Scan.{ProposalScan}
use validator_health_collect.Queries.{QueryError}
use validator_health_collect.Governance.Gauges.{retire_live_proposal_series}
use validator_health_collect.Governance.Publish.{targets}
use validator_health_collect.Governance.Publish.Gate.{
  is_some, opened, analyze_proposals-live, analyze_proposals-remaining,
}
use validator_health_collect.Queries.Consensus.{ChainStatus, query_comet_status}
use validator_health_collect.Queries.Params.{GovParams, query_staking_pool, SlashingParams}
use validator_health_collect.Collector.Resolving.{resolve_endpoints}
use validator_health_collect.Collector.Concentration.{sort_validators}
use validator_health_collect.Collector.State.{Settings, CollectorState, Answers}
use validator_health_collect.Collector.Stages.{
  Reading, set_query_success, on_status, on_pool, read_governance, slashing_of, active_set,
  governance_ok, tally_answer, votes_answer, analysis_stage,
}
use validator_health_collect.Collector.Snapshot.{
  publish_sections, finish, from_pool, from_consensus, from_status, collect_snapshot,
}
use validator_health_collect.Collector.Snapshot.Outcome.{
  Scanned, Outcome, Faithful, read_governance-Faithful, analysis_stage-Outcome,
}

module _ {W : Type 0} ⦃f : Float64 W⦄ (cfg : Settings) (a : Answers W) (now : Time) where
  pub finish_lem :
      (r : Reading W) (active : List Validator) (bonded : W) (s : CollectorState W)
      → (finish cfg a now r active bonded s).0.governance
        ≡ (analysis_stage cfg a r (sort_validators W active) bonded s.governance).0
  unfolding finish
  finish_lem r active bonded s =
      elim (Bool-cases (
        governance_ok r
          (analysis_stage cfg a r (sort_validators W active) bonded s.governance).1)) [
            | inl e ↦ rw (e, finish) refl
            | inr e ↦ rw (e, finish) refl
          ]

  pub on_pool_lem :
      (r : Result QueryError W) (s : CollectorState W)
      → ((on_pool r s).0.memory ≡ s.memory) × ((on_pool r s).0.governance ≡ s.governance)
  unfolding on_pool
  on_pool_lem (ok tokens) s = (refl, refl)
  on_pool_lem (err e) s = (refl, refl)

  publish_sections-live :
      (r : Reading W) (p : SlashingParams W) (active : List Validator) (s : CollectorState W)
      → (publish_sections cfg a now r p active s).governance.proposal_live
        ≡ s.governance.proposal_live
  unfolding publish_sections
  publish_sections-live r p active s = refl

  from_pool-Outcome :
      (active : List Validator) (s : CollectorState W)
      → s.governance.proposal_live ≡ []
      → Outcome cfg a now s.memory (from_pool cfg a now active s).0.governance
  unfolding from_pool
  from_pool-Outcome active s empty =
      let (s1, bonded) = on_pool {W = W} (query_staking_pool a.staking_pool) s in
      let (memory, governance) = on_pool_lem (query_staking_pool a.staking_pool) s in
      let (s2, r) = read_governance cfg a now s1 in
      let (kept, faithful) = read_governance-Faithful cfg a now s1 in
      let empty2 : s2.governance.proposal_live ≡ [] = rw (kept, governance) empty in
      elim (Option-cases (slashing_of cfg a s2)) [
        | inl none_known ↦ rw (none_known, from_pool) (inl empty2)
        | inr (p, e) ↦
            let s3 = publish_sections cfg a now r p active s2 in
            let empty3 : s3.governance.proposal_live ≡ [] =
              publish_sections-live r p active s2 ∙ empty2 in
            rw (e, from_pool)
              (rw (finish_lem r active bonded s3) (
                analysis_stage-Outcome cfg a now s.memory r (sort_validators W active) bonded
                  s3.governance empty3 (subst (λ m. Faithful cfg a now m r) memory faithful)))
      ]

  pub on_status_lem :
      (r : Result QueryError ChainStatus) (s : CollectorState W)
      → ((on_status r s).memory ≡ s.memory) × ((on_status r s).governance ≡ s.governance)
  unfolding on_status set_query_success
  on_status_lem (ok status) s = (refl, refl)
  on_status_lem (err e) s = (refl, refl)

  from_status-Outcome :
      (s : CollectorState W)
      → s.governance.proposal_live ≡ []
      → Outcome cfg a now s.memory (from_status cfg a now s).0.governance
  unfolding from_status from_consensus set_query_success tally_answer votes_answer
  from_status-Outcome s empty =
      let s1 = on_status (query_comet_status a.status) s in
      let (memory, governance) = on_status_lem (query_comet_status a.status) s in
      let empty1 : s1.governance.proposal_live ≡ [] = rw governance empty in
      elim (Result-cases a.bonded_validators) [
        | inr (e, h) ↦ rw (h, from_status) (inl empty1)
        | inl (bonded, h) ↦ elim (Result-cases a.consensus_set) [
          | inr (e, k) ↦ rw (h, k, from_status, from_consensus) (inl empty1)
          | inl ([], k) ↦ rw (h, k, from_status, from_consensus) (inl empty1)
          | inl (v ∷ vs, k) ↦
              let s2 = set_query_success "rest" 1 s1 in
              let out = from_pool-Outcome (active_set cfg (v ∷ vs) bonded) s2 empty1 in
              rw (h, k, from_status, from_consensus)
                (subst
                  (λ m.
                    Outcome cfg a now m
                      (from_pool cfg a now (active_set cfg (v ∷ vs) bonded) s2).0.governance)
                  memory out)
        ]
      ]

  collect_snapshot-Outcome :
      (s : CollectorState W)
      → Outcome cfg a now s.memory (collect_snapshot cfg a now s).0.governance
  unfolding collect_snapshot retire_live_proposal_series
  collect_snapshot-Outcome s =
      let (clients, failure) = resolve_endpoints a.servers a.registry s.clients now in
      let s' : CollectorState W = record s {
        governance = retire_live_proposal_series s.governance;
        clients = clients;
      } in
      elim (Option-cases failure) [
        | inl e ↦ rw (e, collect_snapshot) (from_status-Outcome s' refl)
        | inr (x, e) ↦ rw (e, collect_snapshot) (inl refl)
      ]

  -- A proposal whose vote is open in this cycle's scan, and whose analysis has succeeded.
  abbrev pub IsOpened : Memory → String → Type 0
  IsOpened m id =
      (p : GovParams W) × (scan : ProposalScan) × (validators : List Validator) × (bonded : W)
      × Scanned cfg a now m p scan
      × (opened cfg.codec validators cfg.entity_map bonded p.quorum p.veto_threshold
            (tally_answer a) (votes_answer a) id (targets scan.active scan.recent_closed)
          ≡ true)

  -- However a cycle ends, and whatever the gauges held before, the gate of the alerts does not hold a
  -- proposal, or this cycle has read the parameters and scanned the proposals, the scan has listed this
  -- one with an open vote, and its analysis has succeeded.
  pub collect_snapshot-IsOpened :
      (s : CollectorState W) (id : String)
      → (Dict.lookup id (collect_snapshot cfg a now s).0.governance.proposal_live ≡ none)
        ⊎ IsOpened s.memory id
  unfolding Dict.lookup
  collect_snapshot-IsOpened s id = elim (collect_snapshot-Outcome s) [
    | inl empty ↦ inl (rw empty refl)
    | inr (p, scan, validators, bonded, g, read, e) ↦
        let live =
          analyze_proposals-live cfg.codec validators cfg.entity_map bonded p.quorum
            p.veto_threshold (tally_answer a) (votes_answer a) scan.active scan.recent_closed g
            id in
        elim (Option-cases
          (Dict.lookup id (collect_snapshot cfg a now s).0.governance.proposal_live)) [
            | inl absent ↦ inl absent
            | inr (one, held) ↦ inr (
              p,
              scan,
              validators,
              bonded,
              read,
              sym live
                  ∙ subst (λ h. is_some (Dict.lookup id h.proposal_live) ≡ true) e (rw held refl),
            )
          ]
  ]

  -- However a cycle ends, the gate holds no proposal, or no proposal has a series of the seconds that
  -- remain: the analysis resets this series, which the cycle has set just before.
  pub collect_snapshot-remaining :
      (s : CollectorState W)
      → ((collect_snapshot cfg a now s).0.governance.proposal_live ≡ [])
        ⊎ ((collect_snapshot cfg a now s).0.governance.seconds_remaining ≡ [])
  collect_snapshot-remaining s = elim (collect_snapshot-Outcome s) [
    | inl empty ↦ inl empty
    | inr (p, scan, validators, bonded, g, read, e) ↦ inr (
        rw e (
          analyze_proposals-remaining cfg.codec validators cfg.entity_map bonded p.quorum
            p.veto_threshold (tally_answer a) (votes_answer a) scan.active scan.recent_closed g))
  ]
