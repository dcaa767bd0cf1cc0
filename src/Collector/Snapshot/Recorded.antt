-- ===== src/Collector/Snapshot/Recorded.antt =====
-- What `CollectSnapshot` does to the memory of proposals.
use validator_health_collect.Base.{
  ℕ, ◌-◌, ◌≡◌, refl, ◌⊎◌, inl, inr, subst, Option, List, [], ◌∷◌, string_eq, Bool-cases,
  Option-cases,
}
use validator_health_collect.Base.Float.{Float64}
use validator_health_collect.Base.Results.{Result, ok, err, Result-cases}
use validator_health_collect.Go.Time.{Time}
use validator_health_collect.Validators.{Validator}
use validator_health_collect.Governance.Memory.{Memory, record_proposal_scan}
use validator_health_collect.Governance.Gauges.{retire_live_proposal_series}
use validator_health_collect.Governance.Scan.{ProposalScan, ScanError}
use validator_health_collect.Governance.Proposal.{proposal_scan_floor}
use validator_health_collect.Queries.{QueryError}
use validator_health_collect.Queries.Consensus.{ChainStatus, query_comet_status}
use validator_health_collect.Queries.Params.{
  GovParams, no_gov_params, query_gov_params, query_staking_pool,
}
use validator_health_collect.Collector.Resolving.{resolve_endpoints}
use validator_health_collect.Collector.Concentration.{sort_validators}
use validator_health_collect.Collector.State.{Settings, CollectorState, Answers}
use validator_health_collect.Collector.Stages.{
  Reading, ok_or, ok_value, set_query_success, on_status, on_pool, on_params, on_scan,
  read_governance, slashing_of, active_set, governance_ok, analysis_stage,
}
use validator_health_collect.Collector.Snapshot.{
  publish_sections, finish, from_pool, from_consensus, from_status, collect_snapshot,
}

module _ {W : Type 0} ⦃f : Float64 W⦄ where
  -- The lifespan of a proposal as a cycle reads it, or 0.
  abbrev pub lifespan_read : Answers W → ℕ
  lifespan_read a = (ok_or no_gov_params (query_gov_params {W = W} a.gov_params)).proposal_lifespan

module _ {W : Type 0} ⦃f : Float64 W⦄ (cfg : Settings) (a : Answers W) (now : Time) where
  -- The memory is the old one, or a scan of this cycle has been recorded in it.
  abbrev pub Recorded : Memory → Memory → Type 0
  Recorded m m' =
      (m' ≡ m)
      ⊎ ((scan : ProposalScan) × (a.relevant_proposals (now - cfg.proposal_history_window)
              (lifespan_read a) m.highest_proposal_id
            ≡ ok scan)
          × (m'
              ≡ (record_proposal_scan m scan
                  (proposal_scan_floor (now - cfg.proposal_history_window) (lifespan_read a))
                  now).0))

  on_scan-memory :
      (po : Option (GovParams W)) (pr : Result QueryError (GovParams W))
      (sr : Result ScanError ProposalScan) (floor : Time) (s : CollectorState W)
      → ((on_scan po sr floor now (on_params pr s)).0.memory ≡ s.memory)
        ⊎ ((scan : ProposalScan) × (sr ≡ ok scan)
            × ((on_scan po sr floor now (on_params pr s)).0.memory
                ≡ (record_proposal_scan s.memory scan floor now).0))
  unfolding on_scan on_params
  on_scan-memory po (err e) (err e') floor s = inl refl
  on_scan-memory po (ok p) (err e') floor s = inl refl
  on_scan-memory po (err e) (ok scan) floor s = inr (scan, refl, refl)
  on_scan-memory po (ok p) (ok scan) floor s = inr (scan, refl, refl)

  read_governance-Recorded :
      (s : CollectorState W) → Recorded s.memory (read_governance cfg a now s).0.memory
  unfolding read_governance
  read_governance-Recorded s =
      on_scan-memory (ok_value (query_gov_params a.gov_params)) (query_gov_params a.gov_params) _ _
        s

  finish-memory :
      (r : Reading W) (active : List Validator) (bonded : W) (s : CollectorState W)
      → (finish cfg a now r active bonded s).0.memory ≡ s.memory
  unfolding finish
  finish-memory r active bonded s =
      elim (Bool-cases (
        governance_ok r
          (analysis_stage cfg a r (sort_validators W active) bonded s.governance).1)) [
            | inl e ↦ rw (e, finish) refl
            | inr e ↦ rw (e, finish) refl
          ]

  on_pool-memory :
      (r : Result QueryError W) (s : CollectorState W) → (on_pool r s).0.memory ≡ s.memory
  unfolding on_pool
  on_pool-memory (ok tokens) s = refl
  on_pool-memory (err e) s = refl

  from_pool-Recorded :
      (active : List Validator) (s : CollectorState W)
      → Recorded s.memory (from_pool cfg a now active s).0.memory
  unfolding from_pool publish_sections
  from_pool-Recorded active s =
      let (s1, bonded) = on_pool {W = W} (query_staking_pool a.staking_pool) s in
      let (s2, r) = read_governance cfg a now s1 in
      let read =
        subst (λ m. Recorded m s2.memory) (on_pool-memory (query_staking_pool a.staking_pool) s)
          (read_governance-Recorded s1) in
      elim (Option-cases (slashing_of cfg a s2)) [
        | inl none_known ↦ rw (none_known, from_pool) read
        | inr (p, e) ↦
            rw (e, from_pool)
              (rw (finish-memory r active bonded (publish_sections cfg a now r p active s2)) read)
      ]

  on_status-memory :
      (r : Result QueryError ChainStatus) (s : CollectorState W) → (on_status r s).memory ≡ s.memory
  unfolding on_status set_query_success
  on_status-memory (ok status) s = refl
  on_status-memory (err e) s = refl

  from_status-Recorded :
      (s : CollectorState W) → Recorded s.memory (from_status cfg a now s).0.memory
  unfolding from_status from_consensus set_query_success
  from_status-Recorded s =
      let s1 = on_status (query_comet_status a.status) s in
      let kept = on_status-memory (query_comet_status a.status) s in
      elim (Result-cases a.bonded_validators) [
        | inr (e, h) ↦ rw (h, from_status) (inl kept)
        | inl (bonded, h) ↦ elim (Result-cases a.consensus_set) [
          | inr (e, k) ↦ rw (h, k, from_status, from_consensus) (inl kept)
          | inl ([], k) ↦ rw (h, k, from_status, from_consensus) (inl kept)
          | inl (v ∷ vs, k) ↦
              let s2 = set_query_success "rest" 1 s1 in
              rw (h, k, from_status, from_consensus)
                (subst
                  (λ m.
                    Recorded m (from_pool cfg a now (active_set cfg (v ∷ vs) bonded) s2).0.memory)
                  kept (from_pool-Recorded (active_set cfg (v ∷ vs) bonded) s2))
        ]
      ]

  -- However a cycle ends, the memory is the old one, or the cycle has scanned the proposals, from the
  -- cutoff and the lifespan that it has read, and has recorded that scan in it.
  pub collect_snapshot-Recorded :
      (s : CollectorState W) → Recorded s.memory (collect_snapshot cfg a now s).0.memory
  unfolding collect_snapshot
  collect_snapshot-Recorded s =
      let (clients, failure) = resolve_endpoints a.servers a.registry s.clients now in
      let s' : CollectorState W = record s {
        governance = retire_live_proposal_series s.governance;
        clients = clients;
      } in
      elim (Option-cases failure) [
        | inl e ↦ rw (e, collect_snapshot) (from_status-Recorded s')
        | inr (x, e) ↦ rw (e, collect_snapshot) (inl refl)
      ]
