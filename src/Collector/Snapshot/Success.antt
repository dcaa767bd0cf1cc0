-- ===== src/Collector/Snapshot/Success.antt =====
-- When `CollectSnapshot` reports a success.
use validator_health_collect.Base.{
  ℕ, ◌≡◌, refl, subst, sym, ◌∙◌, ◌⊎◌, inl, inr, true, false, Option, some, List, [], ◌∷◌, arith,
  string_eq, All, Bool-cases, Option-cases,
}
use validator_health_collect.Base.Float.{Float64}
use validator_health_collect.Base.Results.{Result, ok, err, Result-cases}
use validator_health_collect.Go.Time.{Time, unix}
use validator_health_collect.Validators.{Validator}
use validator_health_collect.Governance.Memory.{Memory}
use validator_health_collect.Governance.Scan.{ProposalScan, ScanError}
use validator_health_collect.Governance.Gauges.{GovernanceGauges, retire_live_proposal_series}
use validator_health_collect.Governance.Publish.{targets}
use validator_health_collect.Governance.Publish.Gate.{IsSettled, analyze_proposals-IsSettled}
use validator_health_collect.Queries.{QueryError}
use validator_health_collect.Queries.Consensus.{ChainStatus, query_comet_status}
use validator_health_collect.Queries.Params.{GovParams, query_gov_params, query_staking_pool}
use validator_health_collect.Collector.Resolving.{resolve_endpoints}
use validator_health_collect.Collector.Concentration.{sort_validators}
use validator_health_collect.Collector.State.{Settings, CollectorState, Answers, SnapshotError}
use validator_health_collect.Collector.Stages.{
  Reading, ok_value, is_err, is_cons, set_query_success, on_status, on_pool, on_params, on_scan,
  read_governance, slashing_of, active_set, governance_ok, tally_answer, votes_answer,
  analysis_stage,
}
use validator_health_collect.Collector.Snapshot.{
  publish_sections, finish, from_pool, from_consensus, from_status, collect_snapshot,
}
use validator_health_collect.Collector.Snapshot.Outcome.{
  Scanned, Faithful, verdict_of, read_governance-Faithful,
}

module _ {W : Type 0} ⦃f : Float64 W⦄ (cfg : Settings) (a : Answers W) (now : Time) where
  -- This cycle has read and analyzed all of governance: no proposal that cannot be decoded may be open,
  -- and each one whose vote is open has been analyzed, or there is no active one.
  abbrev pub Complete : Memory → Type 0
  Complete m =
      (p : GovParams W) × (scan : ProposalScan) × (validators : List Validator) × (bonded : W)
      × Scanned cfg a now m p scan
      × (is_err (verdict_of cfg a now m p scan) ≡ false)
      × (All
            (IsSettled cfg.codec validators cfg.entity_map bonded p.quorum p.veto_threshold
              (tally_answer a) (votes_answer a))
            (targets scan.active scan.recent_closed)
          ⊎ (scan.active ≡ []))

  -- The time of the last success stays, or the cycle succeeds, is complete and sets it.
  abbrev pub Reports :
      Memory → Option ℕ → CollectorState W × Result SnapshotError (Unit {0}) → Type 0
  Reports m last (s', r) =
      (s'.last_success ≡ last)
      ⊎ ((s'.last_success ≡ some (unix now))
          × (r ≡ ok tt)
          × (s'.section_success ≡ some true)
          × Complete m)

  is_cons-nil : {A : Type 0} (xs : List A) → is_cons xs ≡ false → xs ≡ []
  is_cons-nil [] e = refl
  is_cons-nil (x ∷ xs) e = cc

  analysis_stage-Complete :
      (m : Memory) (r : Reading W) (validators : List Validator) (bonded : W)
      (g : GovernanceGauges W)
      → Faithful cfg a now m r
      → governance_ok r (analysis_stage cfg a r validators bonded g).1 ≡ true
      → Complete m
  unfolding governance_ok analysis_stage
  analysis_stage-Complete m r validators bonded g (inl (inl bad)) good = cc (rw bad at good)
  analysis_stage-Complete m r validators bonded g (inl (inr bad)) good = ground (arith, bad, good)
  analysis_stage-Complete m r validators bonded g (inr (p, scan, read, h, q, k, unread)) good =
      let scanned : r.scanned ≡ true = ground (arith, good) in
      let readable : r.unreadable ≡ false = ground (arith, good) in
      let fine : (analysis_stage cfg a r validators bonded g).1 ≡ false = ground (arith, good) in
      (
        p,
        scan,
        validators,
        bonded,
        read,
        sym unread ∙ readable,
        elim (Bool-cases (f.lt (f.of_nat 0) bonded)) [
          | inr none_bonded ↦
              inr (
                sym q ∙ is_cons-nil r.active (rw (h, scanned, none_bonded, analysis_stage) at fine))
          | inl some_bonded ↦
              let fine' = rw (h, scanned, some_bonded, q, k, analysis_stage) at fine in
              inl (
                analyze_proposals-IsSettled cfg.codec validators cfg.entity_map bonded p.quorum
                  p.veto_threshold (tally_answer a) (votes_answer a) scan.active scan.recent_closed
                  g (is_cons-nil _ fine'))
        ],
      )

  finish-Reports :
      (m : Memory) (r : Reading W) (active : List Validator) (bonded : W) (s : CollectorState W)
      → Faithful cfg a now m r
      → Reports m s.last_success (finish cfg a now r active bonded s)
  unfolding finish
  finish-Reports m r active bonded s faithful =
      let vs = sort_validators W active in
      elim (Bool-cases (governance_ok r (analysis_stage cfg a r vs bonded s.governance).1)) [
        | inl e ↦
            rw (e, finish)
              (inr
                (refl, refl, refl, analysis_stage-Complete m r vs bonded s.governance faithful e))
        | inr e ↦ rw (e, finish) (inl refl)
      ]

  on_pool-last :
      (r : Result QueryError W) (s : CollectorState W)
      → ((on_pool r s).0.memory ≡ s.memory) × ((on_pool r s).0.last_success ≡ s.last_success)
  unfolding on_pool
  on_pool-last (ok tokens) s = (refl, refl)
  on_pool-last (err e) s = (refl, refl)

  on_scan-last :
      (pr : Result QueryError (GovParams W)) (sr : Result ScanError ProposalScan) (floor : Time)
      (s : CollectorState W)
      → (on_scan (ok_value pr) sr floor now (on_params pr s)).0.last_success ≡ s.last_success
  unfolding on_scan on_params
  on_scan-last (err e) (err e') floor s = refl
  on_scan-last (err e) (ok scan) floor s = refl
  on_scan-last (ok p) (err e') floor s = refl
  on_scan-last (ok p) (ok scan) floor s = refl

  read_governance-last :
      (s : CollectorState W) → (read_governance cfg a now s).0.last_success ≡ s.last_success
  unfolding read_governance
  read_governance-last s = on_scan-last (query_gov_params a.gov_params) _ _ s

  from_pool-Reports :
      (active : List Validator) (s : CollectorState W)
      → Reports s.memory s.last_success (from_pool cfg a now active s)
  unfolding from_pool publish_sections
  from_pool-Reports active s =
      let (s1, bonded) = on_pool {W = W} (query_staking_pool a.staking_pool) s in
      let (memory, kept) = on_pool-last (query_staking_pool a.staking_pool) s in
      let (s2, r) = read_governance cfg a now s1 in
      let (_, faithful) = read_governance-Faithful cfg a now s1 in
      let kept2 : s2.last_success ≡ s.last_success = read_governance-last s1 ∙ kept in
      elim (Option-cases (slashing_of cfg a s2)) [
        | inl none_known ↦ rw (none_known, from_pool) (inl kept2)
        | inr (p, e) ↦
            let s3 = publish_sections cfg a now r p active s2 in
            let out = finish-Reports s1.memory r active bonded s3 faithful in
            rw (e, from_pool)
              (subst (λ m. Reports m s.last_success (finish cfg a now r active bonded s3)) memory
                (subst (λ l. Reports s1.memory l (finish cfg a now r active bonded s3)) kept2 out))
      ]

  on_status-last :
      (r : Result QueryError ChainStatus) (s : CollectorState W)
      → ((on_status r s).memory ≡ s.memory) × ((on_status r s).last_success ≡ s.last_success)
  unfolding on_status set_query_success
  on_status-last (ok status) s = (refl, refl)
  on_status-last (err e) s = (refl, refl)

  from_status-Reports :
      (s : CollectorState W) → Reports s.memory s.last_success (from_status cfg a now s)
  unfolding from_status from_consensus set_query_success tally_answer votes_answer
  from_status-Reports s =
      let s1 = on_status (query_comet_status a.status) s in
      let (memory, kept) = on_status-last (query_comet_status a.status) s in
      elim (Result-cases a.bonded_validators) [
        | inr (e, h) ↦ rw (h, from_status) (inl kept)
        | inl (bonded, h) ↦ elim (Result-cases a.consensus_set) [
          | inr (e, k) ↦ rw (h, k, from_status, from_consensus) (inl kept)
          | inl ([], k) ↦ rw (h, k, from_status, from_consensus) (inl kept)
          | inl (v ∷ vs, k) ↦
              let set = v ∷ vs in
              let s2 = set_query_success "rest" 1 s1 in
              let out = from_pool-Reports (active_set cfg set bonded) s2 in
              rw (h, k, from_status, from_consensus)
                (subst
                  (λ m.
                    Reports m s.last_success (from_pool cfg a now (active_set cfg set bonded) s2))
                  memory
                  (subst
                    (λ l. Reports s2.memory l (from_pool cfg a now (active_set cfg set bonded) s2))
                    kept out))
        ]
      ]

  -- A cycle leaves the time of the last success, or it ends with no error, has read the parameters and
  -- the proposals, has found no unreadable proposal that may be open, has analyzed each proposal whose
  -- vote is open unless none is active, and sets the time to now and the success of the section.
  pub collect_snapshot-Reports :
      (s : CollectorState W) → Reports s.memory s.last_success (collect_snapshot cfg a now s)
  unfolding collect_snapshot
  collect_snapshot-Reports s =
      let (clients, failure) = resolve_endpoints a.servers a.registry s.clients now in
      let s' : CollectorState W = record s {
        governance = retire_live_proposal_series s.governance;
        clients = clients;
      } in
      elim (Option-cases failure) [
        | inl e ↦ rw (e, collect_snapshot) (from_status-Reports s')
        | inr (x, e) ↦ rw (e, collect_snapshot) (inl refl)
      ]
