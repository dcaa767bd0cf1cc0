-- ===== src/Collector/Snapshot/Outcome.antt =====
-- What the governance stages of `CollectSnapshot` leave in the gauges.
use validator_health_collect.Base.{
  subst, ℕ, ◌-◌, ◌≡◌, refl, ◌⊎◌, inl, inr, false, none, some, List, [], arith, string_eq,
  Bool-cases,
}
use validator_health_collect.Base.Float.{Float64}
use validator_health_collect.Base.Results.{Result, ok, err}
use validator_health_collect.Go.Time.{Time}
use validator_health_collect.Validators.{Validator}
use validator_health_collect.Governance.Memory.{Memory, record_proposal_scan}
use validator_health_collect.Governance.Scan.{ProposalScan, ScanError}
use validator_health_collect.Governance.Proposal.{proposal_scan_floor}
use validator_health_collect.Queries.{QueryError}
use validator_health_collect.Governance.Gauges.{GovernanceGauges}
use validator_health_collect.Governance.Publish.{analyze_proposals}
use validator_health_collect.Queries.Params.{GovParams, no_gov_params, query_gov_params}
use validator_health_collect.Collector.State.{Settings, CollectorState, Answers}
use validator_health_collect.Collector.Stages.{
  is_err, Reading, ok_value, ok_or, on_params, on_scan, read_governance, tally_answer, votes_answer,
  analysis_stage,
}

module _ {W : Type 0} ⦃f : Float64 W⦄ (cfg : Settings) (a : Answers W) (now : Time) where
  -- This cycle's scan, made with the parameters of this cycle and the highest ID that was known.
  abbrev pub Scanned : Memory → GovParams W → ProposalScan → Type 0
  Scanned m p scan =
      (query_gov_params a.gov_params ≡ ok p)
      × (a.relevant_proposals (now - cfg.proposal_history_window) p.proposal_lifespan
            m.highest_proposal_id
          ≡ ok scan)

  -- Gauges that come from an analysis of this cycle's proposals.
  abbrev pub Analyzed : Memory → GovernanceGauges W → Type 0
  Analyzed m g' =
      (p : GovParams W) × (scan : ProposalScan) × (validators : List Validator) × (bonded : W)
      × (g : GovernanceGauges W) × Scanned m p scan
      × (g'
          ≡ (analyze_proposals cfg.codec validators cfg.entity_map bonded p.quorum p.veto_threshold
              (tally_answer a) (votes_answer a) scan.active scan.recent_closed g).0)

  -- The gate is empty, or it comes from such an analysis.
  abbrev pub Outcome : Memory → GovernanceGauges W → Type 0
  Outcome m g = (g.proposal_live ≡ []) ⊎ Analyzed m g

  -- What a scan says of the proposals that no node can decode.
  abbrev pub verdict_of : Memory → GovParams W → ProposalScan → Result (List ℕ) (Unit {0})
  verdict_of m p scan =
      (record_proposal_scan m scan
        (proposal_scan_floor (now - cfg.proposal_history_window) p.proposal_lifespan) now).1

  -- What a reading that is complete has read.
  abbrev pub Faithful : Memory → Reading W → Type 0
  Faithful m r =
      ((r.scanned ≡ false) ⊎ (r.params ≡ none))
      ⊎ ((p : GovParams W) × (scan : ProposalScan) × Scanned m p scan
          × (r.params ≡ some p)
          × (r.active ≡ scan.active)
          × (r.recent_closed ≡ scan.recent_closed)
          × (r.unreadable ≡ is_err (verdict_of m p scan)))

  on_scan_lem :
      (pr : Result QueryError (GovParams W)) (sr : Result ScanError ProposalScan) (floor : Time)
      (s : CollectorState W)
      → let x = on_scan (ok_value pr) sr floor now (on_params pr s) in
        (x.0.governance ≡ s.governance)
        × (((x.1.scanned ≡ false) ⊎ (x.1.params ≡ none))
            ⊎ ((p : GovParams W) × (scan : ProposalScan) × (pr ≡ ok p)
                × (sr ≡ ok scan)
                × (x.1.params ≡ some p)
                × (x.1.active ≡ scan.active)
                × (x.1.recent_closed ≡ scan.recent_closed)
                × (x.1.unreadable ≡ is_err (record_proposal_scan s.memory scan floor now).1)))
  unfolding on_scan on_params
  on_scan_lem (err e) (err e') floor s = (refl, inl (inl refl))
  on_scan_lem (err e) (ok scan) floor s = (refl, inl (inr refl))
  on_scan_lem (ok p) (err e') floor s = (refl, inl (inl refl))
  on_scan_lem (ok p) (ok scan) floor s = (refl, inr (p, scan, refl, refl, refl, refl, refl, refl))

  pub read_governance-Faithful :
      (s : CollectorState W)
      → ((read_governance cfg a now s).0.governance ≡ s.governance)
        × Faithful s.memory (read_governance cfg a now s).1
  unfolding read_governance
  read_governance-Faithful s =
      let pr : Result QueryError (GovParams W) = query_gov_params a.gov_params in
      let lifespan = (ok_or no_gov_params pr).proposal_lifespan in
      let cutoff = now - cfg.proposal_history_window in
      let sr = a.relevant_proposals cutoff lifespan s.memory.highest_proposal_id in
      let floor_of : Result QueryError (GovParams W) → ProposalScan → Type 0 = λ params scan.
        (read_governance cfg a now s).1.unreadable
        ≡ is_err
            (record_proposal_scan s.memory scan
              (proposal_scan_floor cutoff (ok_or no_gov_params params).proposal_lifespan) now).1 in
      let (same, cases) = on_scan_lem pr sr (proposal_scan_floor cutoff lifespan) s in
      (
        same,
        elim cases [
          | inl bad ↦ inl bad
          | inr (p, scan, h, k, q, active, closed, unread) ↦
              inr
                (p, scan, (h, rw h at k), q, active, closed, subst (λ x. floor_of x scan) h unread)
        ],
      )

  pub analysis_stage-Outcome :
      (m : Memory) (r : Reading W) (validators : List Validator) (bonded : W)
      (g : GovernanceGauges W)
      → g.proposal_live ≡ []
      → Faithful m r
      → Outcome m (analysis_stage cfg a r validators bonded g).0
  unfolding analysis_stage
  analysis_stage-Outcome m r validators bonded g empty (inl bad) = inl (ground (arith, empty, bad))
  analysis_stage-Outcome m r validators bonded g empty (inr (p, scan, read, h, q, k, _)) =
      elim (Bool-cases r.scanned) [
        | inr e ↦ inl (ground (arith, empty, e, h))
        | inl e ↦ elim (Bool-cases (f.lt (f.of_nat 0) bonded)) [
          | inr none_bonded ↦ inl (ground (arith, empty, e, h, none_bonded))
          | inl some_bonded ↦ inr (
            p,
            scan,
            validators,
            bonded,
            g,
            read,
            rw (h, e, some_bonded, q, k, analysis_stage) refl,
          )
        ]
      ]
