-- ===== src/Governance/Publish/Gate.antt =====
-- The gate of the alerts that `analyzeProposals` publishes.
use validator_health_collect.Base.{
  ◌≡◌, refl, ◌≢◌, ◌⊎◌, inl, inr, String, Bool, true, false, ◌&&◌, ◌||◌, Option, none, some, List,
  [], ◌∷◌, arith, ◌==◌, string_eq, if◌then◌else◌, All,
}
use validator_health_collect.Base.Dict
use validator_health_collect.Base.Dict.{Dict, lookup-insert}
use validator_health_collect.Base.Float.{Float64}
use validator_health_collect.Base.Results.{Result, ok, err, Result-cases}
use validator_health_collect.Address.{Codec}
use validator_health_collect.Validators.{Validator}
use validator_health_collect.Governance.Proposal.{Proposal, status_voting_period}
use validator_health_collect.Governance.Vote.{GovVote, ProposalAnalysis, AnalysisError, Tally}
use validator_health_collect.Governance.Analysis.{
  analyze_proposal, aggregate_of, with_votes, attribute, unattributed,
}
use validator_health_collect.Governance.Gauges.{
  GovernanceGauges, reset_proposal_analysis_series, no_gauges,
}
use validator_health_collect.Governance.Publish.{
  targets, publish_live, publish_analysis, analysis_of, publish_targets, analyze_proposals,
}

abbrev pub is_some : {A : Type 0} → Option A → Bool
is_some none = false
is_some (some a) = true

abbrev pub is_ok : {E A : Type 0} → Result E A → Bool
is_ok (ok a) = true
is_ok (err e) = false

abbrev pub is_open : Proposal → Bool
is_open p = p.status == status_voting_period

module _ {W : Type 0} ⦃f : Float64 W⦄ (c : Codec) (validators : List Validator)
    (entity_map : Dict String String) (bonded quorum threshold : W)
    (live_tally : String → Result AnalysisError (Tally W))
    (current_votes : String → Option (Dict String (GovVote W))) where
  abbrev analyze : Proposal → Result AnalysisError (ProposalAnalysis W)
  analyze = analysis_of c validators entity_map bonded quorum threshold live_tally current_votes

  abbrev run :
      List Proposal → GovernanceGauges W → GovernanceGauges W × List (String × AnalysisError)
  run = publish_targets c validators entity_map bonded quorum threshold live_tally current_votes

  -- Whether a list has a proposal with an id whose vote is open and whose analysis succeeds.
  abbrev pub opened : String → List Proposal → Bool
  opened id [] = false
  opened id (p ∷ ps) = (p.id == id && is_open p && is_ok (analyze p)) || opened id ps

  analysis_of-is_live :
      (p : Proposal) (x : ProposalAnalysis W) → analyze p ≡ ok x → x.aggregate.is_live ≡ is_open p
  unfolding analysis_of analyze_proposal aggregate_of with_votes attribute unattributed
  analysis_of-is_live p x h = ground arith

  -- What an analysis does to the three gauges that the alerts read.
  publish_analysis-live :
      (id : String) (p : Proposal) (x : ProposalAnalysis W) (g : GovernanceGauges W)
      → analyze p ≡ ok x
      → is_some (Dict.lookup id (publish_analysis p.id bonded quorum threshold x g).proposal_live)
        ≡ (p.id == id && is_open p || is_some (Dict.lookup id g.proposal_live))
  unfolding publish_analysis publish_live
  publish_analysis-live id p x g h =
      ground (arith, analysis_of-is_live p x h, lookup-insert id p.id (f.of_nat 1) g.proposal_live)

  publish_targets-live :
      (id : String) (ps : List Proposal) (g : GovernanceGauges W)
      → is_some (Dict.lookup id (run ps g).0.proposal_live)
        ≡ (opened id ps || is_some (Dict.lookup id g.proposal_live))
  unfolding publish_targets
  publish_targets-live id [] g = refl
  publish_targets-live id (p ∷ ps) g = elim (Result-cases (analyze p)) [
    | inr (e, h) ↦ rw (h, publish_targets) (ground (arith, publish_targets-live id ps g))
    | inl (x, h) ↦
        let g' = publish_analysis p.id bonded quorum threshold x g in
        rw (h, publish_targets)
          (ground (arith, publish_targets-live id ps g', publish_analysis-live id p x g h))
  ]

  -- After `analyzeProposals` the gate of the alerts holds a proposal just if it is one of the targets,
  -- its vote is open, and its analysis has succeeded, whatever the gauges held before.
  pub analyze_proposals-live :
      (active closed : List Proposal) (g : GovernanceGauges W) (id : String)
      → is_some (
          Dict.lookup id
            (analyze_proposals c validators entity_map bonded quorum threshold live_tally
              current_votes active closed g).0.proposal_live)
        ≡ opened id (targets active closed)
  unfolding analyze_proposals reset_proposal_analysis_series no_gauges Dict.lookup
  analyze_proposals-live active closed g id =
      ground (arith, publish_targets-live id (targets active closed) no_gauges)

  -- The gate of a proposal stands beside its turnout and the quorum that it is compared with.
  abbrev pub IsGated : String → GovernanceGauges W → Type 0
  IsGated id g =
      (is_some (Dict.lookup id g.turnout) ≡ is_some (Dict.lookup id g.proposal_live))
      × (Dict.lookup id g.live_quorum
          ≡ (if is_some (Dict.lookup id g.proposal_live) then some quorum else none))

  publish_analysis-IsGated :
      (id id' : String) (x : ProposalAnalysis W) (g : GovernanceGauges W)
      → IsGated id g
      → IsGated id (publish_analysis id' bonded quorum threshold x g)
  unfolding publish_analysis publish_live
  publish_analysis-IsGated id id' x g h = ground (
    arith,
    lookup-insert id id' (f.of_nat 1) g.proposal_live,
    lookup-insert id id' x.aggregate.final_turnout g.turnout,
    lookup-insert id id' quorum g.live_quorum,
  )

  publish_targets-IsGated :
      (id : String) (ps : List Proposal) (g : GovernanceGauges W)
      → IsGated id g
      → IsGated id (run ps g).0
  unfolding publish_targets
  publish_targets-IsGated id [] g h = h
  publish_targets-IsGated id (p ∷ ps) g h = elim (Result-cases (analyze p)) [
    | inr (e, q) ↦ rw (q, publish_targets) (publish_targets-IsGated id ps g h)
    | inl (x, q) ↦
        rw (q, publish_targets)
          (publish_targets-IsGated id ps (publish_analysis p.id bonded quorum threshold x g)
            (publish_analysis-IsGated id p.id x g h))
  ]

  -- After `analyzeProposals` a proposal has a turnout for the alerts just if the gate holds it, and then
  -- the quorum beside it is the one that the analysis was given.
  pub analyze_proposals-IsGated :
      (active closed : List Proposal) (g : GovernanceGauges W) (id : String)
      → IsGated id
          (analyze_proposals c validators entity_map bonded quorum threshold live_tally
            current_votes active closed g).0
  unfolding analyze_proposals reset_proposal_analysis_series no_gauges Dict.lookup
  analyze_proposals-IsGated active closed g id =
      publish_targets-IsGated id (targets active closed) no_gauges (refl, refl)

  -- The analysis has succeeded, or the vote is not open.
  abbrev pub IsSettled : Proposal → Type 0
  IsSettled p = (is_ok (analyze p) ≡ true) ⊎ (p.status ≢ status_voting_period)

  publish_targets-IsSettled :
      (ps : List Proposal) (g : GovernanceGauges W) → (run ps g).1 ≡ [] → All IsSettled ps
  unfolding publish_targets
  publish_targets-IsSettled [] g e = tt
  publish_targets-IsSettled (p ∷ ps) g e = elim (Result-cases (analyze p)) [
    | inl (x, q) ↦ (
      inl (rw q refl),
      publish_targets-IsSettled ps (publish_analysis p.id bonded quorum threshold x g)
          (rw (q, publish_targets) at e),
    )
    | inr (x, q) ↦
        let e' = rw (q, publish_targets) at e in
        elim (string_eq.dec p.status status_voting_period) [
          | yes same ↦ ground (arith, e', same)
          | no shut ↦ (inr shut, publish_targets-IsSettled ps g (ground (arith, e', shut)))
        ]
  ]

  -- If `analyzeProposals` reports no error, each target whose vote is open has been analyzed.
  pub analyze_proposals-IsSettled :
      (active closed : List Proposal) (g : GovernanceGauges W)
      → (analyze_proposals c validators entity_map bonded quorum threshold live_tally current_votes
          active closed g).1
        ≡ []
      → All IsSettled (targets active closed)
  unfolding analyze_proposals
  analyze_proposals-IsSettled active closed g e =
      publish_targets-IsSettled (targets active closed) (reset_proposal_analysis_series g) e

  publish_targets-remaining :
      (ps : List Proposal) (g : GovernanceGauges W)
      → (run ps g).0.seconds_remaining ≡ g.seconds_remaining
  unfolding publish_targets publish_analysis publish_live
  publish_targets-remaining [] g = refl
  publish_targets-remaining (p ∷ ps) g = elim (Result-cases (analyze p)) [
    | inr (e, h) ↦ rw (h, publish_targets) (publish_targets-remaining ps g)
    | inl (x, h) ↦
        let g' = publish_analysis p.id bonded quorum threshold x g in
        rw (h, publish_targets) (ground (arith, publish_targets-remaining ps g'))
  ]

  pub analyze_proposals-remaining :
      (active closed : List Proposal) (g : GovernanceGauges W)
      → (analyze_proposals c validators entity_map bonded quorum threshold live_tally current_votes
          active closed g).0.seconds_remaining
        ≡ []
  unfolding analyze_proposals reset_proposal_analysis_series no_gauges
  analyze_proposals-remaining active closed g =
      publish_targets-remaining (targets active closed) no_gauges
