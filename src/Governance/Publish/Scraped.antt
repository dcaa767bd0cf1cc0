-- ===== src/Governance/Publish/Scraped.antt =====
-- The state of the gate between two writes of `analyzeProposals`.
use validator_health_collect.Base.{
  All-append, some, Option, ◌≡◌, String, true, List, [], ◌∷◌, arith, string_eq, pair_eq, inl, inr,
  Bool-cases,
}
use validator_health_collect.Base.Dict
use validator_health_collect.Base.Dict.{lookup-insert, Dict}
use validator_health_collect.Base.Float.{Float64}
use validator_health_collect.Base.Results.{Result, Result-cases}
use validator_health_collect.Address.{Codec}
use validator_health_collect.Validators.{Validator}
use validator_health_collect.Governance.Gauges.{GovernanceGauges}
use validator_health_collect.Governance.Proposal.{Proposal}
use validator_health_collect.Governance.Vote.{
  GovVote, Aggregate, ProposalAnalysis, AnalysisError, Tally,
}
use validator_health_collect.Governance.Veto.{EntityVetoCapability}
use validator_health_collect.Governance.Publish.{analysis_of}
use validator_health_collect.Base.Trace.{Keeps, Keeps-append, Each, Each-Keeps}
use validator_health_collect.Governance.Publish.Writes.{
  capability_writes, entity_vote_writes, non_voter_writes, attribution_writes, live_writes,
  quorum_writes, info_writes, tally_writes, veto_writes, count_writes, window_writes, detail_writes,
  analysis_writes, target_writes,
}
use validator_health_collect.Governance.Publish.Gate.{is_some}

module _ {W : Type 0} ⦃f : Float64 W⦄ (quorum : W) where
  -- Each proposal that the gate holds has its turnout and this quorum beside it.
  abbrev pub Whole : GovernanceGauges W → Type 0
  Whole g =
      (id : String)
      → is_some (Dict.lookup id g.proposal_live) ≡ true
      → (is_some (Dict.lookup id g.turnout) ≡ true) × (Dict.lookup id g.live_quorum ≡ some quorum)

  info_writes-Each : (id : String) (a : Aggregate W) → Each Whole (info_writes id quorum a)
  unfolding info_writes
  info_writes-Each id a = (λ g h. h, (λ g h. h, tt))

  attribution_writes-Each :
      (id : String) (x : ProposalAnalysis W) → Each Whole (attribution_writes id x)
  unfolding attribution_writes
  attribution_writes-Each id x = elim (Bool-cases x.aggregate.is_live) [
    | inl live ↦ rw (live, attribution_writes) (λ g h. h, tt)
    | inr closed ↦ rw (closed, attribution_writes) tt
  ]

  quorum_writes-Each : (id : String) (a : Aggregate W) → Each Whole (quorum_writes id quorum a)
  unfolding quorum_writes
  quorum_writes-Each id a = (λ g h. h, (λ g h. h, tt))

  tally_writes-Each :
      (id : String) (bonded : W) (a : Aggregate W) → Each Whole (tally_writes id bonded a)
  unfolding tally_writes
  tally_writes-Each id bonded a = (λ g h. h, (λ g h. h, (λ g h. h, (λ g h. h, tt))))

  capability_writes-Each :
      (id : String) (cs : List (EntityVetoCapability W)) → Each Whole (capability_writes id cs)
  unfolding capability_writes
  capability_writes-Each id [] = tt
  capability_writes-Each id (c ∷ cs) = (λ g h. h, capability_writes-Each id cs)

  veto_writes-Each :
      (id : String) (x : ProposalAnalysis W) (threshold : W)
      → Each Whole (veto_writes id x threshold)
  unfolding veto_writes
  veto_writes-Each id x threshold = (λ g h. h, (λ g h. h, (λ g h. h, capability_writes-Each id _)))

  entity_vote_writes-Each :
      (id : String) (bonded : W) (ps : Dict (String × String) W)
      → Each Whole (entity_vote_writes id bonded ps)
  unfolding entity_vote_writes
  entity_vote_writes-Each id bonded [] = tt
  entity_vote_writes-Each id bonded (((entity, option), power) ∷ ps) =
      (λ g h. h, entity_vote_writes-Each id bonded ps)

  non_voter_writes-Each :
      (id : String) (bonded : W) (ps : Dict String W) → Each Whole (non_voter_writes id bonded ps)
  unfolding non_voter_writes
  non_voter_writes-Each id bonded [] = tt
  non_voter_writes-Each id bonded ((entity, power) ∷ ps) =
      elim (Bool-cases (f.lt (f.div power bonded) (f.ratio 5 10000))) [
        | inl few ↦ rw few (non_voter_writes-Each id bonded ps)
        | inr many ↦ rw many (λ g h. h, non_voter_writes-Each id bonded ps)
      ]

  count_writes-Each : (id : String) (x : ProposalAnalysis W) → Each Whole (count_writes id x)
  unfolding count_writes
  count_writes-Each id x = (λ g h. h, (λ g h. h, tt))

  window_writes-Each : (id : String) (a : Aggregate W) → Each Whole (window_writes id a)
  unfolding window_writes
  window_writes-Each id a = (λ g h. h, (λ g h. h, tt))

  detail_writes-Each :
      (id : String) (bonded threshold : W) (x : ProposalAnalysis W)
      → Each Whole (detail_writes id bonded quorum threshold x)
  unfolding detail_writes
  detail_writes-Each id bonded threshold x = All-append _ _ _ (info_writes-Each id x.aggregate) (
      All-append _ _ _ (attribution_writes-Each id x) (
        All-append _ _ _ (quorum_writes-Each id x.aggregate) (
          All-append _ _ _ (tally_writes-Each id bonded x.aggregate) (
            All-append _ _ _ (veto_writes-Each id x threshold) (
              All-append _ _ _ (entity_vote_writes-Each id bonded _) (
                All-append _ _ _ (non_voter_writes-Each id bonded _) (
                  All-append _ _ _ (count_writes-Each id x)
                    (window_writes-Each id x.aggregate))))))))

  -- The turnout and the quorum are there before the gate.
  live_writes-Keeps : (id : String) (x : ProposalAnalysis W) → Keeps Whole (live_writes id quorum x)
  unfolding live_writes
  live_writes-Keeps id x g h =
      let t = λ (j : String). lookup-insert j id x.aggregate.final_turnout g.turnout in
      let q = λ (j : String). lookup-insert j id quorum g.live_quorum in
      let l = λ (j : String). lookup-insert j id (f.of_nat 1) g.proposal_live in
      elim (Bool-cases x.aggregate.is_live) [
        | inl live ↦
            rw (live, live_writes)
              (
                h,
                (
                  λ j held. ground (arith, t j, h j),
                  (
                    λ j held. ground (arith, t j, q j, h j),
                    (λ j held. ground (arith, t j, q j, l j, h j), tt),
                  ),
                ),
              )
        | inr closed ↦ rw (closed, live_writes) (h, tt)
      ]

  module _ (c : Codec) (validators : List Validator) (entity_map : Dict String String)
      (bonded threshold : W) (live_tally : String → Result AnalysisError (Tally W))
      (current_votes : String → Option (Dict String (GovVote W))) where
    pub target_writes-Keeps :
        (ps : List Proposal)
        → Keeps Whole (
            target_writes c validators entity_map bonded quorum threshold live_tally current_votes
              ps)
    unfolding target_writes analysis_writes
    target_writes-Keeps [] g h = (h, tt)
    target_writes-Keeps (p ∷ ps) g h =
        elim (Result-cases (
          analysis_of c validators entity_map bonded quorum threshold live_tally current_votes p)) [
            | inr (e, k) ↦ rw (k, target_writes) (target_writes-Keeps ps g h)
            | inl (x, k) ↦
                rw (k, target_writes)
                  (Keeps-append Whole _ _
                    (Keeps-append Whole _ _
                      (Each-Keeps Whole _ (detail_writes-Each p.id bonded threshold x))
                      (live_writes-Keeps p.id x))
                    (target_writes-Keeps ps) g h)
          ]
