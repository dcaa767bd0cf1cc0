-- ===== src/Governance/Publish/Writes.antt =====
-- `analyzeProposals` of collector/collector.go call by call. The gauges are registered in place, without a
-- lock, so a read may come between any two calls of `Set` or `Reset`: here each call is a write of
-- its own, in the order of the code.
use validator_health_collect.Base.{
  Option, String, List, [], ◌∷◌, ◌++◌, ◌<>◌, length, if◌then◌else◌, string_eq, pair_eq,
}
use validator_health_collect.Base.Dict
use validator_health_collect.Base.Dict.{Dict}
use validator_health_collect.Base.Float.{Float64}
use validator_health_collect.Base.Results.{Result, ok, err}
use validator_health_collect.Go.Time.{unix_seconds}
use validator_health_collect.Address.{Codec}
use validator_health_collect.Validators.{Validator}
use validator_health_collect.Governance.Gauges.{GovernanceGauges}
use validator_health_collect.Governance.Proposal.{Proposal}
use validator_health_collect.Governance.Vote.{
  GovVote, Aggregate, ProposalAnalysis, AnalysisError, Tally,
}
use validator_health_collect.Governance.Veto.{
  EntityVetoCapability, power_by_entity, analyze_proposal_veto,
}
use validator_health_collect.Governance.Publish.{
  targets, cut_title, kind_label, bool_gauge, veto_gauge, by_entity_option, analysis_of,
}

-- One call of `Set` or `Reset`.
abbrev pub Write : Type 0 → Type 0
Write W = GovernanceGauges W → GovernanceGauges W

module _ {W : Type 0} where
  -- `retireLiveProposalSeries`, the gate first
  unfoldable pub retire_writes : List (Write W)
  retire_writes =
      (λ g. record g { proposal_live = [] })
      ∷ (λ g. record g { seconds_remaining = [] })
      ∷ (λ g. record g { turnout = [] })
      ∷ (λ g. record g { live_quorum = [] })
      ∷ []

  -- `resetProposalAnalysisSeries`
  unfoldable pub reset_writes : List (Write W)
  reset_writes =
      (λ g. record g { proposal_info = [] })
      ∷ (λ g. record g { proposal_quorum = [] })
      ∷ (λ g. record g { proposal_tally = [] })
      ∷ (λ g. record g { entity_vote = [] })
      ∷ (λ g. record g { proposal_veto_ratio = [] })
      ∷ (λ g. record g { proposal_quorum_met = [] })
      ∷ (λ g. record g { proposal_veto_state = [] })
      ∷ (λ g. record g { entity_veto_capability = [] })
      ∷ (λ g. record g { non_voter_power = [] })
      ∷ (λ g. record g { window = [] })
      ∷ (λ g. record g { participation_count = [] })
      ∷ (λ g. record g { attribution_complete = [] })
      ∷ (λ g. record g { quorum_buffer = [] })
      ∷ (λ g. record g { quorum_target = [] })
      ∷ retire_writes

module _ {W : Type 0} ⦃f : Float64 W⦄ where
  unfoldable pub capability_writes : String → List (EntityVetoCapability W) → List (Write W)
  capability_writes id [] = []
  capability_writes id (c ∷ cs) =
      (λ g. record g {
        entity_veto_capability =
            Dict.insert (id, (c.entity, kind_label c.kind)) c.ratio g.entity_veto_capability;
      })
      ∷ capability_writes id cs

  unfoldable pub entity_vote_writes : String → W → Dict (String × String) W → List (Write W)
  entity_vote_writes id bonded [] = []
  entity_vote_writes id bonded (((entity, option), power) ∷ ps) =
      (λ g. record g {
        entity_vote = Dict.insert (id, (entity, option)) (f.div power bonded) g.entity_vote;
      })
      ∷ entity_vote_writes id bonded ps

  unfoldable pub non_voter_writes : String → W → Dict String W → List (Write W)
  non_voter_writes id bonded [] = []
  non_voter_writes id bonded ((entity, power) ∷ ps) =
      let rest = non_voter_writes id bonded ps in
      if f.lt (f.div power bonded) (f.ratio 5 10000)
      then rest
      else (λ g. record g {
        non_voter_power = Dict.insert (id, entity) (f.div power bonded) g.non_voter_power;
      })
        ∷ rest

  -- The first block under `analysis.IsLive`.
  unfoldable pub attribution_writes : String → ProposalAnalysis W → List (Write W)
  attribution_writes id x =
      if x.aggregate.is_live
      then (λ g. record g {
        attribution_complete =
            Dict.insert id (bool_gauge x.attribution_complete) g.attribution_complete;
      })
        ∷ []
      else []

  -- The second one: the turnout, the quorum, and the gate last.
  unfoldable pub live_writes : String → W → ProposalAnalysis W → List (Write W)
  live_writes id quorum x =
      if x.aggregate.is_live
      then (λ g. record g { turnout = Dict.insert id x.aggregate.final_turnout g.turnout })
        ∷ (λ g. record g { live_quorum = Dict.insert id quorum g.live_quorum })
        ∷ (λ g. record g { proposal_live = Dict.insert id (f.of_nat 1) g.proposal_live })
        ∷ []
      else []

  unfoldable pub quorum_writes : String → W → Aggregate W → List (Write W)
  quorum_writes id quorum a =
      (λ g. record g {
        quorum_target = Dict.insert id (f.add quorum (f.ratio 1 10)) g.quorum_target;
      })
      ∷ (λ g. record g {
        quorum_buffer = Dict.insert id (f.sub a.final_turnout quorum) g.quorum_buffer;
      })
      ∷ []

  unfoldable pub info_writes : String → W → Aggregate W → List (Write W)
  info_writes id quorum a =
      let title = cut_title a.title in
      let selector =
        "#" <> id <> " | " <> (if a.is_live then "LIVE" else a.status) <> " | " <> title in
      (λ g. record g {
        proposal_info =
            Dict.insert (id, (title, (a.status, selector))) a.final_turnout g.proposal_info;
      })
      ∷ (λ g. record g { proposal_quorum = Dict.insert id quorum g.proposal_quorum })
      ∷ []

  unfoldable pub tally_writes : String → W → Aggregate W → List (Write W)
  tally_writes id bonded a =
      (λ g. record g {
        proposal_tally = Dict.insert (id, "Yes") (f.div a.yes bonded) g.proposal_tally;
      })
      ∷ (λ g. record g {
        proposal_tally = Dict.insert (id, "No") (f.div a.against bonded) g.proposal_tally;
      })
      ∷ (λ g. record g {
        proposal_tally = Dict.insert (id, "Abstain") (f.div a.abstain bonded) g.proposal_tally;
      })
      ∷ (λ g. record g {
        proposal_tally = Dict.insert (id, "No with veto") (f.div a.veto bonded) g.proposal_tally;
      })
      ∷ []

  unfoldable pub veto_writes : String → ProposalAnalysis W → W → List (Write W)
  veto_writes id x threshold =
      let (ratio, met, state, capabilities) = analyze_proposal_veto x threshold in
      (λ g. record g { proposal_veto_ratio = Dict.insert id ratio g.proposal_veto_ratio })
      ∷ (λ g. record g {
        proposal_quorum_met = Dict.insert id (bool_gauge met) g.proposal_quorum_met;
      })
      ∷ (λ g. record g {
        proposal_veto_state = Dict.insert id (veto_gauge state) g.proposal_veto_state;
      })
      ∷ capability_writes id capabilities

  unfoldable pub count_writes : String → ProposalAnalysis W → List (Write W)
  count_writes id x =
      let by_entity = power_by_entity (λ v. v.voting_power) x.voted [] in
      let non_voter_by_entity = power_by_entity (λ v. v.voting_power) x.non_voters [] in
      (λ g. record g {
        participation_count =
            Dict.insert (id, "Voted") (f.of_nat (length by_entity)) g.participation_count;
      })
      ∷ (λ g. record g {
        participation_count =
            Dict.insert (id, "Did not vote") (f.of_nat (length non_voter_by_entity))
              g.participation_count;
      })
      ∷ []

  unfoldable pub window_writes : String → Aggregate W → List (Write W)
  window_writes id a =
      (λ g. record g { window = Dict.insert (id, "start") (unix_seconds a.voting_start) g.window })
      ∷ (λ g. record g { window = Dict.insert (id, "end") (unix_seconds a.voting_end) g.window })
      ∷ []

  -- What is told of a proposal before its vote is asked for: none of it is read by the alerts of the
  -- gate.
  unfoldable pub detail_writes : String → W → W → W → ProposalAnalysis W → List (Write W)
  detail_writes id bonded quorum threshold x =
      let a = x.aggregate in
      let by_entity = by_entity_option x.voted [] in
      let non_voter_by_entity = power_by_entity (λ v. v.voting_power) x.non_voters [] in
      info_writes id quorum a
      ++ (attribution_writes id x
          ++ (quorum_writes id quorum a
              ++ (tally_writes id bonded a
                  ++ (veto_writes id x threshold
                      ++ (entity_vote_writes id bonded by_entity
                          ++ (non_voter_writes id bonded non_voter_by_entity
                              ++ (count_writes id x ++ window_writes id a)))))))

  -- The body of the loop over the targets, once the analysis has succeeded.
  unfoldable pub analysis_writes : String → W → W → W → ProposalAnalysis W → List (Write W)
  analysis_writes id bonded quorum threshold x =
      detail_writes id bonded quorum threshold x ++ live_writes id quorum x

  module _ (c : Codec) (validators : List Validator) (entity_map : Dict String String)
      (bonded quorum threshold : W) (live_tally : String → Result AnalysisError (Tally W))
      (current_votes : String → Option (Dict String (GovVote W))) where
    -- An analysis that fails writes nothing.
    unfoldable pub target_writes : List Proposal → List (Write W)
    target_writes [] = []
    target_writes (p ∷ ps) =
        elim (analysis_of c validators entity_map bonded quorum threshold live_tally current_votes
          p) [
            | ok x ↦ analysis_writes p.id bonded quorum threshold x ++ target_writes ps
            | err e ↦ target_writes ps
          ]

    unfoldable pub analyze_writes : List Proposal → List Proposal → List (Write W)
    analyze_writes active closed = reset_writes ++ target_writes (targets active closed)
