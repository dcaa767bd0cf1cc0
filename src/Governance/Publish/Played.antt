-- ===== src/Governance/Publish/Played.antt =====
-- That the writes of `analyzeProposals` add up to what it does to the gauges.
use validator_health_collect.Base.{
  Option, ◌≡◌, refl, String, List, [], ◌∷◌, arith, if◌then◌else◌, string_eq, pair_eq, inl, inr,
  Bool-cases,
}
use validator_health_collect.Base.Dict
use validator_health_collect.Base.Dict.{Dict}
use validator_health_collect.Base.Float.{Float64}
use validator_health_collect.Base.Results.{Result, Result-cases}
use validator_health_collect.Address.{Codec}
use validator_health_collect.Validators.{Validator}
use validator_health_collect.Governance.Gauges.{
  GovernanceGauges, no_gauges, retire_live_proposal_series, reset_proposal_analysis_series,
}
use validator_health_collect.Governance.Proposal.{Proposal}
use validator_health_collect.Governance.Vote.{GovVote, ProposalAnalysis, AnalysisError, Tally}
use validator_health_collect.Governance.Veto.{EntityVetoCapability, analyze_proposal_veto}
use validator_health_collect.Governance.Publish.{
  targets, kind_label, bool_gauge, veto_gauge, set_capabilities, set_entity_votes, set_non_voters,
  publish_live, publish_analysis, analysis_of, publish_targets, analyze_proposals,
}
use validator_health_collect.Base.Trace.{play, play-append}
use validator_health_collect.Governance.Publish.Writes.{
  retire_writes, reset_writes, capability_writes, entity_vote_writes, non_voter_writes,
  attribution_writes, live_writes, quorum_writes, info_writes, tally_writes, veto_writes,
  count_writes, window_writes, detail_writes, analysis_writes, target_writes, analyze_writes,
}

module _ {W : Type 0} where
  pub play-retire_writes :
      (g : GovernanceGauges W) → play retire_writes g ≡ retire_live_proposal_series g
  unfolding retire_writes retire_live_proposal_series
  play-retire_writes g = refl

  pub play-reset_writes :
      (g : GovernanceGauges W) → play reset_writes g ≡ reset_proposal_analysis_series g
  unfolding reset_writes retire_writes reset_proposal_analysis_series no_gauges
  play-reset_writes g = refl

module _ {W : Type 0} ⦃f : Float64 W⦄ where
  play-capability_writes :
      (id : String) (cs : List (EntityVetoCapability W)) (g : GovernanceGauges W)
      → play (capability_writes id cs) g
        ≡ record g { entity_veto_capability = set_capabilities id cs g.entity_veto_capability }
  unfolding capability_writes set_capabilities
  play-capability_writes id [] g = refl
  play-capability_writes id (c ∷ cs) g = play-capability_writes id cs (record g {
    entity_veto_capability =
        Dict.insert (id, (c.entity, kind_label c.kind)) c.ratio g.entity_veto_capability;
  })

  play-entity_vote_writes :
      (id : String) (bonded : W) (ps : Dict (String × String) W) (g : GovernanceGauges W)
      → play (entity_vote_writes id bonded ps) g
        ≡ record g { entity_vote = set_entity_votes id bonded ps g.entity_vote }
  unfolding entity_vote_writes set_entity_votes
  play-entity_vote_writes id bonded [] g = refl
  play-entity_vote_writes id bonded (((entity, option), power) ∷ ps) g =
      play-entity_vote_writes id bonded ps (record g {
        entity_vote = Dict.insert (id, (entity, option)) (f.div power bonded) g.entity_vote;
      })

  play-non_voter_writes :
      (id : String) (bonded : W) (ps : Dict String W) (g : GovernanceGauges W)
      → play (non_voter_writes id bonded ps) g
        ≡ record g { non_voter_power = set_non_voters id bonded ps g.non_voter_power }
  unfolding non_voter_writes set_non_voters
  play-non_voter_writes id bonded [] g = refl
  play-non_voter_writes id bonded ((entity, power) ∷ ps) g =
      elim (Bool-cases (f.lt (f.div power bonded) (f.ratio 5 10000))) [
        | inl few ↦ rw (few) (play-non_voter_writes id bonded ps g)
        | inr many ↦ rw (many) (
            play-non_voter_writes id bonded ps (record g {
              non_voter_power = Dict.insert (id, entity) (f.div power bonded) g.non_voter_power;
            }))
      ]

  play-veto_writes :
      (id : String) (x : ProposalAnalysis W) (threshold : W) (g : GovernanceGauges W)
      → let (ratio, met, state, capabilities) = analyze_proposal_veto x threshold in
        play (veto_writes id x threshold) g ≡ record g {
          proposal_veto_ratio = Dict.insert id ratio g.proposal_veto_ratio;
          proposal_quorum_met = Dict.insert id (bool_gauge met) g.proposal_quorum_met;
          proposal_veto_state = Dict.insert id (veto_gauge state) g.proposal_veto_state;
          entity_veto_capability = set_capabilities id capabilities g.entity_veto_capability;
        }
  unfolding veto_writes
  play-veto_writes id x threshold g = rw play-capability_writes

  play-attribution_writes :
      (id : String) (x : ProposalAnalysis W) (g : GovernanceGauges W)
      → play (attribution_writes id x) g ≡ record g {
        attribution_complete =
            if x.aggregate.is_live
            then Dict.insert id (bool_gauge x.attribution_complete) g.attribution_complete
            else g.attribution_complete;
      }
  unfolding attribution_writes
  play-attribution_writes id x g = ground arith

  play-live_writes :
      (id : String) (quorum : W) (x : ProposalAnalysis W) (g : GovernanceGauges W)
      → play (live_writes id quorum x) (record g {
        attribution_complete =
            if x.aggregate.is_live
            then Dict.insert id (bool_gauge x.attribution_complete) g.attribution_complete
            else g.attribution_complete;
      })
        ≡ publish_live id quorum x g
  unfolding live_writes publish_live
  play-live_writes id quorum x g = ground arith

  play-analysis_writes :
      (id : String) (bonded quorum threshold : W) (x : ProposalAnalysis W) (g : GovernanceGauges W)
      → play (analysis_writes id bonded quorum threshold x) g
        ≡ publish_analysis id bonded quorum threshold x g
  unfolding analysis_writes detail_writes publish_analysis info_writes quorum_writes tally_writes
      count_writes window_writes
  play-analysis_writes id bonded quorum threshold x g =
      rw
        (
          play-append, detail_writes, play-append, play-append, play-append, play-append,
          play-append, play-append, play-append, play-append, play-attribution_writes,
          play-veto_writes, play-entity_vote_writes, play-non_voter_writes, publish_analysis,
        )
        (play-live_writes id quorum x _)

  module _ (c : Codec) (validators : List Validator) (entity_map : Dict String String)
      (bonded quorum threshold : W) (live_tally : String → Result AnalysisError (Tally W))
      (current_votes : String → Option (Dict String (GovVote W))) where
    play-target_writes :
        (ps : List Proposal) (g : GovernanceGauges W)
        → play
            (target_writes c validators entity_map bonded quorum threshold live_tally current_votes
              ps)
            g
          ≡ (publish_targets c validators entity_map bonded quorum threshold live_tally
              current_votes ps g).0
    unfolding target_writes publish_targets
    play-target_writes [] g = refl
    play-target_writes (p ∷ ps) g =
        elim (Result-cases (
          analysis_of c validators entity_map bonded quorum threshold live_tally current_votes p)) [
            | inr (e, h) ↦ rw (h, target_writes, publish_targets) (play-target_writes ps g)
            | inl (x, h) ↦
                rw (h, target_writes, publish_targets, play-append, play-analysis_writes)
                  (play-target_writes ps (publish_analysis p.id bonded quorum threshold x g))
          ]

    -- The calls of `analyzeProposals`, made one after the other, leave the gauges that it publishes.
    pub play-analyze_writes :
        (active closed : List Proposal) (g : GovernanceGauges W)
        → play
            (analyze_writes c validators entity_map bonded quorum threshold live_tally current_votes
              active closed)
            g
          ≡ (analyze_proposals c validators entity_map bonded quorum threshold live_tally
              current_votes active closed g).0
    unfolding analyze_writes analyze_proposals
    play-analyze_writes active closed g =
        rw (play-append, play-reset_writes)
          (play-target_writes (targets active closed) (reset_proposal_analysis_series g))
