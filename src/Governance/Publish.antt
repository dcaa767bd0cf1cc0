-- ===== src/Governance/Publish.antt =====
-- `analyzeProposals` of collector/collector.go: it sets the governance gauges.
pub mod Gate
pub mod Writes
pub mod Played
pub mod Scraped
use Prim.Native.String
use validator_health_collect.Base.{
  ◌≡◌, refl, ◌-◌, ℕ, ◌+◌, String, ◌<>◌, Bool, true, false, Option, none, some, List, [], ◌∷◌, ◌++◌,
  ltb, length, ◌==◌, string_eq, pair_eq, if◌then◌else◌,
}
use validator_health_collect.Base.Dict
use validator_health_collect.Base.Dict.{Dict}
use validator_health_collect.Base.Float.{Float64}
use validator_health_collect.Base.Results.{Result, ok, err}
use validator_health_collect.Go.Text.{codes}
use validator_health_collect.Go.Time.{unix_seconds}
use validator_health_collect.Address.{Codec}
use validator_health_collect.Validators.{Validator}
use validator_health_collect.Governance.Gauges.{
  GovernanceGauges, no_gauges, retire_live_proposal_series, reset_proposal_analysis_series,
}
use validator_health_collect.Governance.Proposal.{Proposal, status_voting_period}
use validator_health_collect.Governance.Vote.{
  GovVote, Aggregate, ProposalAnalysis, AnalysisError, Tally, vote_weights,
}
use validator_health_collect.Governance.Veto.{
  VetoKind, actual, potential, VetoState, no_quorum, not_vetoed, vetoed, EntityVetoCapability,
  power_by_entity, analyze_proposal_veto,
}
use validator_health_collect.Governance.Analysis.{analyze_proposal}

-- The bytes of a character in UTF-8.
unfoldable pub char_bytes : ℕ → ℕ
char_bytes c = if ltb c 128 then 1 else (if ltb c 2048 then 2 else (if ltb c 65536 then 3 else 4))

-- How many characters lie whole in the first bytes of a text.
unfoldable pub whole_in : ℕ → List ℕ → ℕ
whole_in bytes [] = 0
whole_in bytes (c ∷ cs) =
    let rest = whole_in (bytes - char_bytes c) cs in
    if ltb bytes (char_bytes c) then 0 else rest + 1

-- title[:60], which counts bytes. Where it cuts through a character, the source makes a label that is not
-- UTF-8 and panics; here the first bytes of that character are left out.
unfoldable pub cut_title : String → String
cut_title title = String.slice title 0 (whole_in 60 (codes title))

abbrev sixty : String
sixty = "123456789012345678901234567890123456789012345678901234567890"

cut_titles :
    (cut_title (sixty <> "1") ≡ sixty)
    × (cut_title "Upgrade" ≡ "Upgrade")
    × (cut_title (sixty <> "é") ≡ sixty)
unfolding cut_title whole_in char_bytes
cut_titles = (refl, refl, refl)

abbrev pub kind_label : VetoKind → String
kind_label actual = "Already voting NoWithVeto"
kind_label potential = "Could veto if changed now"

-- The proposals to analyze: the active ones, and the closed ones that are none of them, each once.
unfoldable pub closed_targets : Dict String Bool → List Proposal → List Proposal
closed_targets seen [] = []
closed_targets seen (p ∷ ps) =
    if Dict.lookup_or false p.id seen
    then closed_targets seen ps
    else p ∷ closed_targets (Dict.insert p.id true seen) ps

unfoldable pub seen_ids : List Proposal → Dict String Bool → Dict String Bool
seen_ids [] seen = seen
seen_ids (p ∷ ps) seen = seen_ids ps (Dict.insert p.id true seen)

unfoldable pub targets : List Proposal → List Proposal → List Proposal
targets active closed = active ++ closed_targets (seen_ids active []) closed

module _ {W : Type 0} ⦃f : Float64 W⦄ where
  abbrev pub bool_gauge : Bool → W
  bool_gauge b = if b then f.of_nat 1 else f.of_nat 0

  abbrev pub veto_gauge : VetoState → W
  veto_gauge no_quorum = f.sub (f.of_nat 0) (f.of_nat 1)
  veto_gauge not_vetoed = f.of_nat 0
  veto_gauge vetoed = f.of_nat 1

  unfoldable pub set_capabilities :
      String
      → List (EntityVetoCapability W)
      → Dict (String × (String × String)) W
      → Dict (String × (String × String)) W
  set_capabilities id [] d = d
  set_capabilities id (c ∷ cs) d =
      set_capabilities id cs (Dict.insert (id, (c.entity, kind_label c.kind)) c.ratio d)

  -- `byEntityOption`: what each option of a vote adds.
  unfoldable pub add_weights :
      String → W → Dict String W → Dict (String × String) W → Dict (String × String) W
  add_weights entity power [] d = d
  add_weights entity power ((option, weight) ∷ ws) d = add_weights entity power ws (
      Dict.insert (entity, option)
        (f.add (Dict.lookup_or (f.of_nat 0) (entity, option) d) (f.mul power weight)) d)

  unfoldable pub by_entity_option :
      List (GovVote W) → Dict (String × String) W → Dict (String × String) W
  by_entity_option [] d = d
  by_entity_option (v ∷ vs) d =
      by_entity_option vs (add_weights v.entity v.voting_power (vote_weights v) d)

  unfoldable pub set_entity_votes :
      String
      → W
      → Dict (String × String) W
      → Dict (String × (String × String)) W
      → Dict (String × (String × String)) W
  set_entity_votes id bonded [] d = d
  set_entity_votes id bonded (((entity, option), power) ∷ ps) d =
      set_entity_votes id bonded ps (Dict.insert (id, (entity, option)) (f.div power bonded) d)

  -- An entity with a share below 0.0005 is left out.
  unfoldable pub set_non_voters :
      String → W → Dict String W → Dict (String × String) W → Dict (String × String) W
  set_non_voters id bonded [] d = d
  set_non_voters id bonded ((entity, power) ∷ ps) d = set_non_voters id bonded ps (
      if f.lt (f.div power bonded) (f.ratio 5 10000)
      then d
      else Dict.insert (id, entity) (f.div power bonded) d)

  -- The gate of the alerts, set last, with the turnout and the quorum that the alerts compare.
  unfoldable pub publish_live :
      String → W → ProposalAnalysis W → GovernanceGauges W → GovernanceGauges W
  publish_live id quorum x g =
      if x.aggregate.is_live
      then record g {
        attribution_complete =
            Dict.insert id (bool_gauge x.attribution_complete) g.attribution_complete;
        turnout = Dict.insert id x.aggregate.final_turnout g.turnout;
        live_quorum = Dict.insert id quorum g.live_quorum;
        proposal_live = Dict.insert id (f.of_nat 1) g.proposal_live;
      }
      else g

  -- The body of the loop over the targets, once the analysis has succeeded.
  unfoldable pub publish_analysis :
      String → W → W → W → ProposalAnalysis W → GovernanceGauges W → GovernanceGauges W
  publish_analysis id bonded quorum threshold x g =
      let a = x.aggregate in
      let title = cut_title a.title in
      let selector =
        "#" <> id <> " | " <> (if a.is_live then "LIVE" else a.status) <> " | " <> title in
      let (ratio, met, state, capabilities) = analyze_proposal_veto x threshold in
      let by_entity = power_by_entity (λ v. v.voting_power) x.voted [] in
      let non_voter_by_entity = power_by_entity (λ v. v.voting_power) x.non_voters [] in
      publish_live id quorum x (record g {
        proposal_info =
            Dict.insert (id, (title, (a.status, selector))) a.final_turnout g.proposal_info;
        proposal_quorum = Dict.insert id quorum g.proposal_quorum;
        quorum_target = Dict.insert id (f.add quorum (f.ratio 1 10)) g.quorum_target;
        quorum_buffer = Dict.insert id (f.sub a.final_turnout quorum) g.quorum_buffer;
        proposal_tally =
            Dict.insert (id, "No with veto") (f.div a.veto bonded)
              (Dict.insert (id, "Abstain") (f.div a.abstain bonded)
                (Dict.insert (id, "No") (f.div a.against bonded)
                  (Dict.insert (id, "Yes") (f.div a.yes bonded) g.proposal_tally)));
        proposal_veto_ratio = Dict.insert id ratio g.proposal_veto_ratio;
        proposal_quorum_met = Dict.insert id (bool_gauge met) g.proposal_quorum_met;
        proposal_veto_state = Dict.insert id (veto_gauge state) g.proposal_veto_state;
        entity_veto_capability = set_capabilities id capabilities g.entity_veto_capability;
        entity_vote = set_entity_votes id bonded (by_entity_option x.voted []) g.entity_vote;
        non_voter_power = set_non_voters id bonded non_voter_by_entity g.non_voter_power;
        participation_count =
            Dict.insert (id, "Did not vote") (f.of_nat (length non_voter_by_entity))
              (Dict.insert (id, "Voted") (f.of_nat (length by_entity)) g.participation_count);
        window =
            Dict.insert (id, "end") (unix_seconds a.voting_end)
              (Dict.insert (id, "start") (unix_seconds a.voting_start) g.window);
      })

  module _ (c : Codec) (validators : List Validator) (entity_map : Dict String String)
      (bonded quorum threshold : W) (live_tally : String → Result AnalysisError (Tally W))
      (current_votes : String → Option (Dict String (GovVote W))) where
    unfoldable pub analysis_of : Proposal → Result AnalysisError (ProposalAnalysis W)
    analysis_of p =
        analyze_proposal c p validators entity_map bonded quorum (some live_tally)
          (some current_votes)

    -- The loop over the targets: the gauges, and the errors of the proposals whose vote is open.
    unfoldable pub publish_targets :
        List Proposal → GovernanceGauges W → GovernanceGauges W × List (String × AnalysisError)
    publish_targets [] g = (g, [])
    publish_targets (p ∷ ps) g = elim (analysis_of p) [
      | ok x ↦ publish_targets ps (publish_analysis p.id bonded quorum threshold x g)
      | err e ↦
          let rest = publish_targets ps g in
          (rest.0, if p.status == status_voting_period then (p.id, e) ∷ rest.1 else rest.1)
    ]

    unfoldable pub analyze_proposals :
        List Proposal
        → List Proposal
        → GovernanceGauges W
        → GovernanceGauges W × List (String × AnalysisError)
    analyze_proposals active closed g =
        publish_targets (targets active closed) (reset_proposal_analysis_series g)
