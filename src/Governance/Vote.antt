-- ===== src/Governance/Vote.antt =====
-- `GovVote` and `ProposalAnalysis` of collector/governance.go, with the tally and the options.
use validator_health_collect.Base.{
  String, Bool, ◌||◌, Option, none, some, List, [], ◌∷◌, ◌==◌, string_eq, if◌then◌else◌,
}
use validator_health_collect.Base.Dict.{Dict}
use validator_health_collect.Base.Float.{Float64}
use validator_health_collect.Base.Results.{Result, ok, err}
use validator_health_collect.Go.Text.{trim_prefix}
use validator_health_collect.Go.Time.{Time}
use validator_health_collect.Governance.Proposal.{Proposal, status_voting_period}

pub record GovVote (W : Type 0) : Type 0 where
  pub valoper_address : String
  pub moniker : String
  pub entity : String
  pub option : String
  pub options : Dict String W
  pub voting_power : W

-- The fields that do not depend on who voted.
pub record Aggregate (W : Type 0) : Type 0 where
  pub id : String
  pub title : String
  pub status : String
  pub voting_start : Time
  pub voting_end : Time
  pub quorum : W
  pub final_turnout : W
  pub total_bonded : W
  pub yes : W
  pub against : W
  pub abstain : W
  pub veto : W
  pub is_live : Bool

pub record ProposalAnalysis (W : Type 0) : Type 0 where
  pub aggregate : Aggregate W
  pub voted : List (GovVote W)
  pub non_voters : List (GovVote W)
  pub attribution_complete : Bool

unfoldable pub normalize_vote_option : String → String
normalize_vote_option option =
    let o = trim_prefix option "VOTE_OPTION_" in
    if o == "1" || o == "YES"
    then "YES"
    else (if o == "2" || o == "ABSTAIN"
        then "ABSTAIN"
        else (if o == "3" || o == "NO"
            then "NO"
            else (if o == "4" || o == "NO_WITH_VETO" then "NO_WITH_VETO" else "UNKNOWN")))

pub data AnalysisError : Type 0 where
  voting_start_error voting_end_error no_tally_query tally_failed : AnalysisError

-- The tally of a proposal: yes, no, abstain and veto.
abbrev pub Tally : Type 0 → Type 0
Tally W = W × W × W × W

module _ {W : Type 0} ⦃f : Float64 W⦄ where
  -- A live tally is asked for only while the vote is open; `none` is a missing query.
  unfoldable pub tally_of :
      Proposal → Option (String → Result AnalysisError (Tally W)) → Result AnalysisError (Tally W)
  tally_of p live_tally =
      if p.status == status_voting_period
      then elim live_tally [ none ↦ err no_tally_query | some query ↦ query p.id ]
      else ok (
        f.parse_value p.final_tally_result.yes_count,
        f.parse_value p.final_tally_result.no_count,
        f.parse_value p.final_tally_result.abstain_count,
        f.parse_value p.final_tally_result.no_with_veto_count,
      )

  -- A vote whose options are not known in parts counts whole for its option.
  unfoldable pub vote_weights : GovVote W → Dict String W
  vote_weights v = elim v.options [
    | [] ↦ if v.option == "" || v.option == "DID_NOT_VOTE" then [] else (v.option, f.of_nat 1) ∷ []
    | o ∷ os ↦ o ∷ os
  ]
