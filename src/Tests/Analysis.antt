-- ===== src/Tests/Analysis.antt =====
-- The theorems on the analysis of a proposal: an open one of 100 bonded tokens, on which one
-- validator of 60 votes against with veto, and another of 40 does not vote.
use validator_health_collect.Base.{
  ℕ, ◌≡◌, refl, ◌↔◌, String, true, Option, some, List, [], ◌∷◌, Has, string_eq, nat_eq,
}
use validator_health_collect.Base.Dict.{Dict}
use validator_health_collect.Base.Results.{Result, ok, err}
use validator_health_collect.Go.Time.{parse_time}
use validator_health_collect.Validators.{Validator}
use validator_health_collect.Governance.Proposal.{Proposal}
use validator_health_collect.Governance.Vote.{
  GovVote, ProposalAnalysis, AnalysisError, Tally, tally_of,
}
use validator_health_collect.Governance.Veto.{EntityVetoCapability, potential, capabilities}
use validator_health_collect.Governance.Capability.{IsCapable, capabilities_iff}
use validator_health_collect.Governance.Analysis.{
  analyze_proposal, with_votes, attribute, aggregate_of, is_empty,
}
use validator_health_collect.Governance.Attribution.{Splits, analyze_proposal-Splits}
use validator_health_collect.Tests.Values.{percents, plain, validator}

abbrev vote : String → String → ℕ → GovVote ℕ
vote entity option power = record {
  valoper_address = "cosmosvaloper";
  moniker = "node";
  entity = entity;
  option = option;
  options = [];
  voting_power = power;
}

abbrev analysis : ProposalAnalysis ℕ
analysis = record {
  aggregate = record {
    id = "7";
    title = "Upgrade";
    status = "VOTING_PERIOD";
    voting_start = 0;
    voting_end = 0;
    quorum = 40;
    final_turnout = 60;
    total_bonded = 100;
    yes = 0;
    against = 0;
    abstain = 0;
    veto = 60;
    is_live = true;
  };
  voted = vote "Acme" "NO_WITH_VETO" 60 ∷ [];
  non_voters = vote "Bolt" "DID_NOT_VOTE" 40 ∷ [];
  attribution_complete = true;
}

abbrev row : EntityVetoCapability ℕ
row = record { entity = "Bolt"; kind = potential; ratio = 40 }

capabilities_iff_example : Has row (capabilities analysis 33) ↔ IsCapable analysis 33 row
capabilities_iff_example = capabilities_iff analysis 33 row

abbrev pub open_proposal : String → Proposal
open_proposal status = record {
  id = "7";
  status = status;
  title = "Upgrade";
  submit_time = "2026-08-01T00:00:00Z";
  deposit_end_time = "2026-08-02T00:00:00Z";
  voting_start_time = "2026-08-02T00:00:00Z";
  voting_end_time = "2026-08-16T00:00:00Z";
  final_tally_result = record {
    yes_count = "10";
    abstain_count = "0";
    no_count = "5";
    no_with_veto_count = "0";
  };
}

abbrev active : Proposal
active = open_proposal "PROPOSAL_STATUS_VOTING_PERIOD"

abbrev rejected : Proposal
rejected = open_proposal "PROPOSAL_STATUS_REJECTED"

abbrev validators : List Validator
validators = validator "cosmosvaloper" "60" ∷ validator "other" "40" ∷ []

abbrev live_tally : Option (String → Result AnalysisError (Tally ℕ))
live_tally = some (λ id. ok (0, 0, 0, 60))

abbrev current_votes : Option (String → Option (Dict String (GovVote ℕ)))
current_votes = some (λ id. some (("cosmos1", vote "" "VOTE_OPTION_NO_WITH_VETO" 0) ∷ []))

abbrev analysed : Result AnalysisError (ProposalAnalysis ℕ) → ProposalAnalysis ℕ
analysed (ok x) = x
analysed (err e) = analysis

abbrev attributed_analysis : ProposalAnalysis ℕ
attributed_analysis =
    analysed (analyze_proposal plain active validators [] 100 40 live_tally current_votes)

analyzes :
    analyze_proposal plain active validators [] 100 40 live_tally current_votes
    ≡ ok attributed_analysis
unfolding analyze_proposal parse_time tally_of aggregate_of string_eq
analyzes = refl

complete : attributed_analysis.attribution_complete ≡ true
unfolding analyzes with_votes is_empty attribute
complete = refl

analyze_proposal-Splits_example : Splits ℕ plain [] validators attributed_analysis
analyze_proposal-Splits_example =
    analyze_proposal-Splits ℕ plain [] active validators 100 40 live_tally current_votes
      attributed_analysis analyzes complete
