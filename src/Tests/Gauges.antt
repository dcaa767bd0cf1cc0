-- ===== src/Tests/Gauges.antt =====
-- The theorems on the gauges of a cycle.
use validator_health_collect.Base.{
  ℕ, ◌≡◌, String, false, Option, none, List, [], ◌∷◌, string_eq, pair_eq,
}
use validator_health_collect.Base.Dict
use validator_health_collect.Base.Dict.{Dict}
use validator_health_collect.Base.Results.{Result, ok}
use validator_health_collect.Validators.{Validator}
use validator_health_collect.Governance.Proposal.{Proposal}
use validator_health_collect.Governance.Vote.{GovVote, AnalysisError, Tally}
use validator_health_collect.Governance.Gauges.{GovernanceGauges, no_gauges}
use validator_health_collect.Governance.Publish.{targets, analyze_proposals}
use validator_health_collect.Governance.Publish.Gate.{is_some, opened, analyze_proposals-live}
use validator_health_collect.Queries.Params.{SlashingParams}
use validator_health_collect.Collector.Signing.{SigningInfo, RiskLabels}
use validator_health_collect.Tests.Values.{percents, plain, validator}
use validator_health_collect.Tests.Analysis.{open_proposal}

abbrev pub validators : List Validator
validators = validator "cosmosvaloper" "60" ∷ validator "other" "40" ∷ []

abbrev pub voting : List Proposal
voting = open_proposal "PROPOSAL_STATUS_VOTING_PERIOD" ∷ []

abbrev pub live_tally : String → Result AnalysisError (Tally ℕ)
live_tally id = ok (60, 0, 0, 0)

abbrev pub current_votes : String → Option (Dict String (GovVote ℕ))
current_votes id = none

abbrev before : GovernanceGauges ℕ
before = record no_gauges { proposal_live = ("6", 1) ∷ [] }

analyze_proposals-live_example :
    is_some (
      Dict.lookup "7"
        (analyze_proposals plain validators [] 100 40 33 live_tally current_votes voting []
          before).0.proposal_live)
    ≡ opened plain validators [] 100 40 33 live_tally current_votes "7" (targets voting [])
analyze_proposals-live_example =
    analyze_proposals-live plain validators [] 100 40 33 live_tally current_votes voting [] before
      "7"

abbrev pub slashing : SlashingParams ℕ
slashing = record {
  signed_blocks_window = 100;
  min_signed_per_window = 5;
  min_signed_blocks = 5;
  max_missed_blocks = 95;
  slash_fraction_double_sign = 5;
  slash_fraction_downtime = 1;
}

abbrev infos : List SigningInfo
infos =
    record {
      address = "cosmosvalcons";
      jailed_until = "";
      tombstoned = false;
      missed_blocks_counter = "190";
    }
    ∷ []

abbrev labels : RiskLabels
labels = ("other", ("node", ("node", "cosmosvalcons")))
