-- ===== src/Collector/State.antt =====
-- The fields of `Collector` that a cycle changes with the gauges that it sets, and what the nodes answer
-- during one cycle.
use validator_health_collect.Base.{ℕ, String, Bool, Option, List, string_eq}
use validator_health_collect.Base.Dict.{Dict}
use validator_health_collect.Base.Results.{Result}
use validator_health_collect.Go.Time.{Time}
use validator_health_collect.Client.Fetch.{FetchError}
use validator_health_collect.Address.{Codec}
use validator_health_collect.Validators.{Validator}
use validator_health_collect.Governance.Proposal.{TallyResult}
use validator_health_collect.Governance.Scan.{ProposalScan, ScanError}
use validator_health_collect.Governance.Memory.{Memory}
use validator_health_collect.Governance.Vote.{GovVote}
use validator_health_collect.Governance.Gauges.{GovernanceGauges}
use validator_health_collect.Queries.{QueryError}
use validator_health_collect.Queries.Consensus.{CometStatus, BlockHeader}
use validator_health_collect.Queries.Params.{
  GovTallyParams, SlashingParamsRaw, SlashingParams, UpgradePlanDetail,
}
use validator_health_collect.Endpoints.Registry.{ChainApis}
use validator_health_collect.Endpoints.Probe.{Servers}
use validator_health_collect.Collector.Resolving.{Clients, ResolveError}
use validator_health_collect.Collector.Concentration.{ConcentrationGauges}
use validator_health_collect.Collector.Signing.{SigningInfo, SigningGauges}

-- What does not change: the codec of addresses, the entity map, the history window, and big.Rat.
pub record Settings : Type 0 where
  pub codec : Codec
  pub entity_map : Dict String String
  pub proposal_history_window : ℕ
  pub rational : String → Option (ℕ × ℕ)

pub record CollectorState (W : Type 0) : Type 0 where
  pub clients : Clients
  pub memory : Memory
  pub last_slashing_params : Option (SlashingParams W)
  pub last_block_time : W
  pub first_run : Bool
  pub prev_validators : Dict String Bool
  pub governance : GovernanceGauges W
  pub concentration : ConcentrationGauges W
  pub signing : SigningGauges W
  pub block_height : Option ℕ
  pub bonded_tokens : Option W
  pub gov_veto_threshold : Option W
  pub active_validators : Option ℕ
  pub upgrade_height : Dict String W
  pub section_success : Option Bool
  pub last_success : Option ℕ

-- The answers of one cycle. Those of the paged queries are the results of these queries, which have
-- their own modules.
pub record Answers (W : Type 0) : Type 0 where
  pub servers : Servers
  pub registry : Option ChainApis
  pub status : Result FetchError CometStatus
  pub bonded_validators : Result QueryError (List Validator)
  pub consensus_set : Result QueryError (Dict String Bool)
  pub staking_pool : Result FetchError String
  pub gov_params : Result FetchError GovTallyParams
  -- by the cutoff, the lifespan and the highest ID that is known
  pub relevant_proposals : Time → ℕ → ℕ → Result ScanError ProposalScan
  pub slashing_params : Result FetchError SlashingParamsRaw
  pub block : ℕ → Result FetchError BlockHeader
  pub signing_infos : Result QueryError (List SigningInfo)
  pub upgrade_plan : Result FetchError (Option UpgradePlanDetail)
  pub live_tally : String → Result FetchError TallyResult
  pub proposal_votes : String → Result QueryError (Dict String (GovVote W))

pub data SnapshotError : Type 0 where
  no_endpoint : ResolveError → SnapshotError
  staking_failed consensus_set_failed : QueryError → SnapshotError
  empty_consensus_set governance_failed : SnapshotError
