-- ===== src/Managed.antt =====
-- collector/managed_delegation.go: what a scan knows of the positions of the configured accounts and of the
-- validators that hold them, and what the nodes answer to it.
pub mod Positions
pub mod Collect
pub mod Publish
pub mod Scan
pub mod Writes
pub mod Registry
pub mod Scraping
pub mod Labelled
use validator_health_collect.Base.{ℕ, String, Bool, Option, List}
use validator_health_collect.Base.Dict.{Dict}
use validator_health_collect.Base.Results.{Result}
use validator_health_collect.Go.Time.{Time}
use validator_health_collect.Client.Fetch.{FetchError}
use validator_health_collect.Address.{Codec}
use validator_health_collect.Config.{ManagedDelegator}
use validator_health_collect.Validators.{Validator}
use validator_health_collect.Queries.{QueryError}
use validator_health_collect.Queries.Delegations.{ManagedDelegation, ReceivingRedelegation}
use validator_health_collect.Queries.Consensus.{CometStatus, CometCommit, BlockHeader}
use validator_health_collect.Queries.Params.{SlashingParamsRaw, SlashingParams}
use validator_health_collect.Collector.Signing.{SigningInfo}

-- `managedAccountValidator`: delegator and operator
abbrev pub AccountValidator : Type 0
AccountValidator = String × String

pub record AccountPosition (W : Type 0) : Type 0 where
  pub account_name : String
  pub delegator_address : String
  pub operator_address : String
  pub amount_uatom : W

pub record SampledCommit : Type 0 where
  pub signers : Dict String Bool
  pub eligible : Dict String Bool

-- A commission that is NaN is `none`.
pub record ManagedAggregate (W : Type 0) : Type 0 where
  pub operator_address : String
  pub moniker : String
  pub entity : String
  pub consensus_address : String
  pub accounts : List String
  pub amount_uatom : W
  pub missed_blocks : W
  pub active : Bool
  pub jailed : Bool
  pub tombstoned : Bool
  pub commission : Option W
  pub locked_uatom : W
  pub next_unlock : Time
  pub final_unlock : Time
  pub recent_miss_rate : W

-- The annual provisions, the community tax and the bonded tokens, where rewards are available.
pub record Rewards (W : Type 0) : Type 0 where
  pub annual_provisions : W
  pub community_tax : W
  pub bonded_tokens : W

pub record ManagedScanResult (W : Type 0) : Type 0 where
  pub accounts : List (AccountPosition W)
  pub aggregates : List (ManagedAggregate W)
  pub total_uatom : W
  pub slashing : SlashingParams W
  pub block_interval : W
  pub rewards : Option (Rewards W)

-- What does not change during the life of a scanner.
pub record Settings : Type 0 where
  pub codec : Codec
  pub accounts : List ManagedDelegator
  pub entity_map : Dict String String
  pub rational : String → Option (ℕ × ℕ)

-- The answers of one scan; those of the paged queries are the results of these queries.
pub record Answers (W : Type 0) : Type 0 where
  pub delegations : String → Result QueryError (List (ManagedDelegation W))
  pub redelegations : String → Result QueryError (List (ReceivingRedelegation W))
  pub validators : Result QueryError (List Validator)
  pub signing_infos : Result QueryError (List SigningInfo)
  pub slashing_params : Result FetchError SlashingParamsRaw
  pub consensus_set : Result QueryError (Dict String Bool)
  pub status : Result FetchError CometStatus
  pub commit : ℕ → Result FetchError CometCommit
  pub consensus_set_at : ℕ → Result QueryError (Dict String Bool)
  pub block : ℕ → Result FetchError BlockHeader
  pub annual_provisions : Result FetchError String
  pub community_tax : Result FetchError String
  pub staking_pool : Result FetchError String

pub data ManagedError : Type 0 where
  accounts_failed empty_consensus_set empty_operator absent_validator no_address : ManagedError
  invalid_missed_blocks invalid_jailed_until below_sample_size no_block_interval : ManagedError
  query_failed : QueryError → ManagedError
