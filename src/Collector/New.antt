-- ===== src/Collector/New.antt =====
-- `New` of collector/collector.go with `ConfigureRedelegation` and `ConfigureManagedDelegations`, which `main` calls before it
-- starts the loops: the state of a collector that has not run. A gauge that was never set is `none`.
use validator_health_collect.Base.{true, false, none, some, []}
use validator_health_collect.Base.Float.{Float64}
use validator_health_collect.Client.Rotator.{empty}
use validator_health_collect.Governance.Gauges.{no_gauges}
use validator_health_collect.Endpoints.Resolver.{Resolver}
use validator_health_collect.Collector.Resolving.{Pair, Clients}
use validator_health_collect.Collector.Concentration.{ConcentrationGauges}
use validator_health_collect.Collector.Signing.{SigningGauges}
use validator_health_collect.Collector.State.{CollectorState}

-- The clients of a new scanner have no endpoint.
unfoldable pub new_pair : Pair
new_pair = record { first = empty; second = empty }

unfoldable pub new_clients : Resolver → Clients
new_clients resolver = record {
  rest = empty;
  rpc = empty;
  resolver = resolver;
  redelegation = some new_pair;
  redelegation_ready = false;
  managed_delegations = some new_pair;
  managed_delegation_ready = false;
  query_success = [];
  endpoint_info = [];
}

unfoldable pub no_concentration : {W : Type 0} → ConcentrationGauges W
no_concentration = record {
  largest_val_share = none;
  entity_share = [];
  entity_can_veto_alone = [];
  veto_power_needed = none;
  any_entity_can_veto = none;
  largest_ent_share = none;
  halt_coeff = none;
  safety_coeff = none;
}

unfoldable pub no_signing : {W : Type 0} → SigningGauges W
no_signing = record {
  missed_blocks = [];
  missed_blocks_info = [];
  missed_ratio = [];
  blocks_to_jail = [];
  seconds_to_jail = [];
  at_risk_power = [];
  slashing_param = [];
  chain_block_time = none;
  val_info = [];
  val_jailed = [];
}

module _ {W : Type 0} ⦃f : Float64 W⦄ where
  unfoldable pub new : Resolver → CollectorState W
  new resolver = record {
    clients = new_clients resolver;
    memory = record { highest_proposal_id = 0; proposal_memory = []; gov_unreadable_proposals = 0 };
    last_slashing_params = none;
    last_block_time = f.of_nat 0;
    first_run = true;
    prev_validators = [];
    governance = no_gauges;
    concentration = no_concentration;
    signing = no_signing;
    block_height = none;
    bonded_tokens = none;
    gov_veto_threshold = none;
    active_validators = none;
    upgrade_height = [];
    section_success = none;
    last_success = none;
  }
