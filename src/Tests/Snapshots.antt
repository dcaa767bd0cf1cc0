-- ===== src/Tests/Snapshots.antt =====
-- The theorems on a cycle, at one in which the vote on a proposal is open.
use validator_health_collect.Base.{
  ℕ, ◌*◌, ◌≡◌, ◌⊎◌, true, false, none, some, [], ◌∷◌, ◌==◌, string_eq, nat_eq, if◌then◌else◌,
}
use validator_health_collect.Base.Dict
use validator_health_collect.Base.Dict.{Dict}
use validator_health_collect.Base.Results.{ok}
use validator_health_collect.Go.Time.{day}
use validator_health_collect.Governance.Scan.{ProposalScan, new_scan}
use validator_health_collect.Governance.Gauges.{no_gauges}
use validator_health_collect.Endpoints.Probe.{Servers}
use validator_health_collect.Collector.State.{Settings, CollectorState, Answers}
use validator_health_collect.Collector.Snapshot.{collect_snapshot}
use validator_health_collect.Collector.Snapshot.FailClosed.{
  IsOpened, collect_snapshot-IsOpened, collect_snapshot-remaining,
}
use validator_health_collect.Collector.Snapshot.Success.{Reports, collect_snapshot-Reports}
use validator_health_collect.Tests.Values.{percents, plain, validator}
use validator_health_collect.Tests.Discovery.{servers}
use validator_health_collect.Tests.Cycle.{clients}
use validator_health_collect.Tests.Analysis.{open_proposal}

abbrev reachable : Servers
reachable = record servers {
  status = λ a. some (record {
    latest_block_height = "3000";
    latest_block_time = "2026-08-10T00:00:00Z";
    earliest_block_height = "1";
    catching_up = false;
  });
}

abbrev pub settings : Settings
settings = record {
  codec = plain;
  entity_map = [];
  proposal_history_window = 30 * day;
  rational = λ s. some (1, 20);
}

abbrev scan : ProposalScan
scan = record new_scan { active = open_proposal "PROPOSAL_STATUS_VOTING_PERIOD" ∷ [] }

abbrev pub answers : Answers ℕ
answers = record {
  servers = reachable;
  registry = none;
  status = ok (record {
    network = "hub";
    latest_block_height = "3000";
    latest_block_time = "2026-08-10T00:00:00Z";
  });
  bonded_validators = ok (validator "cosmosvaloper" "60" ∷ validator "other" "40" ∷ []);
  consensus_set = ok (("", true) ∷ []);
  staking_pool = ok "100";
  gov_params = ok (record {
    quorum = "40";
    threshold = "50";
    veto_threshold = "33";
    max_deposit_period = "1209600s";
    voting_period = "1209600s";
    expedited_voting_period = "86400s";
  });
  relevant_proposals = λ cutoff lifespan highest. ok scan;
  slashing_params = ok (record {
    signed_blocks_window = "100";
    min_signed_per_window = "0";
    slash_fraction_double_sign = "1";
    slash_fraction_downtime = "0";
  });
  block = λ height.
      if height == 0
      then ok (record { height = "3000"; time = "2026-08-10T03:00:00Z" })
      else ok (record { height = "1000"; time = "2026-08-10T00:00:00Z" });
  signing_infos = ok (
      record {
        address = "cosmosvalcons";
        jailed_until = "";
        tombstoned = false;
        missed_blocks_counter = "50";
      }
      ∷ []);
  upgrade_plan = ok none;
  live_tally = λ id.
      ok (record {
        yes_count = "60";
        abstain_count = "0";
        no_count = "0";
        no_with_veto_count = "0";
      });
  proposal_votes = λ id. ok [];
}

abbrev pub state : CollectorState ℕ
state = record {
  clients = clients;
  memory = record { highest_proposal_id = 0; proposal_memory = []; gov_unreadable_proposals = 0 };
  last_slashing_params = none;
  last_block_time = 0;
  first_run = true;
  prev_validators = [];
  governance = record no_gauges { proposal_live = ("6", 1) ∷ [] };
  concentration = record {
    largest_val_share = none;
    entity_share = [];
    entity_can_veto_alone = [];
    veto_power_needed = none;
    any_entity_can_veto = none;
    largest_ent_share = none;
    halt_coeff = none;
    safety_coeff = none;
  };
  signing = record {
    missed_blocks = [];
    missed_blocks_info = [];
    missed_ratio = [];
    blocks_to_jail = [];
    seconds_to_jail = [];
    at_risk_power = [];
    slashing_param = [];
    chain_block_time = none;
    val_info = [];
    val_jailed = [];
  };
  block_height = none;
  bonded_tokens = none;
  gov_veto_threshold = none;
  active_validators = none;
  upgrade_height = [];
  section_success = none;
  last_success = none;
}

abbrev pub now : ℕ
now = 740000 * day

collect_snapshot-IsOpened_example :
    (Dict.lookup "6" (collect_snapshot settings answers now state).0.governance.proposal_live
      ≡ none)
    ⊎ IsOpened settings answers now state.memory "6"
collect_snapshot-IsOpened_example = collect_snapshot-IsOpened settings answers now state "6"

collect_snapshot-remaining_example :
    ((collect_snapshot settings answers now state).0.governance.proposal_live ≡ [])
    ⊎ ((collect_snapshot settings answers now state).0.governance.seconds_remaining ≡ [])
collect_snapshot-remaining_example = collect_snapshot-remaining settings answers now state

collect_snapshot-Reports_example :
    Reports settings answers now state.memory state.last_success
      (collect_snapshot settings answers now state)
collect_snapshot-Reports_example = collect_snapshot-Reports settings answers now state
