-- ===== src/Tests/Managed.antt =====
-- The theorems on managed delegations: one account with two positions, of which one is locked.
use validator_health_collect.Base.{ℕ, ◌*◌, none, some, List, [], ◌∷◌, nat_eq}
use validator_health_collect.Base.Dict
use validator_health_collect.Base.Dict.{Dict}
use validator_health_collect.Base.Results.{ok}
use validator_health_collect.Go.Number.{format_nat}
use validator_health_collect.Go.Time.{Time, day}
use validator_health_collect.Managed.{AccountPosition, AccountValidator, Settings, Answers}
use validator_health_collect.Managed.Collect.{collect}
use validator_health_collect.Managed.Collect.Covers.{Covers, collect-Covers}
use validator_health_collect.Managed.Scan.{ManagedGauges, scan, Refreshes, scan-Refreshes}
use validator_health_collect.Tests.Values.{percents, plain}
use validator_health_collect.Tests.Snapshots.{answers}

abbrev settings : Settings
settings = record {
  codec = plain;
  accounts = record { name = "fund"; address = "cosmos1" } ∷ [];
  entity_map = [];
  rational = λ s. some (1, 20);
}

abbrev now : Time
now = 740000 * day

abbrev asked : Answers ℕ
asked = record {
  delegations = λ a. ok (
      record { operator_address = "cosmosvaloper"; amount_uatom = 5 }
      ∷ record { operator_address = "other"; amount_uatom = 7 }
      ∷ []);
  redelegations = λ a. ok (
      record {
        delegator_address = "cosmos1";
        destination_operator = "other";
        balance_uatom = 7;
        completion_time = 740020 * day;
      }
      ∷ []);
  validators = answers.bonded_validators;
  signing_infos = answers.signing_infos;
  slashing_params = answers.slashing_params;
  consensus_set = answers.consensus_set;
  status = answers.status;
  commit = λ h. ok (record { height = format_nat h; signatures = [] });
  consensus_set_at = λ h. answers.consensus_set;
  block = answers.block;
  annual_provisions = ok "10";
  community_tax = ok "0";
  staking_pool = ok "100";
}

abbrev gauges : ManagedGauges ℕ
gauges = record { scan_success = none; scan_last_success = none; accounts = []; validators = [] }

collect-Covers_example : Covers (collect settings asked now)
collect-Covers_example = collect-Covers settings asked now

scan-Refreshes_example : Refreshes settings asked now gauges (scan settings asked now gauges)
scan-Refreshes_example = scan-Refreshes settings asked now gauges

abbrev pub positions : List (AccountPosition ℕ)
positions =
    record {
      account_name = "fund";
      delegator_address = "cosmos1";
      operator_address = "other";
      amount_uatom = 7;
    }
    ∷ []

abbrev unlocks : Dict AccountValidator Time
unlocks = (("cosmos1", "other"), 740020 * day) ∷ []
