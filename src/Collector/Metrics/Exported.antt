-- ===== src/Collector/Metrics/Exported.antt =====
-- That `NewMetrics`, `Describe` and `Collect` of collector/collector.go agree.
use mathlib.Core.Option
use validator_health_collect.Base.{
  ℕ, ◌≡◌, refl, String, Bool, true, false, not, ◌&&◌, ◌||◌, Option, none, some, List, [], ◌∷◌, map,
  length, select, get_elem?, leb, ◌==◌, string_eq, nat_eq, if◌then◌else◌,
}
use validator_health_collect.Go.Text.{codes}
use validator_health_collect.Collector.Metrics.Options.{
  Opts, new_metrics, snapshot_opts, governance_opts, redelegation_opts, managed_opts,
}
use validator_health_collect.Collector.Metrics.{
  Metric, describe, collect, collect_free, collect_managed, last_success, query_success,
  block_height, active_validators, largest_val_share, largest_ent_share, halt_coeff, safety_coeff,
  gov_turnout, gov_quorum, gov_seconds_remaining, val_missed_blocks, val_missed_blocks_info,
  val_missed_ratio, val_blocks_to_jail, val_seconds_to_jail, val_at_risk_power, slashing_param,
  chain_block_time, val_jailed, val_info, entity_share, gov_proposal_info, gov_proposal_quorum,
  gov_proposal_tally, gov_entity_vote, gov_proposal_veto_ratio, gov_proposal_quorum_met,
  gov_proposal_veto_state, gov_entity_veto_capability, gov_non_voter_power, gov_window,
  gov_participation_count, gov_veto_threshold, entity_can_veto_alone, any_entity_can_veto,
  veto_power_needed, gov_quorum_buffer, gov_quorum_target, upgrade_height, bonded_tokens,
  gov_attribution_complete, endpoint_info, gov_proposal_live, section_success,
  gov_unreadable_proposals, redelegation_alert_threshold, redelegation_outflow_ratio,
  redelegation_outflow_atom, redelegation_flow_ratio, redelegation_flow_atom,
  redelegation_event_count, redelegation_latest_event, redelegation_threshold_crossed,
  redelegation_scan_success, redelegation_scan_last_success, managed_delegation_scan_success,
  managed_delegation_scan_last_success, managed_delegation_configured_accounts,
  managed_delegation_warning_jail_progress, managed_delegation_critical_jail_progress,
  managed_delegation_account_atom, managed_validator_delegation_atom,
  managed_validator_portfolio_share, managed_validator_missed_blocks,
  managed_validator_missed_ratio, managed_validator_jail_progress, managed_validator_blocks_to_jail,
  managed_validator_seconds_to_jail, managed_validator_recent_miss_rate, managed_validator_active,
  managed_validator_jailed, managed_validator_tombstoned, managed_validator_downtime_slash_exposure,
  managed_validator_double_sign_slash_exposure, managed_validator_estimated_rewards_lost,
  managed_validator_redelegation_locked, managed_validator_estimated_redelegatable,
  managed_validator_next_redelegation_unlock, managed_validator_final_redelegation_unlock,
}

-- The place of a field in the struct.
unfoldable pub index : Metric → ℕ
index last_success = 0
index query_success = 1
index block_height = 2
index active_validators = 3
index largest_val_share = 4
index largest_ent_share = 5
index halt_coeff = 6
index safety_coeff = 7
index gov_turnout = 8
index gov_quorum = 9
index gov_seconds_remaining = 10
index val_missed_blocks = 11
index val_missed_blocks_info = 12
index val_missed_ratio = 13
index val_blocks_to_jail = 14
index val_seconds_to_jail = 15
index val_at_risk_power = 16
index slashing_param = 17
index chain_block_time = 18
index val_jailed = 19
index val_info = 20
index entity_share = 21
index gov_proposal_info = 22
index gov_proposal_quorum = 23
index gov_proposal_tally = 24
index gov_entity_vote = 25
index gov_proposal_veto_ratio = 26
index gov_proposal_quorum_met = 27
index gov_proposal_veto_state = 28
index gov_entity_veto_capability = 29
index gov_non_voter_power = 30
index gov_window = 31
index gov_participation_count = 32
index gov_veto_threshold = 33
index entity_can_veto_alone = 34
index any_entity_can_veto = 35
index veto_power_needed = 36
index gov_quorum_buffer = 37
index gov_quorum_target = 38
index upgrade_height = 39
index bonded_tokens = 40
index gov_attribution_complete = 41
index endpoint_info = 42
index gov_proposal_live = 43
index section_success = 44
index gov_unreadable_proposals = 45
index redelegation_alert_threshold = 46
index redelegation_outflow_ratio = 47
index redelegation_outflow_atom = 48
index redelegation_flow_ratio = 49
index redelegation_flow_atom = 50
index redelegation_event_count = 51
index redelegation_latest_event = 52
index redelegation_threshold_crossed = 53
index redelegation_scan_success = 54
index redelegation_scan_last_success = 55
index managed_delegation_scan_success = 56
index managed_delegation_scan_last_success = 57
index managed_delegation_configured_accounts = 58
index managed_delegation_warning_jail_progress = 59
index managed_delegation_critical_jail_progress = 60
index managed_delegation_account_atom = 61
index managed_validator_delegation_atom = 62
index managed_validator_portfolio_share = 63
index managed_validator_missed_blocks = 64
index managed_validator_missed_ratio = 65
index managed_validator_jail_progress = 66
index managed_validator_blocks_to_jail = 67
index managed_validator_seconds_to_jail = 68
index managed_validator_recent_miss_rate = 69
index managed_validator_active = 70
index managed_validator_jailed = 71
index managed_validator_tombstoned = 72
index managed_validator_downtime_slash_exposure = 73
index managed_validator_double_sign_slash_exposure = 74
index managed_validator_estimated_rewards_lost = 75
index managed_validator_redelegation_locked = 76
index managed_validator_estimated_redelegatable = 77
index managed_validator_next_redelegation_unlock = 78
index managed_validator_final_redelegation_unlock = 79

-- How often a field stands in a list.
abbrev pub times : Metric → List Metric → ℕ
times m xs = length (select (λ n. index n == index m) xs)

abbrev options_from : Metric → List Opts → Option Opts
options_from m [] = none
options_from m (o ∷ os) = if index o.metric == index m then some o else options_from m os

-- The options of the field.
abbrev pub options_of : Metric → Option Opts
options_of m = options_from m new_metrics

abbrev pub name_of : Metric → Option String
name_of m = Option.map (λ o. o.name) (options_of m)

-- How many of the gauges have this name.
abbrev pub namesakes : Option String → ℕ
namesakes none = 0
namesakes (some name) = length (select (λ o. o.name == name) new_metrics)

-- What Prometheus asks of a name: letters, digits and underscores, and no digit first.
abbrev is_letter : ℕ → Bool
is_letter c = leb b'a' c && leb c b'z' || leb b'A' c && leb c b'Z' || c == b'_'

abbrev every {ℓ} : {A : Type ℓ} → (A → Bool) → List A → Bool
every p [] = true
every p (x ∷ xs) = p x && every p xs

abbrev is_name : List ℕ → Bool
is_name [] = false
is_name (c ∷ cs) = is_letter c && every (λ d. is_letter d || leb b'0' d && leb d b'9') cs

-- Two underscores first are reserved.
abbrev is_reserved : List ℕ → Bool
is_reserved (c ∷ d ∷ cs) = c == b'_' && d == b'_'
is_reserved _ = false

abbrev is_label : String → Bool
is_label l = is_name (codes l) && not (is_reserved (codes l))

abbrev distinct : List String → Bool
distinct [] = true
distinct (x ∷ xs) = every (λ y. not (x == y)) xs && distinct xs

-- A name and labels that Prometheus accepts, no label twice.
abbrev pub registrable : Option Opts → Bool
registrable none = false
registrable (some o) = is_name (codes o.name) && every is_label o.labels && distinct o.labels

index_at : (m : Metric) → get_elem? describe (index m) ≡ some m
unfolding index describe
index_at last_success = refl
index_at _ = refl

-- No two fields have the same place.
pub index_injective : (m n : Metric) → index m ≡ index n → m ≡ n
index_injective m n e = cc (index_at m, index_at n, e)

-- The gauge is constructed, described and collected once, under a name that no other has, and its name
-- and labels are such that Prometheus accepts them.
pub record Exported (m : Metric) : Type 0 where
  pub constructed : times m (map (λ o. o.metric) new_metrics) ≡ 1
  pub described : times m describe ≡ 1
  pub collected : times m collect ≡ 1
  pub alone : namesakes (name_of m) ≡ 1
  pub accepted : registrable (options_of m) ≡ true

-- Each gauge of the struct is constructed, described and collected once, under a name that no other
-- has, and its name and labels are such that Prometheus accepts them.
pub Metric-Exported : (m : Metric) → Exported m
unfolding index new_metrics snapshot_opts governance_opts redelegation_opts managed_opts describe
    collect collect_free collect_managed string_eq nat_eq
Metric-Exported last_success = record {
  constructed = refl;
  described = refl;
  collected = refl;
  alone = refl;
  accepted = refl;
}
Metric-Exported _ = record {
  constructed = refl;
  described = refl;
  collected = refl;
  alone = refl;
  accepted = refl;
}
