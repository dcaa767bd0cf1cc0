-- ===== src/Collector/Metrics/Options.antt =====
-- `NewMetrics` of collector/collector.go: the options of each gauge. Help texts are left out.
use validator_health_collect.Base.{String, List, [], ◌∷◌, ◌++◌}
use validator_health_collect.Collector.Metrics.{
  Metric, last_success, query_success, block_height, active_validators, largest_val_share,
  largest_ent_share, halt_coeff, safety_coeff, gov_turnout, gov_quorum, gov_seconds_remaining,
  val_missed_blocks, val_missed_blocks_info, val_missed_ratio, val_blocks_to_jail,
  val_seconds_to_jail, val_at_risk_power, slashing_param, chain_block_time, val_jailed, val_info,
  entity_share, gov_proposal_info, gov_proposal_quorum, gov_proposal_tally, gov_entity_vote,
  gov_proposal_veto_ratio, gov_proposal_quorum_met, gov_proposal_veto_state,
  gov_entity_veto_capability, gov_non_voter_power, gov_window, gov_participation_count,
  gov_veto_threshold, entity_can_veto_alone, any_entity_can_veto, veto_power_needed,
  gov_quorum_buffer, gov_quorum_target, upgrade_height, bonded_tokens, gov_attribution_complete,
  endpoint_info, gov_proposal_live, section_success, gov_unreadable_proposals,
  redelegation_alert_threshold, redelegation_outflow_ratio, redelegation_outflow_atom,
  redelegation_flow_ratio, redelegation_flow_atom, redelegation_event_count,
  redelegation_latest_event, redelegation_threshold_crossed, redelegation_scan_success,
  redelegation_scan_last_success, managed_delegation_scan_success,
  managed_delegation_scan_last_success, managed_delegation_configured_accounts,
  managed_delegation_warning_jail_progress, managed_delegation_critical_jail_progress,
  managed_delegation_account_atom, managed_validator_delegation_atom,
  managed_validator_portfolio_share, managed_validator_missed_blocks,
  managed_validator_missed_ratio, managed_validator_jail_progress, managed_validator_blocks_to_jail,
  managed_validator_seconds_to_jail, managed_validator_recent_miss_rate, managed_validator_active,
  managed_validator_jailed, managed_validator_tombstoned, managed_validator_downtime_slash_exposure,
  managed_validator_double_sign_slash_exposure, managed_validator_estimated_rewards_lost,
  managed_validator_redelegation_locked, managed_validator_estimated_redelegatable,
  managed_validator_next_redelegation_unlock, managed_validator_final_redelegation_unlock,
}

-- A field with the name and the labels of its gauge; a gauge without labels has none.
pub record Opts : Type 0 where
  pub metric : Metric
  pub name : String
  pub labels : List String

abbrev opts : Metric → String → List String → Opts
opts metric name labels = record { metric = metric; name = name; labels = labels }

abbrev managed_validator_labels : List String
managed_validator_labels =
    "operator_address" ∷ "moniker" ∷ "entity" ∷ "consensus_address" ∷ "accounts" ∷ []

unfoldable pub snapshot_opts : List Opts
snapshot_opts =
    opts last_success "validator_health_collector_last_success_timestamp_seconds" []
    ∷ opts query_success "validator_health_collector_query_success" ("protocol" ∷ [])
    ∷ opts block_height "validator_health_snapshot_block_height" []
    ∷ opts active_validators "validator_health_active_validators" []
    ∷ opts largest_val_share "validator_health_largest_validator_share_ratio" []
    ∷ opts largest_ent_share "validator_health_largest_entity_share_ratio" []
    ∷ opts halt_coeff "validator_health_halt_coefficient" []
    ∷ opts safety_coeff "validator_health_safety_coefficient" []
    ∷ opts gov_turnout "validator_health_governance_turnout_ratio" ("proposal_id" ∷ [])
    ∷ opts gov_quorum "validator_health_governance_quorum_ratio" ("proposal_id" ∷ [])
    ∷ opts gov_seconds_remaining "validator_health_governance_seconds_remaining"
        ("proposal_id" ∷ [])
    ∷ opts val_missed_blocks "validator_health_validator_missed_blocks" ("validator" ∷ [])
    ∷ opts val_missed_blocks_info "validator_health_validator_missed_blocks_info"
        ("operator_address" ∷ "moniker" ∷ "entity" ∷ "consensus_address" ∷ [])
    ∷ opts val_missed_ratio "validator_health_validator_missed_ratio"
        ("operator_address" ∷ "moniker" ∷ "entity" ∷ "consensus_address" ∷ [])
    ∷ opts val_blocks_to_jail "validator_health_validator_blocks_to_jail"
        ("operator_address" ∷ "moniker" ∷ "entity" ∷ "consensus_address" ∷ [])
    ∷ opts val_seconds_to_jail "validator_health_validator_seconds_to_jail"
        ("operator_address" ∷ "moniker" ∷ "entity" ∷ "consensus_address" ∷ [])
    ∷ opts val_at_risk_power "validator_health_validator_at_risk_power_ratio" ("entity" ∷ [])
    ∷ opts slashing_param "validator_health_slashing_param" ("param" ∷ [])
    ∷ opts chain_block_time "validator_health_chain_block_time_seconds" []
    ∷ opts val_jailed "validator_health_validator_jailed" ("validator" ∷ [])
    ∷ opts val_info "validator_health_validator_info"
        ("consensus_address" ∷ "moniker" ∷ "operator_address" ∷ [])
    ∷ opts entity_share "validator_health_entity_share_ratio" ("entity" ∷ "validators" ∷ [])
    ∷ []

unfoldable pub governance_opts : List Opts
governance_opts =
    opts gov_proposal_info "validator_health_governance_proposal_info"
      ("proposal_id" ∷ "title" ∷ "status" ∷ "selector" ∷ [])
    ∷ opts gov_proposal_quorum "validator_health_governance_proposal_quorum" ("proposal_id" ∷ [])
    ∷ opts gov_proposal_tally "validator_health_governance_proposal_tally_ratio"
        ("proposal_id" ∷ "option" ∷ [])
    ∷ opts gov_entity_vote "validator_health_governance_entity_vote_power"
        ("proposal_id" ∷ "entity" ∷ "option" ∷ [])
    ∷ opts gov_proposal_veto_ratio "validator_health_governance_proposal_veto_ratio"
        ("proposal_id" ∷ [])
    ∷ opts gov_proposal_quorum_met "validator_health_governance_proposal_quorum_met"
        ("proposal_id" ∷ [])
    ∷ opts gov_proposal_veto_state "validator_health_governance_proposal_veto_state"
        ("proposal_id" ∷ [])
    ∷ opts gov_entity_veto_capability "validator_health_governance_entity_veto_capability_ratio"
        ("proposal_id" ∷ "entity" ∷ "capability" ∷ [])
    ∷ opts gov_non_voter_power "validator_health_governance_non_voter_power_ratio"
        ("proposal_id" ∷ "entity" ∷ [])
    ∷ opts gov_window "validator_health_governance_voting_window_seconds"
        ("proposal_id" ∷ "boundary" ∷ [])
    ∷ opts gov_participation_count "validator_health_governance_participation_count"
        ("proposal_id" ∷ "status" ∷ [])
    ∷ opts gov_veto_threshold "validator_health_governance_veto_threshold" []
    ∷ opts entity_can_veto_alone "validator_health_entity_can_veto_alone" ("entity" ∷ [])
    ∷ opts any_entity_can_veto "validator_health_any_entity_can_veto_alone" []
    ∷ opts veto_power_needed "validator_health_veto_power_needed_ratio" []
    ∷ opts gov_quorum_buffer "validator_health_governance_quorum_buffer" ("proposal_id" ∷ [])
    ∷ opts gov_quorum_target "validator_health_governance_quorum_target" ("proposal_id" ∷ [])
    ∷ opts upgrade_height "validator_health_upgrade_height" ("upgrade" ∷ [])
    ∷ opts bonded_tokens "validator_health_bonded_tokens" []
    ∷ opts gov_attribution_complete "validator_health_governance_vote_attribution_complete"
        ("proposal_id" ∷ [])
    ∷ opts endpoint_info "validator_health_collector_endpoint_info"
        ("protocol" ∷ "provider" ∷ "url" ∷ [])
    ∷ opts gov_proposal_live "validator_health_governance_proposal_live" ("proposal_id" ∷ [])
    ∷ opts section_success "validator_health_collector_section_success" ("section" ∷ [])
    ∷ opts gov_unreadable_proposals "validator_health_governance_unreadable_proposals" []
    ∷ []

unfoldable pub redelegation_opts : List Opts
redelegation_opts =
    opts redelegation_alert_threshold "validator_health_redelegation_alert_threshold_ratio" []
    ∷ opts redelegation_outflow_ratio "validator_health_redelegation_outflow_ratio"
        ("source_validator" ∷ "source_moniker" ∷ "source_entity" ∷ [])
    ∷ opts redelegation_outflow_atom "validator_health_redelegation_outflow_atom"
        ("source_validator" ∷ "source_moniker" ∷ "source_entity" ∷ [])
    ∷ opts redelegation_flow_ratio "validator_health_redelegation_flow_ratio" (
        "source_validator" ∷ "source_moniker" ∷ "source_entity" ∷ "destination_validator"
        ∷ "destination_moniker" ∷ "destination_entity" ∷ [])
    ∷ opts redelegation_flow_atom "validator_health_redelegation_flow_atom" (
        "source_validator" ∷ "source_moniker" ∷ "source_entity" ∷ "destination_validator"
        ∷ "destination_moniker" ∷ "destination_entity" ∷ [])
    ∷ opts redelegation_event_count "validator_health_redelegation_event_count" (
        "source_validator" ∷ "source_moniker" ∷ "source_entity" ∷ "destination_validator"
        ∷ "destination_moniker" ∷ "destination_entity" ∷ [])
    ∷ opts redelegation_latest_event "validator_health_redelegation_latest_event_timestamp_seconds"
        ("source_validator" ∷ "source_moniker" ∷ "source_entity" ∷ [])
    ∷ opts redelegation_threshold_crossed
        "validator_health_redelegation_threshold_crossed_timestamp_seconds"
        ("source_validator" ∷ "source_moniker" ∷ "source_entity" ∷ [])
    ∷ opts redelegation_scan_success "validator_health_redelegation_scan_success" []
    ∷ opts redelegation_scan_last_success
        "validator_health_redelegation_scan_last_success_timestamp_seconds" []
    ∷ []

unfoldable pub managed_opts : List Opts
managed_opts =
    opts managed_delegation_scan_success "validator_health_managed_delegation_scan_success" []
    ∷ opts managed_delegation_scan_last_success
        "validator_health_managed_delegation_scan_last_success_timestamp_seconds" []
    ∷ opts managed_delegation_configured_accounts
        "validator_health_managed_delegation_configured_accounts" []
    ∷ opts managed_delegation_warning_jail_progress
        "validator_health_managed_delegation_warning_jail_progress_ratio" []
    ∷ opts managed_delegation_critical_jail_progress
        "validator_health_managed_delegation_critical_jail_progress_ratio" []
    ∷ opts managed_delegation_account_atom "validator_health_managed_delegation_account_atom" (
        "account" ∷ "delegator_address" ∷ "operator_address" ∷ "moniker" ∷ "entity"
        ∷ "consensus_address" ∷ [])
    ∷ opts managed_validator_delegation_atom "validator_health_managed_validator_delegation_atom"
        managed_validator_labels
    ∷ opts managed_validator_portfolio_share
        "validator_health_managed_validator_portfolio_share_ratio" managed_validator_labels
    ∷ opts managed_validator_missed_blocks "validator_health_managed_validator_missed_blocks"
        managed_validator_labels
    ∷ opts managed_validator_missed_ratio "validator_health_managed_validator_missed_ratio"
        managed_validator_labels
    ∷ opts managed_validator_jail_progress "validator_health_managed_validator_jail_progress_ratio"
        managed_validator_labels
    ∷ opts managed_validator_blocks_to_jail "validator_health_managed_validator_blocks_to_jail"
        managed_validator_labels
    ∷ opts managed_validator_seconds_to_jail "validator_health_managed_validator_seconds_to_jail"
        managed_validator_labels
    ∷ opts managed_validator_recent_miss_rate
        "validator_health_managed_validator_recent_miss_rate_ratio" managed_validator_labels
    ∷ opts managed_validator_active "validator_health_managed_validator_active"
        managed_validator_labels
    ∷ opts managed_validator_jailed "validator_health_managed_validator_jailed"
        managed_validator_labels
    ∷ opts managed_validator_tombstoned "validator_health_managed_validator_tombstoned"
        managed_validator_labels
    ∷ opts managed_validator_downtime_slash_exposure
        "validator_health_managed_validator_downtime_slash_exposure_atom" managed_validator_labels
    ∷ opts managed_validator_double_sign_slash_exposure
        "validator_health_managed_validator_double_sign_slash_exposure_atom"
        managed_validator_labels
    ∷ opts managed_validator_estimated_rewards_lost
        "validator_health_managed_validator_estimated_rewards_lost_per_hour_atom"
        managed_validator_labels
    ∷ opts managed_validator_redelegation_locked
        "validator_health_managed_validator_redelegation_locked_atom" managed_validator_labels
    ∷ opts managed_validator_estimated_redelegatable
        "validator_health_managed_validator_estimated_redelegatable_atom" managed_validator_labels
    ∷ opts managed_validator_next_redelegation_unlock
        "validator_health_managed_validator_next_redelegation_unlock_timestamp_seconds"
        managed_validator_labels
    ∷ opts managed_validator_final_redelegation_unlock
        "validator_health_managed_validator_final_redelegation_unlock_timestamp_seconds"
        managed_validator_labels
    ∷ []

-- The struct literal of `NewMetrics`.
unfoldable pub new_metrics : List Opts
unfolding snapshot_opts governance_opts redelegation_opts managed_opts
new_metrics = snapshot_opts ++ (governance_opts ++ (redelegation_opts ++ managed_opts))
