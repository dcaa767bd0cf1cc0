-- ===== src/Collector/Metrics.antt =====
-- `Metrics` of collector/collector.go: its fields, and the order in which `Describe` and
-- `Collect` go through them.
pub mod Options
pub mod Exported
use validator_health_collect.Base.{List, [], ◌∷◌, ◌++◌}

-- The fields of the struct, without its lock.
pub data Metric : Type 0 where
  last_success query_success block_height active_validators largest_val_share largest_ent_share
        halt_coeff safety_coeff gov_turnout gov_quorum gov_seconds_remaining val_missed_blocks
        val_missed_blocks_info val_missed_ratio val_blocks_to_jail val_seconds_to_jail
        val_at_risk_power slashing_param chain_block_time val_jailed val_info entity_share
        gov_proposal_info gov_proposal_quorum gov_proposal_tally gov_entity_vote
        gov_proposal_veto_ratio gov_proposal_quorum_met gov_proposal_veto_state
        gov_entity_veto_capability gov_non_voter_power gov_window gov_participation_count
        gov_veto_threshold entity_can_veto_alone any_entity_can_veto veto_power_needed
        gov_quorum_buffer gov_quorum_target upgrade_height bonded_tokens gov_attribution_complete
        endpoint_info gov_proposal_live section_success gov_unreadable_proposals
        redelegation_alert_threshold redelegation_outflow_ratio redelegation_outflow_atom
        redelegation_flow_ratio redelegation_flow_atom redelegation_event_count
        redelegation_latest_event redelegation_threshold_crossed redelegation_scan_success
        redelegation_scan_last_success managed_delegation_scan_success
        managed_delegation_scan_last_success managed_delegation_configured_accounts
        managed_delegation_warning_jail_progress managed_delegation_critical_jail_progress
        managed_delegation_account_atom managed_validator_delegation_atom
        managed_validator_portfolio_share managed_validator_missed_blocks
        managed_validator_missed_ratio managed_validator_jail_progress
        managed_validator_blocks_to_jail managed_validator_seconds_to_jail
        managed_validator_recent_miss_rate managed_validator_active managed_validator_jailed
        managed_validator_tombstoned managed_validator_downtime_slash_exposure
        managed_validator_double_sign_slash_exposure managed_validator_estimated_rewards_lost
        managed_validator_redelegation_locked managed_validator_estimated_redelegatable
        managed_validator_next_redelegation_unlock managed_validator_final_redelegation_unlock :
      Metric

unfoldable pub describe : List Metric
describe =
    last_success ∷ query_success ∷ block_height ∷ active_validators ∷ largest_val_share
    ∷ largest_ent_share ∷ halt_coeff ∷ safety_coeff ∷ gov_turnout ∷ gov_quorum
    ∷ gov_seconds_remaining ∷ val_missed_blocks ∷ val_missed_blocks_info ∷ val_missed_ratio
    ∷ val_blocks_to_jail ∷ val_seconds_to_jail ∷ val_at_risk_power ∷ slashing_param
    ∷ chain_block_time ∷ val_jailed ∷ val_info ∷ entity_share ∷ gov_proposal_info
    ∷ gov_proposal_quorum ∷ gov_proposal_tally ∷ gov_entity_vote ∷ gov_proposal_veto_ratio
    ∷ gov_proposal_quorum_met ∷ gov_proposal_veto_state ∷ gov_entity_veto_capability
    ∷ gov_non_voter_power ∷ gov_window ∷ gov_participation_count ∷ gov_veto_threshold
    ∷ entity_can_veto_alone ∷ any_entity_can_veto ∷ veto_power_needed ∷ gov_quorum_buffer
    ∷ gov_quorum_target ∷ upgrade_height ∷ bonded_tokens ∷ gov_attribution_complete ∷ endpoint_info
    ∷ gov_proposal_live ∷ section_success ∷ gov_unreadable_proposals ∷ redelegation_alert_threshold
    ∷ redelegation_outflow_ratio ∷ redelegation_outflow_atom ∷ redelegation_flow_ratio
    ∷ redelegation_flow_atom ∷ redelegation_event_count ∷ redelegation_latest_event
    ∷ redelegation_threshold_crossed ∷ redelegation_scan_success ∷ redelegation_scan_last_success
    ∷ managed_delegation_scan_success ∷ managed_delegation_scan_last_success
    ∷ managed_delegation_configured_accounts ∷ managed_delegation_warning_jail_progress
    ∷ managed_delegation_critical_jail_progress ∷ managed_delegation_account_atom
    ∷ managed_validator_delegation_atom ∷ managed_validator_portfolio_share
    ∷ managed_validator_missed_blocks ∷ managed_validator_missed_ratio
    ∷ managed_validator_jail_progress ∷ managed_validator_blocks_to_jail
    ∷ managed_validator_seconds_to_jail ∷ managed_validator_recent_miss_rate
    ∷ managed_validator_active ∷ managed_validator_jailed ∷ managed_validator_tombstoned
    ∷ managed_validator_downtime_slash_exposure ∷ managed_validator_double_sign_slash_exposure
    ∷ managed_validator_estimated_rewards_lost ∷ managed_validator_redelegation_locked
    ∷ managed_validator_estimated_redelegatable ∷ managed_validator_next_redelegation_unlock
    ∷ managed_validator_final_redelegation_unlock ∷ []

-- `Collect` up to the lock.
unfoldable pub collect_free : List Metric
collect_free =
    last_success ∷ query_success ∷ block_height ∷ active_validators ∷ largest_val_share
    ∷ largest_ent_share ∷ halt_coeff ∷ safety_coeff ∷ gov_turnout ∷ gov_quorum
    ∷ gov_seconds_remaining ∷ val_missed_blocks ∷ val_missed_blocks_info ∷ val_missed_ratio
    ∷ val_blocks_to_jail ∷ val_seconds_to_jail ∷ val_at_risk_power ∷ slashing_param
    ∷ chain_block_time ∷ val_jailed ∷ val_info ∷ entity_share ∷ gov_proposal_info
    ∷ gov_proposal_quorum ∷ gov_proposal_tally ∷ gov_entity_vote ∷ gov_proposal_veto_ratio
    ∷ gov_proposal_quorum_met ∷ gov_proposal_veto_state ∷ gov_entity_veto_capability
    ∷ gov_non_voter_power ∷ gov_window ∷ gov_participation_count ∷ gov_veto_threshold
    ∷ entity_can_veto_alone ∷ any_entity_can_veto ∷ veto_power_needed ∷ gov_quorum_buffer
    ∷ gov_quorum_target ∷ upgrade_height ∷ bonded_tokens ∷ gov_attribution_complete ∷ endpoint_info
    ∷ gov_proposal_live ∷ section_success ∷ gov_unreadable_proposals ∷ redelegation_alert_threshold
    ∷ redelegation_outflow_ratio ∷ redelegation_outflow_atom ∷ redelegation_flow_ratio
    ∷ redelegation_flow_atom ∷ redelegation_event_count ∷ redelegation_latest_event
    ∷ redelegation_threshold_crossed ∷ redelegation_scan_success ∷ redelegation_scan_last_success
    ∷ []

-- The rest of `Collect`, under the read lock.
unfoldable pub collect_managed : List Metric
collect_managed =
    managed_delegation_scan_success ∷ managed_delegation_scan_last_success
    ∷ managed_delegation_configured_accounts ∷ managed_delegation_warning_jail_progress
    ∷ managed_delegation_critical_jail_progress ∷ managed_delegation_account_atom
    ∷ managed_validator_delegation_atom ∷ managed_validator_portfolio_share
    ∷ managed_validator_missed_blocks ∷ managed_validator_missed_ratio
    ∷ managed_validator_jail_progress ∷ managed_validator_blocks_to_jail
    ∷ managed_validator_seconds_to_jail ∷ managed_validator_recent_miss_rate
    ∷ managed_validator_active ∷ managed_validator_jailed ∷ managed_validator_tombstoned
    ∷ managed_validator_downtime_slash_exposure ∷ managed_validator_double_sign_slash_exposure
    ∷ managed_validator_estimated_rewards_lost ∷ managed_validator_redelegation_locked
    ∷ managed_validator_estimated_redelegatable ∷ managed_validator_next_redelegation_unlock
    ∷ managed_validator_final_redelegation_unlock ∷ []

unfoldable pub collect : List Metric
unfolding collect_free collect_managed
collect = collect_free ++ collect_managed
