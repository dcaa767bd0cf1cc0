-- ===== src/Managed/Writes.antt =====
-- `publish` of collector/managed_delegation.go call by call, on the registered gauges: which gauge a call is on, its label
-- values, and the value it sets.
use validator_health_collect.Base.{
  String, Bool, Option, none, some, List, [], ◌∷◌, ◌++◌, map, if◌then◌else◌,
}
use validator_health_collect.Base.Float.{Float64}
use validator_health_collect.Go.Time.{Time, unix}
use validator_health_collect.Collector.Metrics.{
  Metric, managed_delegation_scan_success, managed_delegation_scan_last_success,
  managed_delegation_configured_accounts, managed_delegation_warning_jail_progress,
  managed_delegation_critical_jail_progress, managed_delegation_account_atom,
  managed_validator_delegation_atom, managed_validator_portfolio_share,
  managed_validator_missed_blocks, managed_validator_missed_ratio, managed_validator_jail_progress,
  managed_validator_blocks_to_jail, managed_validator_seconds_to_jail,
  managed_validator_recent_miss_rate, managed_validator_active, managed_validator_jailed,
  managed_validator_tombstoned, managed_validator_downtime_slash_exposure,
  managed_validator_double_sign_slash_exposure, managed_validator_estimated_rewards_lost,
  managed_validator_redelegation_locked, managed_validator_estimated_redelegatable,
  managed_validator_next_redelegation_unlock, managed_validator_final_redelegation_unlock,
}
use validator_health_collect.Managed.{ManagedScanResult}
use validator_health_collect.Managed.Publish.{
  AccountRow, ValidatorRow, account_rows, validator_rows,
}

-- `Reset` of a gauge with labels, and `Set` of one, with its label values.
pub data Call (W : Type 0) : Type 0 where
  reset : Metric → Call W
  set : Metric → List String → W → Call W

unfoldable pub reset_metrics : {W : Type 0} → List (Call W)
reset_metrics = map reset (
    managed_delegation_account_atom ∷ managed_validator_delegation_atom
    ∷ managed_validator_portfolio_share ∷ managed_validator_missed_blocks
    ∷ managed_validator_missed_ratio ∷ managed_validator_jail_progress
    ∷ managed_validator_blocks_to_jail ∷ managed_validator_seconds_to_jail
    ∷ managed_validator_recent_miss_rate ∷ managed_validator_active ∷ managed_validator_jailed
    ∷ managed_validator_tombstoned ∷ managed_validator_downtime_slash_exposure
    ∷ managed_validator_double_sign_slash_exposure ∷ managed_validator_estimated_rewards_lost
    ∷ managed_validator_redelegation_locked ∷ managed_validator_estimated_redelegatable
    ∷ managed_validator_next_redelegation_unlock ∷ managed_validator_final_redelegation_unlock ∷ [])

module _ {W : Type 0} ⦃f : Float64 W⦄ where
  abbrev flag : Bool → W
  flag b = if b then f.of_nat 1 else f.of_nat 0

  unfoldable pub account_call : AccountRow W → Call W
  account_call row =
      let (account, delegator, operator, moniker, entity, consensus) = row.labels in
      set managed_delegation_account_atom
        (account ∷ delegator ∷ operator ∷ moniker ∷ entity ∷ consensus ∷ []) row.atom

  abbrev pub set_some : Metric → List String → Option W → List (Call W)
  set_some m labels none = []
  set_some m labels (some value) = set m labels value ∷ []

  unfoldable pub validator_calls : ValidatorRow W → List (Call W)
  validator_calls row =
      let (operator, moniker, entity, consensus, accounts) = row.labels in
      let labels = operator ∷ moniker ∷ entity ∷ consensus ∷ accounts ∷ [] in
      set managed_validator_delegation_atom labels row.delegation_atom
      ∷ (set_some managed_validator_portfolio_share labels row.portfolio_share
          ++ (set managed_validator_missed_blocks labels row.missed_blocks
              ∷ set managed_validator_missed_ratio labels row.missed_ratio
              ∷ set managed_validator_jail_progress labels row.jail_progress
              ∷ set managed_validator_blocks_to_jail labels row.blocks_to_jail
              ∷ set managed_validator_seconds_to_jail labels row.seconds_to_jail
              ∷ set managed_validator_recent_miss_rate labels row.recent_miss_rate
              ∷ set managed_validator_active labels (flag row.active)
              ∷ set managed_validator_jailed labels (flag row.jailed)
              ∷ set managed_validator_tombstoned labels (flag row.tombstoned)
              ∷ set managed_validator_downtime_slash_exposure labels row.downtime_slash_exposure
              ∷ set managed_validator_double_sign_slash_exposure labels
                  row.double_sign_slash_exposure
              ∷ set managed_validator_redelegation_locked labels row.redelegation_locked
              ∷ set managed_validator_estimated_redelegatable labels row.estimated_redelegatable
              ∷ set managed_validator_next_redelegation_unlock labels
                  (f.of_nat row.next_redelegation_unlock)
              ∷ set managed_validator_final_redelegation_unlock labels
                  (f.of_nat row.final_redelegation_unlock)
              ∷ set_some managed_validator_estimated_rewards_lost labels
                  row.estimated_rewards_lost))

  unfoldable pub rows_calls : List (ValidatorRow W) → List (Call W)
  rows_calls [] = []
  rows_calls (row ∷ rows) = validator_calls row ++ rows_calls rows

  unfoldable pub publish_calls : ManagedScanResult W → Time → List (Call W)
  publish_calls result now =
      reset_metrics
      ++ (map account_call (account_rows result)
          ++ (rows_calls (validator_rows result)
              ++ (set managed_delegation_scan_success [] (f.of_nat 1)
                  ∷ set managed_delegation_scan_last_success [] (f.of_nat (unix now))
                  ∷ [])))

  -- A scan that fails sets one gauge.
  unfoldable pub failure_calls : List (Call W)
  failure_calls = set managed_delegation_scan_success [] (f.of_nat 0) ∷ []

  -- `NewManagedDelegationScanner`, under the lock as well.
  unfoldable pub configure_calls : W → W → W → List (Call W)
  configure_calls accounts warning critical =
      set managed_delegation_configured_accounts [] accounts
      ∷ set managed_delegation_warning_jail_progress [] warning
      ∷ set managed_delegation_critical_jail_progress [] critical
      ∷ []
