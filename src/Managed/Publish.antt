-- ===== src/Managed/Publish.antt =====
-- `publish` of collector/managed_delegation.go: the series of a scan, as rows with their labels. The rows of
-- the last scan are reset.
use validator_health_collect.Base.{
  ℕ, ◌*◌, String, Bool, Option, none, some, List, [], ◌∷◌, map, ◌==◌, string_eq, if◌then◌else◌,
}
use validator_health_collect.Base.Dict
use validator_health_collect.Base.Dict.{Dict}
use validator_health_collect.Base.Float.{Float64}
use validator_health_collect.Base.Sort.{sort_by}
use validator_health_collect.Go.Text.{str_lt}
use validator_health_collect.Go.Time.{Time, is_zero, unix}
use validator_health_collect.Governance.Veto.{at_least_zero}
use validator_health_collect.Collector.Concentration.{join}
use validator_health_collect.Collector.Signing.{blocks_left}
use validator_health_collect.Managed.{AccountPosition, ManagedAggregate, Rewards, ManagedScanResult}

-- The labels account, delegator, operator, moniker, entity and consensus address.
pub record AccountRow (W : Type 0) : Type 0 where
  pub labels : String × String × String × String × String × String
  pub atom : W

pub record ValidatorRow (W : Type 0) : Type 0 where
  -- operator, moniker, entity, consensus address and accounts
  pub labels : String × String × String × String × String
  pub delegation_atom : W
  pub portfolio_share : Option W
  pub missed_blocks : W
  pub missed_ratio : W
  pub jail_progress : W
  pub blocks_to_jail : W
  pub seconds_to_jail : W
  pub recent_miss_rate : W
  pub active : Bool
  pub jailed : Bool
  pub tombstoned : Bool
  pub downtime_slash_exposure : W
  pub double_sign_slash_exposure : W
  pub redelegation_locked : W
  pub estimated_redelegatable : W
  pub next_redelegation_unlock : ℕ
  pub final_redelegation_unlock : ℕ
  pub estimated_rewards_lost : Option W

unfoldable pub unix_or_zero : Time → ℕ
unix_or_zero t = if is_zero t then 0 else unix t

abbrev pub account_less : {W : Type 0} → AccountPosition W → AccountPosition W → Bool
account_less p q =
    if p.account_name == q.account_name
    then str_lt p.operator_address q.operator_address
    else str_lt p.account_name q.account_name

unfoldable pub metadata :
    {W : Type 0}
    → List (ManagedAggregate W)
    → Dict String (ManagedAggregate W)
    → Dict String (ManagedAggregate W)
metadata [] d = d
metadata (x ∷ xs) d = metadata xs (Dict.insert x.operator_address x d)

module _ {W : Type 0} ⦃f : Float64 W⦄ where
  abbrev pub atom : W → W
  atom uatom = f.div uatom (f.of_nat 1000000)

  -- math.Min(math.Max(value, 0), 1), for a value that is no NaN
  unfoldable pub clamp_unit : W → W
  clamp_unit value =
      let raised = at_least_zero value in if f.lt (f.of_nat 1) raised then f.of_nat 1 else raised

  unfoldable pub account_row : Dict String (ManagedAggregate W) → AccountPosition W → AccountRow W
  account_row known p = record {
    labels = elim (Dict.lookup p.operator_address known) [
      | none ↦ (p.account_name, p.delegator_address, p.operator_address, "", "", "")
      | some x ↦ (
        p.account_name, p.delegator_address, p.operator_address, x.moniker, x.entity,
        x.consensus_address,
      )
    ];
    atom = atom p.amount_uatom;
  }

  -- Rewards are there only where every commission is a number.
  unfoldable pub rewards_lost : Option (Rewards W) → Option W → W → Option W
  rewards_lost none commission amount = none
  rewards_lost (some r) none amount = none
  rewards_lost (some r) (some commission) amount =
      let one = f.of_nat 1 in
      let gross = f.div (f.mul r.annual_provisions amount) r.bonded_tokens in
      let net = f.mul (f.mul gross (f.sub one r.community_tax)) (f.sub one commission) in
      some (atom (f.div net (f.of_nat (365 * 24))))

  unfoldable pub validator_row : ManagedScanResult W → ManagedAggregate W → ValidatorRow W
  validator_row result x =
      let amount = atom x.amount_uatom in
      let locked = atom x.locked_uatom in
      let left = blocks_left result.slashing.max_missed_blocks x.missed_blocks in
      record {
        labels =
            (x.operator_address, x.moniker, x.entity, x.consensus_address, join "," x.accounts);
        delegation_atom = amount;
        portfolio_share =
            if f.lt (f.of_nat 0) result.total_uatom
            then some (f.div x.amount_uatom result.total_uatom)
            else none;
        missed_blocks = x.missed_blocks;
        missed_ratio = f.div x.missed_blocks (f.of_nat result.slashing.signed_blocks_window);
        jail_progress =
            clamp_unit (f.div x.missed_blocks (f.of_nat result.slashing.max_missed_blocks));
        blocks_to_jail = left;
        seconds_to_jail = f.mul left result.block_interval;
        recent_miss_rate = x.recent_miss_rate;
        active = x.active;
        jailed = x.jailed;
        tombstoned = x.tombstoned;
        downtime_slash_exposure = f.mul amount result.slashing.slash_fraction_downtime;
        double_sign_slash_exposure = f.mul amount result.slashing.slash_fraction_double_sign;
        redelegation_locked = locked;
        estimated_redelegatable = at_least_zero (f.sub amount locked);
        next_redelegation_unlock = unix_or_zero x.next_unlock;
        final_redelegation_unlock = unix_or_zero x.final_unlock;
        estimated_rewards_lost = rewards_lost result.rewards x.commission x.amount_uatom;
      }

  unfoldable pub account_rows : ManagedScanResult W → List (AccountRow W)
  account_rows result =
      map (account_row (metadata result.aggregates [])) (sort_by account_less result.accounts)

  unfoldable pub validator_rows : ManagedScanResult W → List (ValidatorRow W)
  validator_rows result = map (validator_row result) result.aggregates
