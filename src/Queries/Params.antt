-- ===== src/Queries/Params.antt =====
-- The queries of collector/queries.go with one answer: the parameters of governance and slashing, the
-- pool, the provisions, the tax and the upgrade plan.
use validator_health_collect.Base.{
  ℕ, ◌+◌, ◌-◌, String, Option, none, some, ltb, ◌==◌, nat_eq, if◌then◌else◌,
}
use validator_health_collect.Base.Float.{Float64}
use validator_health_collect.Base.Results.{Result, ok, ◌>>=◌, refuse, or_fail}
use validator_health_collect.Go.Duration.{parse_positive_duration}
use validator_health_collect.Client.Fetch.{FetchError}
use validator_health_collect.Validators.Slashing.{min_signed_blocks}
use validator_health_collect.Queries.{
  QueryError, invalid_amount, invalid_ratio, invalid_window, invalid_limit, no_upgrade_plan,
  parse_uatom, parse_ratio, parse_non_negative_decimal,
}
use validator_health_collect.Queries.Consensus.{fetched, parse_positive}
use validator_health_collect.Governance.Proposal.{TallyResult}
use validator_health_collect.Governance.Vote.{Tally}

pub record GovTallyParams : Type 0 where
  pub quorum : String
  pub threshold : String
  pub veto_threshold : String
  pub max_deposit_period : String
  pub voting_period : String
  pub expedited_voting_period : String

pub record GovParams (W : Type 0) : Type 0 where
  pub quorum : W
  pub threshold : W
  pub veto_threshold : W
  pub proposal_lifespan : ℕ

pub record SlashingParamsRaw : Type 0 where
  pub signed_blocks_window : String
  pub min_signed_per_window : String
  pub slash_fraction_double_sign : String
  pub slash_fraction_downtime : String

pub record SlashingParams (W : Type 0) : Type 0 where
  pub signed_blocks_window : ℕ
  pub min_signed_per_window : W
  pub min_signed_blocks : ℕ
  pub max_missed_blocks : ℕ
  pub slash_fraction_double_sign : W
  pub slash_fraction_downtime : W

pub record UpgradePlanDetail : Type 0 where
  pub name : String
  pub height : String

-- The longer of the voting period and an expedited one that is a duration.
unfoldable pub longest_voting : ℕ → Option ℕ → ℕ
longest_voting voting none = voting
longest_voting voting (some expedited) = if ltb voting expedited then expedited else voting

unfoldable pub lifespan_of : Option ℕ → Option ℕ → Option ℕ → ℕ
lifespan_of (some deposit) (some voting) expedited = deposit + longest_voting voting expedited
lifespan_of (some deposit) none expedited = 0
lifespan_of none voting expedited = 0

module _ {W : Type 0} ⦃f : Float64 W⦄ where
  -- The value of a query that failed.
  unfoldable pub no_gov_params : GovParams W
  no_gov_params = record {
    quorum = f.of_nat 0;
    threshold = f.of_nat 0;
    veto_threshold = f.of_nat 0;
    proposal_lifespan = 0;
  }

  unfoldable pub query_gov_params :
      Result FetchError GovTallyParams → Result QueryError (GovParams W)
  query_gov_params get = do
    p ← fetched get
    ok (record {
      quorum = f.parse_value p.quorum;
      threshold = f.parse_value p.threshold;
      veto_threshold = f.parse_value p.veto_threshold;
      proposal_lifespan =
          lifespan_of (parse_positive_duration p.max_deposit_period)
            (parse_positive_duration p.voting_period)
            (parse_positive_duration p.expedited_voting_period);
    })

  -- big.Rat.SetString of a ratio that is not negative, as numerator and denominator
  module _ (rational : String → Option (ℕ × ℕ)) where
    unfoldable pub parse_min_signed_blocks : String → ℕ → Result QueryError (W × ℕ)
    parse_min_signed_blocks raw window = do
      (num, den) ← or_fail (rational raw) invalid_ratio
      _ ← refuse (ltb den num) invalid_ratio
      ratio ← or_fail (f.parse raw) invalid_ratio
      _ ← refuse (f.is_nan ratio) invalid_ratio
      _ ← refuse (f.is_inf ratio) invalid_ratio
      signed ← or_fail (min_signed_blocks num den window) invalid_ratio
      ok (ratio, signed)

    unfoldable pub query_slashing_params :
        Result FetchError SlashingParamsRaw → Result QueryError (SlashingParams W)
    query_slashing_params get = do
      p ← fetched get
      window ← or_fail (parse_positive p.signed_blocks_window) invalid_window
      (ratio, signed) ← parse_min_signed_blocks p.min_signed_per_window window
      double_sign ← or_fail (parse_ratio p.slash_fraction_double_sign) invalid_ratio
      downtime ← or_fail (parse_ratio p.slash_fraction_downtime) invalid_ratio
      _ ← refuse (window - signed == 0) invalid_limit
      ok (record {
        signed_blocks_window = window;
        min_signed_per_window = ratio;
        min_signed_blocks = signed;
        max_missed_blocks = window - signed;
        slash_fraction_double_sign = double_sign;
        slash_fraction_downtime = downtime;
      })

  unfoldable pub query_staking_pool : Result FetchError String → Result QueryError W
  query_staking_pool get = do bonded ← fetched get; or_fail (parse_uatom bonded) invalid_amount

  unfoldable pub query_annual_provisions : Result FetchError String → Result QueryError W
  query_annual_provisions get = do
    provisions ← fetched get
    or_fail (parse_non_negative_decimal provisions) invalid_amount

  unfoldable pub query_community_tax : Result FetchError String → Result QueryError W
  query_community_tax get = do tax ← fetched get; or_fail (parse_ratio tax) invalid_ratio

  unfoldable pub query_live_tally : Result FetchError TallyResult → Result QueryError (Tally W)
  query_live_tally get = do
    t ← fetched get
    ok (
      f.parse_value t.yes_count,
      f.parse_value t.no_count,
      f.parse_value t.abstain_count,
      f.parse_value t.no_with_veto_count,
    )

-- A response without a plan is the error that the caller takes for the normal state.
unfoldable pub query_upgrade_plan :
    Result FetchError (Option UpgradePlanDetail) → Result QueryError UpgradePlanDetail
query_upgrade_plan get = do plan ← fetched get; or_fail plan no_upgrade_plan
