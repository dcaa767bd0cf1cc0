-- ===== src/Collector/Signing.antt =====
-- The signing risk section of `CollectSnapshot`: the missed blocks of the active validators, and the
-- parameters that the estimates depend on.
pub mod Risk
use validator_health_collect.Base.{
  ℕ, ◌+◌, String, Bool, true, false, Option, none, some, List, [], ◌∷◌, ◌==◌, string_eq, pair_eq,
  if◌then◌else◌,
}
use validator_health_collect.Base.Dict
use validator_health_collect.Base.Dict.{Dict}
use validator_health_collect.Base.Float.{Float64}
use validator_health_collect.Base.Results.{Result, ok, err}
use validator_health_collect.Address.{Codec, consensus_address_from_pub_key}
use validator_health_collect.Validators.{Validator, pub_key_of}
use validator_health_collect.Queries.Params.{SlashingParams}
use validator_health_collect.Governance.Analysis.{entity_or_moniker}

pub record SigningInfo : Type 0 where
  pub address : String
  pub jailed_until : String
  pub tombstoned : Bool
  pub missed_blocks_counter : String

-- The labels of a risk series: operator, moniker, entity and consensus address.
abbrev pub RiskLabels : Type 0
RiskLabels = String × (String × (String × String))

pub record SigningGauges (W : Type 0) : Type 0 where
  pub missed_blocks : Dict String W
  pub missed_blocks_info : Dict RiskLabels W
  pub missed_ratio : Dict RiskLabels W
  pub blocks_to_jail : Dict RiskLabels W
  pub seconds_to_jail : Dict RiskLabels W
  pub at_risk_power : Dict String W
  pub slashing_param : Dict String W
  pub chain_block_time : Option W
  pub val_info : Dict (String × (String × String)) W
  pub val_jailed : Dict String W

-- The active validators by consensus address; a key that has no address is left out.
unfoldable pub consensus_to_validator :
    Codec → List Validator → Dict String Validator → Dict String Validator
consensus_to_validator c [] d = d
consensus_to_validator c (v ∷ vs) d = elim (consensus_address_from_pub_key c (pub_key_of v)) [
  | err e ↦ consensus_to_validator c vs d
  | ok address ↦ consensus_to_validator c vs (Dict.insert address v d)
]

module _ {W : Type 0} ⦃f : Float64 W⦄ where
  unfoldable pub reset_risk : SigningGauges W → SigningGauges W
  reset_risk g = record g {
    missed_blocks_info = [];
    missed_ratio = [];
    blocks_to_jail = [];
    seconds_to_jail = [];
    at_risk_power = [];
  }

  -- `blocksUntilJail` on float64
  unfoldable pub blocks_left : ℕ → W → W
  blocks_left max_missed missed =
      let remaining = f.add (f.sub (f.of_nat max_missed) missed) (f.of_nat 1) in
      if f.lt remaining (f.of_nat 0) then f.of_nat 0 else remaining

  unfoldable pub set_at_risk : String → Option W → Dict String W → Dict String W
  set_at_risk entity none d = d
  set_at_risk entity (some power) d = Dict.insert entity power d

  module _ (c : Codec) (entity_map : Dict String String) (share : Dict String W)
      (slashing : SlashingParams W) (block_interval : W) where
    unfoldable pub risk_labels : Validator → String → RiskLabels
    risk_labels v address = (
      v.operator_address,
      (v.moniker, (entity_or_moniker entity_map v.operator_address v.moniker, address)),
    )

    -- The risk series of a validator that is active and misses enough.
    unfoldable pub set_risk : Validator → String → W → SigningGauges W → SigningGauges W
    set_risk v address missed g =
        let labels = risk_labels v address in
        let entity = entity_or_moniker entity_map v.operator_address v.moniker in
        let left = blocks_left slashing.max_missed_blocks missed in
        record g {
          missed_blocks_info = Dict.insert labels missed g.missed_blocks_info;
          missed_ratio =
              Dict.insert labels (f.div missed (f.of_nat slashing.signed_blocks_window))
                g.missed_ratio;
          blocks_to_jail = Dict.insert labels left g.blocks_to_jail;
          seconds_to_jail = Dict.insert labels (f.mul left block_interval) g.seconds_to_jail;
          at_risk_power = set_at_risk entity (Dict.lookup entity share) g.at_risk_power;
        }

    -- mb < alertThreshold
    unfoldable pub below_alert : W → Bool
    below_alert missed = f.lt missed (f.mul (f.of_nat slashing.max_missed_blocks) (f.ratio 2 10))

    unfoldable pub publish_infos :
        Dict String Validator → List SigningInfo → SigningGauges W → SigningGauges W
    publish_infos active [] g = g
    publish_infos active (info ∷ infos) g =
        let missed = f.parse_value info.missed_blocks_counter in
        let counted : SigningGauges W = record g {
          missed_blocks = Dict.insert info.address missed g.missed_blocks;
        } in
        elim (Dict.lookup info.address active) [
          | none ↦ publish_infos active infos counted
          | some v ↦
              publish_infos active infos
                (if below_alert missed then counted else set_risk v info.address missed counted)
        ]

    abbrev slashing_series : Dict String W → Dict String W
    slashing_series d = Dict.insert "slash_fraction_downtime" slashing.slash_fraction_downtime (
        Dict.insert "min_signed_per_window" slashing.min_signed_per_window (
          Dict.insert "max_missed_blocks" (f.of_nat slashing.max_missed_blocks) (
            Dict.insert "min_signed_blocks" (f.of_nat slashing.min_signed_blocks)
              (Dict.insert "signed_blocks_window" (f.of_nat slashing.signed_blocks_window) d))))

    unfoldable pub publish_val_info :
        List Validator → Dict (String × (String × String)) W → Dict (String × (String × String)) W
    publish_val_info [] d = d
    publish_val_info (v ∷ vs) d = elim (consensus_address_from_pub_key c (pub_key_of v)) [
      | err e ↦ publish_val_info vs d
      | ok address ↦
          publish_val_info vs
            (Dict.insert (address, (v.moniker, v.operator_address)) (f.of_nat 1) d)
    ]

    unfoldable pub publish_jailed : List Validator → Dict String W → Dict String W
    publish_jailed [] d = d
    publish_jailed (v ∷ vs) d =
        publish_jailed vs
          (Dict.insert v.operator_address (if v.jailed then f.of_nat 1 else f.of_nat 0) d)

    unfoldable pub publish_signing :
        List Validator → List SigningInfo → SigningGauges W → SigningGauges W
    publish_signing validators infos g0 =
        let g = publish_infos (consensus_to_validator c validators []) infos (reset_risk g0) in
        record g {
          slashing_param = slashing_series g.slashing_param;
          chain_block_time = some block_interval;
          val_info = publish_val_info validators g.val_info;
          val_jailed = publish_jailed validators g.val_jailed;
        }
