-- ===== src/Collector/Signing/Risk.antt =====
-- Which validators have risk series, and how the series of one validator belong together.
use validator_health_collect.Base.{
  ◌≡◌, String, Bool, false, not, ◌&&◌, ◌||◌, none, some, List, [], ◌∷◌, ◌==◌, string_eq, pair_eq,
}
use validator_health_collect.Base.Dict
use validator_health_collect.Base.Dict.{Dict}
use validator_health_collect.Base.Float.{Float64}
use validator_health_collect.Address.{Codec}
use validator_health_collect.Validators.{Validator}
use validator_health_collect.Queries.Params.{SlashingParams}
use validator_health_collect.Governance.Publish.Gate.{is_some}
use validator_health_collect.Collector.Signing.{
  SigningInfo, RiskLabels, SigningGauges, blocks_left, risk_labels, below_alert, publish_infos,
}

module _ {W : Type 0} ⦃f : Float64 W⦄ (c : Codec) (entity_map : Dict String String)
    (share : Dict String W) (slashing : SlashingParams W) (block_interval : W) where
  abbrev infos_from : Dict String Validator → List SigningInfo → SigningGauges W → SigningGauges W
  infos_from = publish_infos c entity_map share slashing block_interval

  abbrev labels_of : Validator → String → RiskLabels
  labels_of = risk_labels c entity_map share slashing block_interval

  abbrev is_low : W → Bool
  is_low = below_alert c entity_map share slashing block_interval

  -- Whether some record is that of an active validator with these labels that misses at least a fifth of
  -- what jails.
  abbrev pub at_risk : Dict String Validator → RiskLabels → List SigningInfo → Bool
  at_risk active labels [] = false
  at_risk active labels (info ∷ infos) =
      (elim (Dict.lookup info.address active) [
        | none ↦ false
        | some v ↦
            labels == labels_of v info.address
            && not (is_low (f.parse_value info.missed_blocks_counter))
      ])
      || at_risk active labels infos

  -- What stands for one validator: all of the series or none, and the seconds for the blocks.
  abbrev pub IsTogether : RiskLabels → SigningGauges W → Type 0
  IsTogether labels g =
      (is_some (Dict.lookup labels g.missed_ratio)
        ≡ is_some (Dict.lookup labels g.missed_blocks_info))
      × (Dict.lookup labels g.blocks_to_jail ≡ elim (Dict.lookup labels g.missed_blocks_info) [
        | none ↦ none
        | some missed ↦ some (blocks_left slashing.max_missed_blocks missed)
      ])
      × (Dict.lookup labels g.seconds_to_jail ≡ elim (Dict.lookup labels g.blocks_to_jail) [
        | none ↦ none
        | some left ↦ some (f.mul left block_interval)
      ])
