-- ===== src/Validators.antt =====
-- Validators and slashing: parts of collector/types.go, collector/queries.go and
-- collector/collector.go.
pub mod Slashing
use validator_health_collect.Base.{
  ℕ, zero, suc, String, Bool, true, false, not, Option, none, some, List, [], ◌∷◌, ◌==◌, string_eq,
  if◌then◌else◌,
}
use validator_health_collect.Base.Dict
use validator_health_collect.Base.Dict.{Dict}
use validator_health_collect.Base.Results.{Result, ok, err}
use validator_health_collect.Address.{Codec, AddressError, consensus_hex_from_pub_key}

-- The map of a consensus key, by the two entries that are read: `none` where one is absent or no
-- string.
pub record PubKey : Type 0 where
  pub key_type : Option String
  pub key : Option String

pub record Validator : Type 0 where
  pub operator_address : String
  pub consensus_pub_key : Option PubKey
  pub jailed : Bool
  pub status : String
  pub tokens : String
  pub moniker : String
  pub commission_rate : String

key_of : PubKey → String
key_of k = elim k.key_type [
  | none ↦ ""
  | some t ↦
      if t == "/cosmos.crypto.ed25519.PubKey" then elim k.key [ none ↦ "" | some key ↦ key ] else ""
]

unfoldable pub pub_key_of : Validator → String
unfolding key_of
pub_key_of v = elim v.consensus_pub_key [ none ↦ "" | some k ↦ key_of k ]

-- The loop of `CollectSnapshot` that keeps the bonded validators in the consensus set.
unfoldable pub in_consensus : Codec → Dict String Bool → Validator → Bool
in_consensus c consensus_set v = elim (consensus_hex_from_pub_key c (pub_key_of v)) [
  | err e ↦ false
  | ok hex ↦ Dict.lookup_or false hex consensus_set
]
