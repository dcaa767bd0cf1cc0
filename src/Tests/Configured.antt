-- ===== src/Tests/Configured.antt =====
-- The theorems on the configuration, with one account whose name is padded, and on a prefix.
use validator_health_collect.Base.{
  ℕ, ◌≡◌, refl, list_eq, ◌++◌, String, true, false, Option, none, some, List, [], ◌∷◌, All, ◌==◌,
  string_eq, nat_eq, if◌then◌else◌,
}
use validator_health_collect.Base.Dict
use validator_health_collect.Base.Dict.{Dict}
use validator_health_collect.Base.Results.{ok}
use validator_health_collect.Go.Text.{trim_space, to_upper}
use validator_health_collect.Address.{Codec, decode, encode}
use validator_health_collect.Config.{
  Config, canonical_account, check_accounts, valid_percent, validate,
}
use validator_health_collect.Config.Accounts.{IsCanonical, IsDistinct, validate-accounts}
use validator_health_collect.Config.Entity.{Entry}
use validator_health_collect.Tests.Values.{percents, plain}

abbrev zeros : List ℕ
zeros = 0 ∷ 0 ∷ 0 ∷ 0 ∷ 0 ∷ 0 ∷ 0 ∷ 0 ∷ 0 ∷ 0 ∷ 0 ∷ 0 ∷ 0 ∷ 0 ∷ 0 ∷ 0 ∷ 0 ∷ 0 ∷ 0 ∷ 0 ∷ []

-- A codec of one account.
abbrev one_account : Codec
one_account = record plain { bech32_decode = λ a. some ("cosmos", zeros) }

abbrev config : String → Config ℕ
config name = record {
  alert_threshold_percent = 2;
  warning_jail_progress_percent = 10;
  critical_jail_progress_percent = 80;
  accounts = record { name = name; address = "cosmos" } ∷ [];
}

validates : validate one_account (config " treasury ") ≡ ok (config "treasury")
unfolding validate valid_percent check_accounts canonical_account decode encode trim_space to_upper
    string_eq nat_eq Dict.lookup_or
validates = refl

validate-accounts_example :
    All (IsCanonical one_account) (config "treasury").accounts
    × IsDistinct (config "treasury").accounts
    × (valid_percent {W = ℕ} 10 ≡ true)
    × (valid_percent {W = ℕ} 80 ≡ true)
    × (percents.le 80 10 ≡ false)
validate-accounts_example =
    validate-accounts one_account (config " treasury ") (config "treasury") validates

abbrev entries : List Entry
entries =
    record { name = "Acme"; validators = "v" ∷ [] }
    ∷ record { name = "Bolt"; validators = "v" ∷ [] }
    ∷ []

abbrev no_names : Dict String String
no_names = []

-- A codec of the one address of 20 zero bytes, which is the first part of every sum.
abbrev only_zeros : List ℕ → Option (List ℕ)
only_zeros d = if d == zeros then some d else none

abbrev encode_zeros : String → List ℕ → Option String
encode_zeros hrp d =
    if hrp == "cosmosvalcons" then (if d == zeros then some "cosmosvalcons1" else none) else none

abbrev zero_codec : Codec
zero_codec = record plain {
  convert_bits = λ d from to pad. only_zeros d;
  bech32_encode = encode_zeros;
  bech32_decode = λ a. some ("cosmosvalcons", zeros);
  sha256 = λ d. zeros ++ (0 ∷ 0 ∷ 0 ∷ 0 ∷ 0 ∷ 0 ∷ 0 ∷ 0 ∷ 0 ∷ 0 ∷ 0 ∷ 0 ∷ []);
}
