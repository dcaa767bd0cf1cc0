-- ===== src/Config.antt =====
-- config/config.go and entity/map.go: what the collector accepts as its configuration. Reading a file
-- and decoding YAML are a parameter.
pub mod Entity
pub mod Accounts
use validator_health_collect.Base.{
  ℕ, String, Bool, true, false, not, ◌&&◌, ◌||◌, Option, none, some, List, [], ◌∷◌, length, ◌==◌,
  string_eq, nat_eq, if◌then◌else◌,
}
use validator_health_collect.Base.Dict
use validator_health_collect.Base.Dict.{Dict}
use validator_health_collect.Base.Float.{Float64}
use validator_health_collect.Base.Results.{Result, ok, err, ◌>>=◌, ◌>>◌, refuse, or_fail}
use validator_health_collect.Go.Text.{trim_space, to_upper}
use validator_health_collect.Address.{Codec, AddressError, decode, encode}

pub record ManagedDelegator : Type 0 where
  pub name : String
  pub address : String

pub record Config (W : Type 0) : Type 0 where
  pub alert_threshold_percent : W
  pub warning_jail_progress_percent : W
  pub critical_jail_progress_percent : W
  pub accounts : List ManagedDelegator

pub data ConfigError : Type 0 where
  unreadable bad_threshold bad_jail_progress : ConfigError
  no_name no_address bad_address not_canonical repeated_name repeated_address : ConfigError

abbrev pub answered : Result AddressError (String × List ℕ) → Result ConfigError (String × List ℕ)
answered (ok a) = ok a
answered (err e) = err bad_address

abbrev pub canonical : Result AddressError String → Result ConfigError String
canonical (ok a) = ok a
canonical (err e) = err not_canonical

module _ (c : Codec) where
  -- One account, up to the checks against those before it. A Bech32 prefix is ASCII, so folding its
  -- case is `to_upper`.
  unfoldable pub canonical_account : ManagedDelegator → Result ConfigError ManagedDelegator
  canonical_account raw = do
    _ ← refuse (trim_space raw.name == "") no_name
    _ ← refuse (trim_space raw.address == "") no_address
    (hrp, data_bytes) ← answered (decode c (trim_space raw.address))
    _ ← refuse (not (to_upper hrp == "COSMOS") || not (length data_bytes == 20)) bad_address
    address ← canonical (encode c "cosmos" data_bytes)
    ok (record { name = trim_space raw.name; address = address })

  -- The loop over the accounts, with the names and the addresses so far.
  unfoldable pub check_accounts :
      Dict String Bool
      → Dict String Bool
      → List ManagedDelegator
      → Result ConfigError (List ManagedDelegator)
  check_accounts names addresses [] = ok []
  check_accounts names addresses (raw ∷ raws) = do
    account ← canonical_account raw
    _ ← refuse (Dict.lookup_or false account.name names) repeated_name
    _ ← refuse (Dict.lookup_or false account.address addresses) repeated_address
    rest ←
        check_accounts (Dict.insert account.name true names)
          (Dict.insert account.address true addresses) raws
    ok (account ∷ rest)

module _ {W : Type 0} ⦃f : Float64 W⦄ where
  unfoldable pub valid_percent : W → Bool
  valid_percent value =
      not (f.is_nan value)
      && not (f.is_inf value)
      && f.lt (f.of_nat 0) value
      && f.lt value (f.of_nat 100)

  unfoldable pub default_config : Config W
  default_config = record {
    alert_threshold_percent = f.of_nat 2;
    warning_jail_progress_percent = f.of_nat 10;
    critical_jail_progress_percent = f.of_nat 80;
    accounts = [];
  }

  -- What a file that was decoded has to satisfy.
  unfoldable pub validate : Codec → Config W → Result ConfigError (Config W)
  validate c cfg = do
    _ ←
        refuse
          (f.is_nan cfg.alert_threshold_percent
            || f.is_inf cfg.alert_threshold_percent
            || f.le cfg.alert_threshold_percent (f.of_nat 0)
            || f.lt (f.of_nat 100) cfg.alert_threshold_percent)
          bad_threshold
    _ ←
        refuse
          (not (valid_percent cfg.warning_jail_progress_percent)
            || not (valid_percent cfg.critical_jail_progress_percent)
            || f.le cfg.critical_jail_progress_percent cfg.warning_jail_progress_percent)
          bad_jail_progress
    accounts ← check_accounts c [] [] cfg.accounts
    ok (record cfg { accounts = accounts })

  -- `Load`: `read` is the file as the decoder leaves it on top of the defaults, if it has one document
  -- with known fields only.
  unfoldable pub load :
      Codec → (String → Option (Config W)) → String → Result ConfigError (Config W)
  load c read path =
      if path == ""
      then ok default_config
      else (or_fail (read path) unreadable >>= λ cfg. validate c cfg)
