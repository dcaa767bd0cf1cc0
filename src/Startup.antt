-- ===== src/Startup.antt =====
-- main.go with the constructors that it calls: `New`, `ConfigureRedelegation`, `SetProposalHistoryWindow`
-- and `ConfigureManagedDelegations` of collector/, and `NewResolver` of endpoints/.
use validator_health_collect.Base.{
  ℕ, ◌*◌, String, Option, none, some, [], ◌==◌, nat_eq, length, if◌then◌else◌,
}
use validator_health_collect.Base.Dict.{Dict}
use validator_health_collect.Base.Float.{Float64}
use validator_health_collect.Base.Results.{Result, ok, err, ◌>>=◌, or_fail}
use validator_health_collect.Go.Number.{Int64, nonneg, negative}
use validator_health_collect.Go.Time.{day}
use validator_health_collect.Address.{Codec}
use validator_health_collect.Config.{Config, ConfigError, load}
use validator_health_collect.Endpoints.Resolver.{Options}
use validator_health_collect.Redelegation.Scanner.{Settings as ScannerSettings}
use validator_health_collect.Collector.State.{Settings}
use validator_health_collect.Managed.{Settings as ManagedSettings}

-- The flags that are read once; a duration is its nanoseconds.
pub record Flags : Type 0 where
  pub rest : String
  pub rpc : String
  pub entity_map : String
  pub interval : Int64
  pub config : String
  pub redelegation_interval : Int64
  pub redelegation_window : Int64
  pub managed_delegation_interval : Int64
  pub proposal_history : Int64

-- The outcome of os.Stat: the file is there, it is not, or another error.
pub data Stat : Type 0 where
  present absent unknown : Stat

pub data StartupError : Type 0 where
  invalid_config : ConfigError → StartupError
  bad_redelegation_interval bad_redelegation_window bad_managed_interval : StartupError
  bad_entity_map no_stat : StartupError

-- The files: the configuration as its decoder leaves it, what os.Stat says of a path, and the entity map,
-- `none` where it cannot be loaded.
pub record Files (W : Type 0) : Type 0 where
  pub read_config : String → Option (Config W)
  pub stat : String → Stat
  pub load_entity_map : String → Option (Dict String String)

-- What the three loops start with; a poll interval that is not positive leaves the first one out.
pub record Started (W : Type 0) : Type 0 where
  pub options : Options
  pub collector : Settings
  pub poll_interval : Option ℕ
  pub redelegation_interval : ℕ
  pub redelegation : ScannerSettings W
  pub managed_interval : ℕ
  pub managed : ManagedSettings
  pub configured_accounts : ℕ
  pub warning_jail_progress : W
  pub critical_jail_progress : W

-- `d` with the test d > 0
unfoldable pub positive : Int64 → Option ℕ
positive (nonneg n) = if n == 0 then none else some n
positive (negative n) = none

abbrev pub configured :
    {W : Type 0} → Result ConfigError (Config W) → Result StartupError (Config W)
configured (ok cfg) = ok cfg
configured (err e) = err (invalid_config e)

-- A file that is absent is the empty map; one that is there and cannot be loaded stops the start.
unfoldable pub entity_map_of :
    Stat → Option (Dict String String) → Result StartupError (Dict String String)
entity_map_of present loaded = or_fail loaded bad_entity_map
entity_map_of absent loaded = ok []
entity_map_of unknown loaded = err no_stat

-- `SetProposalHistoryWindow`, after `New`
unfoldable pub history_window : Int64 → ℕ
history_window flag = elim (positive flag) [ none ↦ 14 * day | some window ↦ window ]

module _ {W : Type 0} ⦃f : Float64 W⦄ where
  abbrev pub percent : W → W
  percent value = f.div value (f.of_nat 100)

  unfoldable pub start :
      Codec → (String → Option (ℕ × ℕ)) → Flags → Files W → Result StartupError (Started W)
  start c rational flags files = do
    cfg ← configured (load c files.read_config flags.config)
    interval ← or_fail (positive flags.redelegation_interval) bad_redelegation_interval
    window ← or_fail (positive flags.redelegation_window) bad_redelegation_window
    managed_interval ← or_fail (positive flags.managed_delegation_interval) bad_managed_interval
    entity_map ←
        entity_map_of (files.stat flags.entity_map) (files.load_entity_map flags.entity_map)
    ok (record {
      options = record { rest_override = flags.rest; rpc_override = flags.rpc };
      collector = record {
        codec = c;
        entity_map = entity_map;
        proposal_history_window = history_window flags.proposal_history;
        rational = rational;
      };
      poll_interval = positive flags.interval;
      redelegation_interval = interval;
      redelegation = record {
        window = window;
        overlap = 2 * interval;
        threshold_ratio = percent cfg.alert_threshold_percent;
      };
      managed_interval = managed_interval;
      managed = record {
        codec = c;
        accounts = cfg.accounts;
        entity_map = entity_map;
        rational = rational;
      };
      configured_accounts = length cfg.accounts;
      warning_jail_progress = percent cfg.warning_jail_progress_percent;
      critical_jail_progress = percent cfg.critical_jail_progress_percent;
    })
