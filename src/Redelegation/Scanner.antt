-- ===== src/Redelegation/Scanner.antt =====
-- `RedelegationScanner` of collector/redelegation.go: one scan of the rolling window. The two locks
-- make a scan one step.
use validator_health_collect.Base.{
  ℕ, ◌+◌, ◌-◌, String, Bool, true, false, not, ◌&&◌, Option, none, some, List, [], ◌∷◌, ◌==◌,
  nat_eq, string_eq, ltb, if◌then◌else◌,
}
use validator_health_collect.Base.Dict
use validator_health_collect.Base.Dict.{Dict}
use validator_health_collect.Base.Float.{Float64}
use validator_health_collect.Base.Results.{Result, ok, err}
use validator_health_collect.Go.Time.{Time, hour, zero_time, is_zero, before, after, unix}
use validator_health_collect.Client.Fetch.{FetchError}
use validator_health_collect.Validators.{Validator}
use validator_health_collect.Redelegation.Event.{RedelegationEvent, key}
use validator_health_collect.Redelegation.Search.{SearchError}
use validator_health_collect.Redelegation.Threshold.{
  ThresholdState, sum_source, update_threshold_states,
}

abbrev pub moniker_refresh_interval : ℕ
moniker_refresh_interval = hour

-- The fields that a scan changes, and the gauges of its outcome.
pub record Scanner (W : Type 0) : Type 0 where
  pub events : Dict String (RedelegationEvent W)
  pub last_success : Time
  pub monikers : Dict String String
  pub monikers_refreshed : Time
  pub threshold_states : Dict String ThresholdState
  pub scan_success : Bool
  pub scan_last_success : ℕ

pub record Settings (W : Type 0) : Type 0 where
  pub window : ℕ
  pub overlap : ℕ
  pub threshold_ratio : W

abbrev pub new_scanner : {W : Type 0} → Scanner W
new_scanner = record {
  events = [];
  last_success = zero_time;
  monikers = [];
  monikers_refreshed = zero_time;
  threshold_states = [];
  scan_success = false;
  scan_last_success = 0;
}

-- What the endpoints answer during a scan.
pub record Answers (W : Type 0) : Type 0 where
  pub query_redelegations : Time → Result SearchError (List (RedelegationEvent W))
  pub query_staking_pool : Result FetchError W
  pub query_bonded_validators : Result FetchError (List Validator)

pub data ScanError : Type 0 where
  querying_redelegations : SearchError → ScanError
  querying_bonded_pool : FetchError → ScanError
  pool_not_positive : ScanError

unfoldable pub monikers_of : List Validator → Dict String String → Dict String String
monikers_of [] d = d
monikers_of (v ∷ vs) d = monikers_of vs (Dict.insert v.operator_address v.moniker d)

unfoldable pub entity_name : Dict String String → String → String
entity_name entity_map validator =
    let name = Dict.lookup_or "" validator entity_map in if name == "" then "unmapped" else name

module _ {W : Type 0} ⦃f : Float64 W⦄ where
  unfoldable pub since_of : Settings W → Scanner W → Time → Time
  since_of c s now =
      let window_cutoff = now - c.window in
      if is_zero s.last_success
      then window_cutoff
      else (if after (s.last_success - c.overlap) window_cutoff
          then s.last_success - c.overlap
          else window_cutoff)

  unfoldable pub refresh_monikers : Answers W → Scanner W → Time → Scanner W
  refresh_monikers q s now =
      if not (is_zero s.monikers_refreshed)
        && ltb now (s.monikers_refreshed + moniker_refresh_interval)
      then s
      else elim q.query_bonded_validators [
        | err e ↦ s
        | ok validators ↦ record s {
          monikers = monikers_of validators [];
          monikers_refreshed = now;
        }
      ]

  unfoldable pub keep_recent :
      Time → Dict String (RedelegationEvent W) → Dict String (RedelegationEvent W)
  keep_recent cutoff = Dict.delete_if (λ k e. before e.timestamp cutoff)

  unfoldable pub merge :
      Time
      → List (RedelegationEvent W)
      → Dict String (RedelegationEvent W)
      → Dict String (RedelegationEvent W)
  merge cutoff [] d = d
  merge cutoff (e ∷ es) d =
      merge cutoff es (if before e.timestamp cutoff then d else Dict.insert (key e) e d)

  -- The locked part of a scan, with its update of the threshold states.
  unfoldable pub replace_events :
      Settings W → W → Scanner W → List (RedelegationEvent W) → Time → Scanner W
  replace_events c bonded s found now =
      let next = merge (now - c.window) found (keep_recent (now - c.window) s.events) in
      record s {
        events = next;
        last_success = now;
        threshold_states =
            update_threshold_states next (f.mul bonded c.threshold_ratio) (sum_source next [])
              s.threshold_states;
      }

  unfoldable pub scan_locked :
      Settings W → Answers W → Scanner W → Time → Result ScanError (Scanner W)
  scan_locked c q s now = elim (q.query_redelegations (since_of c s now)) [
    | err e ↦ err (querying_redelegations e)
    | ok found ↦ elim q.query_staking_pool [
      | err e ↦ err (querying_bonded_pool e)
      | ok bonded ↦
          if f.le bonded (f.of_nat 0)
          then err pool_not_positive
          else ok (replace_events c bonded (refresh_monikers q s now) found now)
    ]
  ]

  -- `Scan`
  unfoldable pub scan : Settings W → Answers W → Scanner W → Time → Scanner W × Option ScanError
  scan c q s now = elim (scan_locked c q s now) [
    | err e ↦ (record s { scan_success = false }, some e)
    | ok s' ↦ (record s' { scan_success = true; scan_last_success = unix now }, none)
  ]

  unfoldable pub moniker_name : Scanner W → String → String
  moniker_name s validator =
      let name = Dict.lookup_or "" validator s.monikers in if name == "" then validator else name
