-- ===== src/Redelegation/Event.antt =====
-- `RedelegationEvent` of collector/redelegation.go, its key, and the order of events.
use validator_health_collect.Base.{ℕ, String, ◌<>◌, Bool, List, ◌==◌, nat_eq, if◌then◌else◌}
use validator_health_collect.Base.Dict
use validator_health_collect.Base.Dict.{Dict}
use validator_health_collect.Base.Sort.{sort_by}
use validator_health_collect.Go.Text.{str_lt}
use validator_health_collect.Go.Number.{format_nat}
use validator_health_collect.Go.Time.{Time, before}

pub record RedelegationEvent (W : Type 0) : Type 0 where
  pub tx_hash : String
  pub message_index : ℕ
  pub timestamp : Time
  pub source : String
  pub destination : String
  pub amount_uatom : W

module _ {W : Type 0} where
  unfoldable pub key : RedelegationEvent W → String
  key e = e.tx_hash <> ":" <> format_nat e.message_index

  unfoldable pub event_less : RedelegationEvent W → RedelegationEvent W → Bool
  event_less a b =
      if a.timestamp == b.timestamp then str_lt (key a) (key b) else before a.timestamp b.timestamp

  -- `sortRedelegationEvents` and `sortedRedelegationEvents`
  unfoldable pub sort_redelegation_events : List (RedelegationEvent W) → List (RedelegationEvent W)
  sort_redelegation_events = sort_by event_less

  unfoldable pub sorted_redelegation_events :
      Dict String (RedelegationEvent W) → List (RedelegationEvent W)
  sorted_redelegation_events seen = sort_redelegation_events (Dict.values seen)
