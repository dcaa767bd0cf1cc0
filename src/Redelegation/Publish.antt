-- ===== src/Redelegation/Publish.antt =====
-- `publishLocked` of collector/redelegation.go: the gauges of a window, by source and by pair of
-- source and destination.
use validator_health_collect.Base.{
  ℕ, ◌+◌, ◌≡◌, String, Bool, Option, none, some, List, [], ◌∷◌, map, arith, length, select,
  Option-cases, inl, inr, ◌==◌, string_eq, pair_eq, if◌then◌else◌,
}
use validator_health_collect.Base.Dict
use validator_health_collect.Base.Dict.{Dict, lookup-insert}
use validator_health_collect.Base.Float.{Float64}
use validator_health_collect.Base.Sort.{sort_by}
use validator_health_collect.Go.Text.{str_lt}
use validator_health_collect.Go.Time.{is_zero, unix}
use validator_health_collect.Redelegation.Event.{RedelegationEvent}
use validator_health_collect.Redelegation.Threshold.{ThresholdState, SourceAggregate, sum_source}
use validator_health_collect.Redelegation.Scanner.{Scanner, moniker_name, entity_name}

-- source and destination
abbrev pub RedelegationPair : Type 0
RedelegationPair = String × String

pub record PairAggregate (W : Type 0) : Type 0 where
  pub amount : W
  pub count : ℕ

-- The gauges of one source: the labels source, moniker and entity, and the values. The time of the
-- crossing is set only if there is one.
pub record SourceGauges (W : Type 0) : Type 0 where
  pub labels : String × String × String
  pub outflow_ratio : W
  pub outflow_atom : W
  pub latest_event : ℕ
  pub threshold_crossed : Option ℕ

-- The gauges of one pair: the same three labels of each end, and the values.
pub record PairGauges (W : Type 0) : Type 0 where
  pub labels : (String × String × String) × (String × String × String)
  pub flow_ratio : W
  pub flow_atom : W
  pub event_count : ℕ

abbrev pub pair_less : {W : Type 0} → RedelegationPair × W → RedelegationPair × W → Bool
pair_less ((a, b), _) ((c, d), _) = if a == c then str_lt b d else str_lt a c

abbrev pub source_less : {W : Type 0} → String × W → String × W → Bool
source_less (a, _) (b, _) = str_lt a b

unfoldable pub crossed_of : Option ThresholdState → Option ℕ
crossed_of none = none
crossed_of (some state) = if is_zero state.crossed_at then none else some (unix state.crossed_at)

module _ {W : Type 0} ⦃f : Float64 W⦄ where
  unfoldable pub sum_pairs :
      Dict String (RedelegationEvent W)
      → Dict RedelegationPair (PairAggregate W)
      → Dict RedelegationPair (PairAggregate W)
  sum_pairs [] d = d
  sum_pairs ((k, e) ∷ events) d =
      let old =
        Dict.lookup_or (record { amount = f.of_nat 0; count = 0 }) (e.source, e.destination) d in
      sum_pairs events (
        Dict.insert (e.source, e.destination)
          (record { amount = f.add old.amount e.amount_uatom; count = old.count + 1 }) d)

  module _ (entity_map : Dict String String) (s : Scanner W) (bonded : W) where
    abbrev labels_of : String → String × String × String
    labels_of validator = (validator, moniker_name s validator, entity_name entity_map validator)

    unfoldable pub source_gauges : String × SourceAggregate W → SourceGauges W
    source_gauges (source, a) = record {
      labels = labels_of source;
      outflow_ratio = f.div a.amount bonded;
      outflow_atom = f.div a.amount (f.of_nat 1000000);
      latest_event = unix a.latest;
      threshold_crossed = crossed_of (Dict.lookup source s.threshold_states);
    }

    unfoldable pub pair_gauges : RedelegationPair × PairAggregate W → PairGauges W
    pair_gauges ((source, destination), a) = record {
      labels = (labels_of source, labels_of destination);
      flow_ratio = f.div a.amount bonded;
      flow_atom = f.div a.amount (f.of_nat 1000000);
      event_count = a.count;
    }

    -- What stands in the gauges after they are reset and set. The threshold states are those that the
    -- scan has updated.
    unfoldable pub publish : List (SourceGauges W) × List (PairGauges W)
    publish = (
      map source_gauges (sort_by source_less (sum_source s.events [])),
      map pair_gauges (sort_by pair_less (sum_pairs s.events [])),
    )

  abbrev pub count_of : Option (PairAggregate W) → ℕ
  count_of none = 0
  count_of (some a) = a.count

  abbrev pub is_pair : RedelegationPair → RedelegationEvent W → Bool
  is_pair pair e = pair == (e.source, e.destination)

  count-lookup_or :
      (pair : RedelegationPair) (d : Dict RedelegationPair (PairAggregate W))
      → (Dict.lookup_or (record { amount = f.of_nat 0; count = 0 }) pair d).count
        ≡ count_of (Dict.lookup pair d)
  unfolding Dict.lookup_or
  count-lookup_or pair d = elim (Option-cases (Dict.lookup pair d)) [
    | inl e ↦ rw (e, Dict.lookup_or)
    | inr (a, e) ↦ rw (e, Dict.lookup_or)
  ]

  sum_pairs-count :
      (pair : RedelegationPair) (events : Dict String (RedelegationEvent W))
      (d : Dict RedelegationPair (PairAggregate W))
      → count_of (Dict.lookup pair (sum_pairs events d))
        ≡ count_of (Dict.lookup pair d) + length (select (is_pair pair) (Dict.values events))
  unfolding sum_pairs Dict.values
  sum_pairs-count pair [] d = omega arith
  sum_pairs-count pair ((k, e) ∷ events) d =
      let pr : RedelegationPair = (e.source, e.destination) in
      let none_yet : PairAggregate W = record { amount = f.of_nat 0; count = 0 } in
      let old = Dict.lookup_or none_yet pr d in
      let new : PairAggregate W = record {
        amount = f.add old.amount e.amount_uatom;
        count = old.count + 1;
      } in
      let ih = sum_pairs-count pair events (Dict.insert pr new d) in
      let l = lookup-insert pair pr new d in
      let c = count-lookup_or pr d in
      elim (pair_eq.dec pair pr) [
        | yes same ↦ ground (arith, ih, l, c, same)
        | no differ ↦ ground (arith, ih, l, c, differ)
      ]

  -- The number of events that is published for a pair of source and destination is the number of the
  -- window's events from this source to this destination.
  pub count-sum_pairs :
      (pair : RedelegationPair) (events : Dict String (RedelegationEvent W))
      → count_of (Dict.lookup pair (sum_pairs events []))
        ≡ length (select (is_pair pair) (Dict.values events))
  unfolding Dict.lookup
  count-sum_pairs pair events = omega (arith, sum_pairs-count pair events [])
