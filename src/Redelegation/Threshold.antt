-- ===== src/Redelegation/Threshold.antt =====
-- The sums by source and the alert states of collector/redelegation.go.
use validator_health_collect.Base.{
  String, Bool, true, false, not, Option, none, some, List, [], ◌∷◌, ◌==◌, nat_eq, string_eq,
  if◌then◌else◌,
}
use validator_health_collect.Base.Dict
use validator_health_collect.Base.Dict.{Dict}
use validator_health_collect.Base.Float.{Float64}
use validator_health_collect.Go.Time.{Time, zero_time, after}
use validator_health_collect.Redelegation.Event.{RedelegationEvent, sort_redelegation_events}

pub record ThresholdState : Type 0 where
  pub above : Bool
  pub crossed_at : Time

pub record SourceAggregate (W : Type 0) : Type 0 where
  pub amount : W
  pub latest : Time

module _ {W : Type 0} ⦃f : Float64 W⦄ where
  unfoldable pub sum_source :
      Dict String (RedelegationEvent W)
      → Dict String (SourceAggregate W)
      → Dict String (SourceAggregate W)
  sum_source [] d = d
  sum_source ((k, e) ∷ events) d =
      let old = Dict.lookup_or (record { amount = f.of_nat 0; latest = zero_time }) e.source d in
      sum_source events (
        Dict.insert e.source
          (record {
            amount = f.add old.amount e.amount_uatom;
            latest = if after e.timestamp old.latest then e.timestamp else old.latest;
          })
          d)

  unfoldable pub of_source : String → List (RedelegationEvent W) → List (RedelegationEvent W)
  of_source source [] = []
  of_source source (e ∷ es) =
      let rest = of_source source es in if e.source == source then e ∷ rest else rest

  -- The time of the event at which the running sum reaches the threshold.
  unfoldable pub crossing : W → W → List (RedelegationEvent W) → Time
  crossing threshold cumulative [] = zero_time
  crossing threshold cumulative (e ∷ es) =
      let rest = crossing threshold (f.add cumulative e.amount_uatom) es in
      if f.le threshold (f.add cumulative e.amount_uatom) then e.timestamp else rest

  unfoldable pub reconstruct_crossing : Dict String (RedelegationEvent W) → String → W → Time
  reconstruct_crossing events source threshold =
      crossing threshold (f.of_nat 0)
        (sort_redelegation_events (of_source source (Dict.values events)))

  -- The first loop: a source with no event in the window is no longer above.
  unfoldable pub clear_absent :
      Dict String (SourceAggregate W) → Dict String ThresholdState → Dict String ThresholdState
  clear_absent by_source [] = []
  clear_absent by_source ((source, state) ∷ states) =
      (
        source,
        elim (Dict.lookup source by_source) [
          | none ↦ record state { above = false }
          | some a ↦ state
        ],
      )
      ∷ clear_absent by_source states

  -- The state of one source with events in the window.
  unfoldable pub next_state :
      Dict String (RedelegationEvent W) → W → String → W → Option ThresholdState → ThresholdState
  next_state events threshold source amount old =
      if not (f.le threshold amount)
      then elim old [
        | none ↦ record { above = false; crossed_at = zero_time }
        | some state ↦ record state { above = false }
      ]
      else elim old [
        | none ↦ record { above = true; crossed_at = reconstruct_crossing events source threshold }
        | some state ↦
            if not state.above
            then record { above = true; crossed_at = reconstruct_crossing events source threshold }
            else record state { above = true }
      ]

  unfoldable pub update_present :
      Dict String (RedelegationEvent W)
      → W
      → Dict String (SourceAggregate W)
      → Dict String ThresholdState
      → Dict String ThresholdState
  update_present events threshold [] states = states
  update_present events threshold ((source, a) ∷ by_source) states =
      update_present events threshold by_source (
        Dict.insert source (next_state events threshold source a.amount (Dict.lookup source states))
          states)

  unfoldable pub update_threshold_states :
      Dict String (RedelegationEvent W)
      → W
      → Dict String (SourceAggregate W)
      → Dict String ThresholdState
      → Dict String ThresholdState
  update_threshold_states events threshold by_source states =
      update_present events threshold by_source (clear_absent by_source states)
