-- ===== src/Redelegation/Crossing.antt =====
-- When a source is above the threshold, and since when.
use validator_health_collect.Base.{
  ◌≡◌, refl, ap, ◌≢◌, ◌⊎◌, inl, inr, String, true, false, Option, none, some, List, [], ◌∷◌, ◌++◌,
  arith, string_eq, Bool-cases,
}
use validator_health_collect.Base.Dict
use validator_health_collect.Base.Dict.{
  Dict, NodupKeys, lookup-nil, lookup-cons, lookup-insert, insert-NodupKeys,
}
use validator_health_collect.Base.Float.{Float64}
use validator_health_collect.Go.Time.{zero_time}
use validator_health_collect.Redelegation.Event.{RedelegationEvent, sort_redelegation_events}
use validator_health_collect.Redelegation.Threshold.{
  ThresholdState, SourceAggregate, sum_source, of_source, crossing, reconstruct_crossing,
  clear_absent, next_state, update_present, update_threshold_states,
}

abbrev pub not_above : Option ThresholdState → Option ThresholdState
not_above none = none
not_above (some state) = some (record state { above = false })

module _ {W : Type 0} ⦃f : Float64 W⦄ where
  sum_source-NodupKeys :
      (events : Dict String (RedelegationEvent W)) (d : Dict String (SourceAggregate W))
      → NodupKeys d
      → NodupKeys (sum_source events d)
  unfolding sum_source
  sum_source-NodupKeys [] d u = u
  sum_source-NodupKeys ((k, e) ∷ events) d u =
      sum_source-NodupKeys events _ (insert-NodupKeys e.source _ d u)

  abbrev cleared : Option (SourceAggregate W) → Option ThresholdState → Option ThresholdState
  cleared none state = not_above state
  cleared (some a) state = state

  abbrev advanced :
      Dict String (RedelegationEvent W)
      → W
      → String
      → Option (SourceAggregate W)
      → Option ThresholdState
      → Option ThresholdState
  advanced events threshold source none state = state
  advanced events threshold source (some a) state =
      some (next_state events threshold source a.amount state)

  lookup-clear_absent :
      (source : String) (by_source : Dict String (SourceAggregate W))
      (states : Dict String ThresholdState)
      → Dict.lookup source (clear_absent by_source states)
        ≡ cleared (Dict.lookup source by_source) (Dict.lookup source states)
  unfolding clear_absent
  lookup-clear_absent source by_source [] = ground (arith, lookup-nil {V = ThresholdState} source)
  lookup-clear_absent source by_source ((j, state) ∷ states) =
      let kept : ThresholdState = elim (Dict.lookup j by_source) [
        | none ↦ record state { above = false }
        | some a ↦ state
      ] in
      ground (
        arith,
        lookup-clear_absent source by_source states,
        lookup-cons source j state states,
        lookup-cons source j kept (clear_absent by_source states),
      )

  lookup-update_present :
      (events : Dict String (RedelegationEvent W)) (threshold : W) (source : String)
      (by_source : Dict String (SourceAggregate W)) (states : Dict String ThresholdState)
      → NodupKeys by_source
      → Dict.lookup source (update_present events threshold by_source states)
        ≡ advanced events threshold source
            (Dict.lookup source by_source)
            (Dict.lookup source states)
  unfolding update_present
  lookup-update_present events threshold source [] states u =
      ground (arith, lookup-nil {V = SourceAggregate W} source)
  lookup-update_present events threshold source ((j, a) ∷ by_source) states (fresh, u) =
      let state = next_state events threshold j a.amount (Dict.lookup j states) in
      ground (
        arith,
        fresh,
        lookup-update_present events threshold source by_source (Dict.insert j state states) u,
        lookup-cons source j a by_source,
        lookup-insert source j state states,
      )

  -- How the running sum from `cumulative` stays below the threshold along a list.
  abbrev pub StaysBelow : W → W → List (RedelegationEvent W) → Type 0
  StaysBelow threshold cumulative [] = Unit
  StaysBelow threshold cumulative (e ∷ es) =
      (f.le threshold (f.add cumulative e.amount_uatom) ≡ false)
      × StaysBelow threshold (f.add cumulative e.amount_uatom) es

  abbrev pub running_sum : W → List (RedelegationEvent W) → W
  running_sum cumulative [] = cumulative
  running_sum cumulative (e ∷ es) = running_sum (f.add cumulative e.amount_uatom) es

  -- The event at which the running sum first reaches the threshold, with those before and behind it.
  abbrev pub Crosses : W → W → List (RedelegationEvent W) → RedelegationEvent W → Type 0
  Crosses threshold cumulative es e =
      (pre : List (RedelegationEvent W)) × (post : List (RedelegationEvent W)) × (es
        ≡ pre ++ (e ∷ post))
      × StaysBelow threshold cumulative pre
      × (f.le threshold (f.add (running_sum cumulative pre) e.amount_uatom) ≡ true)

  crossing-Crosses :
      (threshold cumulative : W) (es : List (RedelegationEvent W))
      → (StaysBelow threshold cumulative es × (crossing threshold cumulative es ≡ zero_time))
        ⊎ ((e : RedelegationEvent W) × Crosses threshold cumulative es e
            × (crossing threshold cumulative es ≡ e.timestamp))
  unfolding crossing
  crossing-Crosses threshold cumulative [] = inl (tt, refl)
  crossing-Crosses threshold cumulative (e ∷ es) =
      let next = f.add cumulative e.amount_uatom in
      elim (Bool-cases (f.le threshold next)) [
        | inl hit ↦ inr (e, ([], es, refl, tt, hit), ground arith)
        | inr miss ↦ elim (crossing-Crosses threshold next es) [
          | inl (below, z) ↦ inl ((miss, below), ground arith)
          | inr (x, (pre, post, split, below, hit), t) ↦
              inr (x, (e ∷ pre, post, ap (◌∷◌ e) split, (miss, below), hit), ground arith)
        ]
      ]

  -- How the state of a source follows from its old state and its sum over the window.
  pub record Follows (events : Dict String (RedelegationEvent W)) (threshold : W) (source : String)
      (amount : W) (old new : Option ThresholdState) : Type 0 where
    pub present : (state : ThresholdState) → new ≡ some state → state.above ≡ f.le threshold amount
    pub defined : new ≢ none
    pub stays :
        (was state : ThresholdState)
        → old ≡ some was
        → new ≡ some state
        → (was.above ≡ true) ⊎ (f.le threshold amount ≡ false)
        → state.crossed_at ≡ was.crossed_at
    pub crosses :
        (state : ThresholdState)
        → new ≡ some state
        → f.le threshold amount ≡ true
        → ((was : ThresholdState) → old ≡ some was → was.above ≡ false)
        → state.crossed_at ≡ reconstruct_crossing events source threshold

  next_state-Follows :
      (events : Dict String (RedelegationEvent W)) (threshold : W) (source : String) (amount : W)
      (old : Option ThresholdState)
      → Follows events threshold source amount old
          (some (next_state events threshold source amount old))
  unfolding next_state
  next_state-Follows events threshold source amount none = record {
    present = λ state e. ground arith;
    defined = λ e. cc;
    stays = λ was state e. cc;
    crosses = λ state e h n. ground arith;
  }
  next_state-Follows events threshold source amount (some was) = record {
    present = λ state e. ground arith;
    defined = λ e. cc;
    stays = λ was' state e e' h. ground arith;
    crosses = λ state e h n. ground (arith, n was refl);
  }

  -- After a scan the alert state of a source with events in the window exists and is above exactly if
  -- its sum is at or above the threshold. It keeps its crossing time while it stays above, and while
  -- it is below; when it was not above before, it takes the time that is reconstructed from the
  -- events.
  pub update_threshold_states-Follows :
      (events : Dict String (RedelegationEvent W)) (threshold : W) (source : String)
      (states : Dict String ThresholdState) (a : SourceAggregate W)
      → Dict.lookup source (sum_source events []) ≡ some a
      → Follows events threshold source a.amount (Dict.lookup source states) (
          Dict.lookup source
            (update_threshold_states events threshold (sum_source events []) states))
  unfolding update_threshold_states
  update_threshold_states-Follows events threshold source states a h =
      let by_source = sum_source events [] in
      let e =
        lookup-update_present events threshold source by_source (clear_absent by_source states)
          (sum_source-NodupKeys events [] tt) in
      let c = lookup-clear_absent source by_source states in
      let new : Dict.lookup source
            (update_present events threshold by_source (clear_absent by_source states))
          ≡ some (next_state events threshold source a.amount (Dict.lookup source states)) =
        ground (arith, e, c, h) in
      rw new (next_state-Follows events threshold source a.amount (Dict.lookup source states))

  -- The state of a source with no events in the window is not above after a scan, and keeps its time.
  pub update_threshold_states-absent :
      (events : Dict String (RedelegationEvent W)) (threshold : W) (source : String)
      (states : Dict String ThresholdState)
      → Dict.lookup source (sum_source events []) ≡ none
      → Dict.lookup source (update_threshold_states events threshold (sum_source events []) states)
        ≡ not_above (Dict.lookup source states)
  unfolding update_threshold_states
  update_threshold_states-absent events threshold source states h =
      let by_source = sum_source events [] in
      let e =
        lookup-update_present events threshold source by_source (clear_absent by_source states)
          (sum_source-NodupKeys events [] tt) in
      let c = lookup-clear_absent source by_source states in ground (arith, e, c, h)

  -- The reconstructed time is that of the first event of the source, in the order of time, at which the
  -- sum of its events so far reaches the threshold, or the zero time if none does.
  pub reconstruct_crossing-Crosses :
      (events : Dict String (RedelegationEvent W)) (source : String) (threshold : W)
      → let es = sort_redelegation_events (of_source source (Dict.values events)) in
        (StaysBelow threshold (f.of_nat 0) es
          × (reconstruct_crossing events source threshold ≡ zero_time))
        ⊎ ((e : RedelegationEvent W) × Crosses threshold (f.of_nat 0) es e
            × (reconstruct_crossing events source threshold ≡ e.timestamp))
  unfolding reconstruct_crossing
  reconstruct_crossing-Crosses events source threshold = crossing-Crosses threshold (f.of_nat 0) _
