-- ===== src/Tests/Redelegations.antt =====
-- The theorems on the redelegation window: two events of one source, at days 10 and 11, in a window
-- of 5 days, and a threshold of 50.
use validator_health_collect.Base.{
  string_eq, pair_eq, ℕ, ◌*◌, ◌≡◌, refl, ◌⊎◌, String, true, false, Option, none, [], ◌∷◌, arith,
  string_eq, nat_eq,
}
use validator_health_collect.Base.Dict
use validator_health_collect.Base.Dict.{Dict}
use validator_health_collect.Base.Results.{ok}
use validator_health_collect.Go.Time.{Time, day, zero_time}
use validator_health_collect.Go.Number.{format_nat}
use validator_health_collect.Redelegation.Event.{RedelegationEvent, key, sort_redelegation_events}
use validator_health_collect.Redelegation.Threshold.{
  ThresholdState, SourceAggregate, sum_source, of_source, reconstruct_crossing,
  update_threshold_states,
}
use validator_health_collect.Redelegation.Scanner.{
  Settings, Answers, new_scanner, scan, since_of, scan_locked,
}
use validator_health_collect.Redelegation.Window.{from, Outcome, scan-Outcome}
use validator_health_collect.Redelegation.Crossing.{
  Follows, StaysBelow, Crosses, update_threshold_states-Follows, reconstruct_crossing-Crosses,
}
use validator_health_collect.Redelegation.Incremental.{Promises, Run, started, scanned, run-Refines}
use validator_health_collect.Tests.Values.{percents}

abbrev event : String → Time → ℕ → RedelegationEvent ℕ
event hash t amount = record {
  tx_hash = hash;
  message_index = 0;
  timestamp = t;
  source = "acme";
  destination = "bolt";
  amount_uatom = amount;
}

abbrev settings : Settings ℕ
settings = record { window = 5 * day; overlap = 1 * day; threshold_ratio = 1 }

abbrev events : Dict String (RedelegationEvent ℕ)
events = ("A:0", event "A" (740010 * day) 30) ∷ ("B:0", event "B" (740011 * day) 30) ∷ []

abbrev answers : Answers ℕ
answers = record {
  query_redelegations = λ since. ok (event "C" (740012 * day) 30 ∷ []);
  query_staking_pool = ok 100;
  query_bonded_validators = ok [];
}

scan-Outcome_example :
    Outcome settings new_scanner (740013 * day) (scan settings answers new_scanner (740013 * day))
unfolding Dict.lookup
scan-Outcome_example =
    scan-Outcome settings answers new_scanner (740013 * day) 0
      (record { once = tt; keyed = λ k e h. cc; recent = λ k e h. cc })

abbrev index : String → Option (RedelegationEvent ℕ)
index k = Dict.lookup k (("C:0", event "C" (740012 * day) 30) ∷ [])

abbrev nothing : String → Option (RedelegationEvent ℕ)
nothing k = none

abbrev states : Dict String ThresholdState
states =
    ("acme", record { above = false; crossed_at = zero_time })
    ∷ ("gone", record { above = true; crossed_at = zero_time })
    ∷ []

abbrev total : SourceAggregate ℕ
total = record { amount = 60; latest = 740011 * day }

update_threshold_states-Follows_example :
    Follows events 50 "acme" 60
      (Dict.lookup "acme" states)
      (Dict.lookup "acme" (update_threshold_states events 50 (sum_source events []) states))
unfolding sum_source Dict.lookup Dict.insert Dict.lookup_or string_eq
update_threshold_states-Follows_example =
    update_threshold_states-Follows events 50 "acme" states total refl

reconstruct_crossing-Crosses_example :
    let es = sort_redelegation_events (of_source "acme" (Dict.values events)) in
    (StaysBelow 50 0 es × (reconstruct_crossing events "acme" 50 ≡ zero_time))
    ⊎ ((e : RedelegationEvent ℕ) × Crosses 50 0 es e
        × (reconstruct_crossing events "acme" 50 ≡ e.timestamp))
reconstruct_crossing-Crosses_example = reconstruct_crossing-Crosses events "acme" 50

succeeds : (scan settings answers new_scanner (740013 * day)).1 ≡ none
unfolding scan scan_locked
succeeds = refl

promises :
    Promises settings new_scanner (740013 * day) nothing index (event "C" (740012 * day) 30 ∷ [])
unfolding Dict.lookup since_of key format_nat
promises = record {
  search = λ k. ground arith;
  known = λ k e h lt. ground arith;
  grows = λ k e h. cc;
}

one_scan : Run settings (scan settings answers new_scanner (740013 * day)).0 (740008 * day) index
one_scan =
    scanned new_scanner 0 nothing answers (740013 * day) index (event "C" (740012 * day) 30 ∷ [])
      (started new_scanner 0 nothing refl (λ k. refl)) succeeds refl promises (omega arith)

run-Refines_example :
    Dict.lookup "C:0" (scan settings answers new_scanner (740013 * day)).0.events
    ≡ from (740008 * day) (index "C:0")
run-Refines_example =
    run-Refines settings (scan settings answers new_scanner (740013 * day)).0 (740008 * day) index
      "C:0" one_scan
