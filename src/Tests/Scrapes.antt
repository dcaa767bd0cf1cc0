-- ===== src/Tests/Scrapes.antt =====
-- The theorems on the writes of a cycle.
use validator_health_collect.Base.{arith, [], ◌∷◌, All, string_eq, ℕ}
use validator_health_collect.Base.Dict
use validator_health_collect.Base.Trace.{states}
use validator_health_collect.Governance.Gauges.{GovernanceGauges, no_gauges}
use validator_health_collect.Governance.Publish.Scraped.{Whole}
use validator_health_collect.Collector.Scraped.{cycle_writes, IsUniform, cycle_writes-IsUniform}
use validator_health_collect.Tests.Values.{percents, plain}
use validator_health_collect.Tests.Gauges.{validators, voting, live_tally, current_votes}

-- The gauges of the last cycle, with a quorum of 30.
abbrev last_gauges : GovernanceGauges ℕ
last_gauges = record no_gauges {
  proposal_live = ("6", 1) ∷ [];
  turnout = ("6", 55) ∷ [];
  live_quorum = ("6", 30) ∷ [];
}

last_gauges-Whole : Whole 30 last_gauges
unfolding Dict.lookup no_gauges
last_gauges-Whole id held = ground (arith)

cycle_writes-IsUniform_example : All (IsUniform 30 40) (
    states
      (cycle_writes 0 plain validators [] 100 40 33 live_tally current_votes voting [])
      last_gauges)
cycle_writes-IsUniform_example =
    cycle_writes-IsUniform 0 plain validators [] 100 40 33 live_tally current_votes voting [] 30
      last_gauges last_gauges-Whole
