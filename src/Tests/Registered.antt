-- ===== src/Tests/Registered.antt =====
-- The theorems on the registered gauges.
use mathlib.Core.List.{append_assoc, append-nil}
use validator_health_collect.Base.{
  ℕ, ◌≡◌, sym, subst, String, none, some, true, false, ◌*◌, List, [], ◌∷◌, ◌++◌, All,
}
use validator_health_collect.Base.Dict.{Dict}
use validator_health_collect.Collector.Metrics.{Metric, collect_managed, gov_proposal_live}
use validator_health_collect.Collector.Metrics.Exported.{Exported, Metric-Exported}
use validator_health_collect.Go.Time.{day}
use validator_health_collect.Managed.{ManagedScanResult}
use validator_health_collect.Managed.Writes.{failure_calls, publish_calls}
use validator_health_collect.Managed.Registry.{
  Registry, perform_all, series, Writer, idle, reading, failed, published, lock, call, unlock,
  rlock, read, Reach, start, later, Settled,
}
use validator_health_collect.Managed.Scraping.{scrape-Settled}
use validator_health_collect.Managed.Labelled.{IsGuarded, Section-IsGuarded}
use validator_health_collect.Tests.Values.{percents}
use validator_health_collect.Tests.Gauges.{slashing}
use validator_health_collect.Tests.Managed.{positions}

Metric-Exported_example : Exported gov_proposal_live
Metric-Exported_example = Metric-Exported gov_proposal_live

-- A scrape that goes on to read what is left.
read_on :
    (r0 r : Registry ℕ) (w : Writer ℕ) (ms : List Metric)
    (got : List (Metric × Dict (List String) ℕ))
    → Reach r0 r w (reading ms got)
    → Reach r0 r w (reading [] (got ++ series r ms))
read_on r0 r w [] got h = subst (λ g. Reach r0 r w (reading [] g)) (sym (append-nil got)) h
read_on r0 r w (m ∷ ms) got h =
    subst (λ g. Reach r0 r w (reading [] g)) (append_assoc got ((m, r m) ∷ []) (series r ms))
      (read_on r0 r w ms (got ++ ((m, r m) ∷ [])) (later h read))

abbrev unset : Registry ℕ
unset = λ m. []

abbrev after_failure : Registry ℕ
after_failure = perform_all failure_calls unset

-- A scan that fails, and then a scrape.
one_scrape : Reach unset after_failure idle (reading [] (series after_failure collect_managed))
unfolding failure_calls
one_scrape =
    read_on unset after_failure idle collect_managed []
      (later (later (later (later start (lock failed)) call) unlock) rlock)

scrape-Settled_example :
    Settled unset after_failure
    × (series after_failure collect_managed ≡ series after_failure collect_managed)
scrape-Settled_example =
    scrape-Settled unset after_failure idle (series after_failure collect_managed) one_scrape

abbrev result : ManagedScanResult ℕ
result = record {
  accounts = positions;
  aggregates =
      record {
        operator_address = "other";
        moniker = "node";
        entity = "Bolt";
        consensus_address = "cosmosvalcons";
        accounts = "fund" ∷ [];
        amount_uatom = 7;
        missed_blocks = 3;
        active = true;
        jailed = false;
        tombstoned = false;
        commission = some 5;
        locked_uatom = 7;
        next_unlock = 740020 * day;
        final_unlock = 740020 * day;
        recent_miss_rate = 0;
      }
      ∷ [];
  total_uatom = 7;
  slashing = slashing;
  block_interval = 6;
  rewards = none;
}

Section-IsGuarded_example : All IsGuarded (publish_calls result (740000 * day))
Section-IsGuarded_example =
    Section-IsGuarded (publish_calls result (740000 * day)) (published result (740000 * day))
