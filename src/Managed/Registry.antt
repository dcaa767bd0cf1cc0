-- ===== src/Managed/Registry.antt =====
-- The registered gauges behind `managedMu` of collector/collector.go: a scanner that publishes under the lock, and a scrape
-- whose `Collect` reads under the read lock, one call at a time and interleaved in any order. A read lock
-- keeps only writers out, so other scrapes make no difference to this one.
use validator_health_collect.Base.{
  String, List, [], ◌∷◌, ◌++◌, map, ◌==◌, string_eq, nat_eq, list_eq, if◌then◌else◌,
}
use validator_health_collect.Base.Dict
use validator_health_collect.Base.Dict.{Dict}
use validator_health_collect.Base.Float.{Float64}
use validator_health_collect.Go.Time.{Time}
use validator_health_collect.Collector.Metrics.{Metric, collect_managed}
use validator_health_collect.Collector.Metrics.Exported.{index}
use validator_health_collect.Managed.{ManagedScanResult}
use validator_health_collect.Managed.Writes.{
  Call, reset, set, publish_calls, failure_calls, configure_calls,
}

-- For each gauge, its values by their label values.
abbrev pub Registry : Type 0 → Type 0
Registry W = Metric → Dict (List String) W

module _ {W : Type 0} where
  unfoldable pub perform : Call W → Registry W → Registry W
  perform (reset m) r = λ n. if index n == index m then [] else r n
  perform (set m labels value) r =
      λ n. if index n == index m then Dict.insert labels value (r n) else r n

  abbrev pub perform_all : List (Call W) → Registry W → Registry W
  perform_all [] r = r
  perform_all (c ∷ cs) r = perform_all cs (perform c r)

-- The gauges with their series.
abbrev pub series : {W : Type 0} → Registry W → List Metric → List (Metric × Dict (List String) W)
series r ms = map (λ m. (m, r m)) ms

-- The scanner outside its critical section, or inside with the calls that are left.
pub data Writer (W : Type 0) : Type 0 where
  idle : Writer W
  busy : List (Call W) → Writer W

-- The scrape outside, or inside with the gauges that are left and what it has collected.
pub data Reader (W : Type 0) : Type 0 where
  away : Reader W
  reading : List Metric → List (Metric × Dict (List String) W) → Reader W

module _ {W : Type 0} ⦃f : Float64 W⦄ where
  -- What the scanner does in one critical section.
  pub data Section : List (Call W) → Type 0 where
    configured :
        (accounts warning critical : W) → Section (configure_calls accounts warning critical)
    failed : Section failure_calls
    published : (result : ManagedScanResult W) (now : Time) → Section (publish_calls result now)

  -- One step of the scanner or of the scrape.
  pub data Step : Registry W → Writer W → Reader W → Registry W → Writer W → Reader W → Type 0 where
    lock : {r : Registry W} {cs : List (Call W)} → Section cs → Step r idle away r (busy cs) away
    call :
        {r : Registry W} {c : Call W} {cs : List (Call W)} {x : Reader W}
        → Step r (busy (c ∷ cs)) x (perform c r) (busy cs) x
    unlock : {r : Registry W} {x : Reader W} → Step r (busy []) x r idle x
    rlock : {r : Registry W} → Step r idle away r idle (reading collect_managed [])
    read :
        {r : Registry W} {w : Writer W} {m : Metric} {ms : List Metric}
        {got : List (Metric × Dict (List String) W)}
        → Step r w (reading (m ∷ ms) got) r w (reading ms (got ++ ((m, r m) ∷ [])))
    runlock :
        {r : Registry W} {w : Writer W} {got : List (Metric × Dict (List String) W)}
        → Step r w (reading [] got) r w away

  pub data Reach (r0 : Registry W) : Registry W → Writer W → Reader W → Type 0 where
    start : Reach r0 r0 idle away
    later :
        {r s : Registry W} {v w : Writer W} {x y : Reader W}
        → Reach r0 r v x
        → Step r v x s w y
        → Reach r0 s w y

  -- The registry between two critical sections.
  pub data Settled (r0 : Registry W) : Registry W → Type 0 where
    initial : Settled r0 r0
    after :
        {r : Registry W} {cs : List (Call W)}
        → Settled r0 r
        → Section cs
        → Settled r0 (perform_all cs r)
