-- ===== src/Managed/Labelled.antt =====
-- The label values that the calls of `publish` pass, and the gauges that they are made on.
use validator_health_collect.Base.{
  ℕ, ◌<◌, ◌≡◌, refl, String, Option, none, some, List, [], ◌∷◌, map, length, All, All-append, arith,
  nat_eq, string_eq,
}
use validator_health_collect.Base.Float.{Float64}
use validator_health_collect.Collector.Metrics.{
  Metric, collect_managed, managed_validator_portfolio_share,
  managed_validator_estimated_rewards_lost,
}
use validator_health_collect.Collector.Metrics.Options.{
  Opts, new_metrics, snapshot_opts, governance_opts, redelegation_opts, managed_opts,
}
use validator_health_collect.Collector.Metrics.Exported.{index, times, options_of}
use validator_health_collect.Managed.Publish.{
  AccountRow, ValidatorRow, account_rows, validator_rows,
}
use validator_health_collect.Managed.Writes.{
  Call, reset, set, reset_metrics, account_call, set_some, validator_calls, rows_calls,
  publish_calls, failure_calls, configure_calls,
}
use validator_health_collect.Managed.Registry.{Section, configured, failed, published}

abbrev labels_in : Option Opts → List String
labels_in none = []
labels_in (some o) = o.labels

-- The number of labels of a gauge.
abbrev pub arity : Metric → ℕ
arity m = length (labels_in (options_of m))

module _ {W : Type 0} where
  -- A call on a gauge that `Collect` reads under the lock, with a value for each of its labels; a gauge
  -- that is reset has labels.
  abbrev pub IsGuarded : Call W → Type 0
  IsGuarded (reset m) = (times m collect_managed ≡ 1) × (0 < arity m)
  IsGuarded (set m values v) = (times m collect_managed ≡ 1) × (length values ≡ arity m)

  All-mapped :
      {A : Type 0} (g : A → Call W) (xs : List A)
      → ((a : A) → IsGuarded (g a))
      → All IsGuarded (map g xs)
  All-mapped g [] h = tt
  All-mapped g (x ∷ xs) h = (h x, All-mapped g xs h)

reset_metrics-IsGuarded : (W : Type 0) → All IsGuarded (reset_metrics {W = W})
unfolding reset_metrics index collect_managed new_metrics snapshot_opts governance_opts
    redelegation_opts managed_opts nat_eq
reset_metrics-IsGuarded W = omega arith

module _ {W : Type 0} ⦃f : Float64 W⦄ where
  set_some-IsGuarded :
      (m : Metric) (labels : List String) (o : Option W)
      → (times m collect_managed ≡ 1) × (length labels ≡ arity m)
      → All IsGuarded (set_some m labels o)
  set_some-IsGuarded m labels none h = tt
  set_some-IsGuarded m labels (some v) h = (h, tt)

  account_call-IsGuarded : (row : AccountRow W) → IsGuarded (account_call row)
  unfolding account_call index collect_managed new_metrics snapshot_opts governance_opts
      redelegation_opts managed_opts nat_eq
  account_call-IsGuarded row = (refl, refl)

  validator_calls-IsGuarded : (row : ValidatorRow W) → All IsGuarded (validator_calls row)
  unfolding validator_calls index collect_managed new_metrics snapshot_opts governance_opts
      redelegation_opts managed_opts nat_eq
  validator_calls-IsGuarded row = (
    (refl, refl),
    All-append _ _ _
        (set_some-IsGuarded managed_validator_portfolio_share _ row.portfolio_share (refl, refl))
        (
          (refl, refl),
          (
            (refl, refl),
            (
              (refl, refl),
              (
                (refl, refl),
                (
                  (refl, refl),
                  (
                    (refl, refl),
                    (
                      (refl, refl),
                      (
                        (refl, refl),
                        (
                          (refl, refl),
                          (
                            (refl, refl),
                            (
                              (refl, refl),
                              (
                                (refl, refl),
                                (
                                  (refl, refl),
                                  (
                                    (refl, refl),
                                    (
                                      (refl, refl),
                                      set_some-IsGuarded managed_validator_estimated_rewards_lost _
                                          row.estimated_rewards_lost (refl, refl),
                                    ),
                                  ),
                                ),
                              ),
                            ),
                          ),
                        ),
                      ),
                    ),
                  ),
                ),
              ),
            ),
          ),
        ),
  )

  rows_calls-IsGuarded : (rows : List (ValidatorRow W)) → All IsGuarded (rows_calls rows)
  unfolding rows_calls
  rows_calls-IsGuarded [] = tt
  rows_calls-IsGuarded (row ∷ rows) =
      All-append _ _ _ (validator_calls-IsGuarded row) (rows_calls-IsGuarded rows)

  -- Whatever a critical section of the scanner does, each of its calls is on a gauge that `Collect` reads
  -- under the lock, once, and passes as many label values as the gauge was constructed with labels.
  pub Section-IsGuarded : (cs : List (Call W)) → Section cs → All IsGuarded cs
  unfolding configure_calls failure_calls publish_calls index collect_managed new_metrics
      snapshot_opts governance_opts redelegation_opts managed_opts nat_eq
  Section-IsGuarded cs (configured accounts warning critical) =
      ((refl, refl), ((refl, refl), ((refl, refl), tt)))
  Section-IsGuarded cs failed = ((refl, refl), tt)
  Section-IsGuarded cs (published result now) = All-append _ _ _ (reset_metrics-IsGuarded W) (
      All-append _ _ _ (All-mapped account_call (account_rows result) account_call-IsGuarded) (
        All-append _ _ _ (rows_calls-IsGuarded (validator_rows result))
          ((refl, refl), ((refl, refl), tt))))
