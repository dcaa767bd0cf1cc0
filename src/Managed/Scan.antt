-- ===== src/Managed/Scan.antt =====
-- `Scan` of collector/managed_delegation.go: what a scan leaves in the gauges.
use validator_health_collect.Base.{
  ℕ, ◌≡◌, refl, ap, ◌∙◌, String, Bool, true, false, Option, none, some, List, [], ◌∷◌, map, inl,
  inr,
}
use validator_health_collect.Base.Float.{Float64}
use validator_health_collect.Base.Results.{ok, err, Result-cases}
use validator_health_collect.Go.Time.{Time, unix}
use validator_health_collect.Managed.{
  ManagedAggregate, ManagedScanResult, Settings, Answers, ManagedError,
}
use validator_health_collect.Managed.Collect.{collect, operators_of}
use validator_health_collect.Managed.Collect.Operators.{operator_of, collect-operators}
use validator_health_collect.Managed.Publish.{
  AccountRow, ValidatorRow, account_rows, validator_rows, validator_row,
}

-- The gauges of the scanner; one that was never set is `none`.
pub record ManagedGauges (W : Type 0) : Type 0 where
  pub scan_success : Option Bool
  pub scan_last_success : Option ℕ
  pub accounts : List (AccountRow W)
  pub validators : List (ValidatorRow W)

module _ {W : Type 0} ⦃f : Float64 W⦄ where
  unfoldable pub publish : ManagedScanResult W → Time → ManagedGauges W
  publish result now = record {
    scan_success = some true;
    scan_last_success = some (unix now);
    accounts = account_rows result;
    validators = validator_rows result;
  }

  unfoldable pub scan :
      Settings → Answers W → Time → ManagedGauges W → ManagedGauges W × Option ManagedError
  scan cfg a now g = elim (collect cfg a now) [
    | err e ↦ (record g { scan_success = some false }, some e)
    | ok result ↦ (publish result now, none)
  ]

  abbrev row_operator : ValidatorRow W → String
  row_operator row = row.labels.0

  validator_rows-operators :
      (result : ManagedScanResult W) (xs : List (ManagedAggregate W))
      → map row_operator (map (validator_row result) xs) ≡ map operator_of xs
  unfolding validator_row
  validator_rows-operators result [] = refl
  validator_rows-operators result (x ∷ xs) =
      ap (λ rest. x.operator_address ∷ rest) (validator_rows-operators result xs)

  -- What a scan does to the gauges.
  abbrev pub Refreshes :
      Settings → Answers W → Time → ManagedGauges W → ManagedGauges W × Option ManagedError → Type 0
  Refreshes cfg a now g (g', some e) = g' ≡ record g { scan_success = some false }
  Refreshes cfg a now g (g', none) =
      (g'.scan_success ≡ some true)
      × (g'.scan_last_success ≡ some (unix now))
      × ((result : ManagedScanResult W) × (collect cfg a now ≡ ok result)
          × (map row_operator g'.validators ≡ operators_of result.accounts))

  -- A scan that fails changes the success gauge alone, so that the series of the last one stay. One that
  -- succeeds sets the time, and has one row for each operator that holds a position of an account, in
  -- order.
  pub scan-Refreshes :
      (cfg : Settings) (a : Answers W) (now : Time) (g : ManagedGauges W)
      → Refreshes cfg a now g (scan cfg a now g)
  unfolding scan publish validator_rows
  scan-Refreshes cfg a now g = elim (Result-cases (collect cfg a now)) [
    | inr (e, h) ↦ rw (h, scan) refl
    | inl (result, h) ↦
        let rows =
          validator_rows-operators result result.aggregates
          ∙ collect-operators cfg a now result h in
        rw (h, scan) (refl, refl, (result, h, rows))
  ]
