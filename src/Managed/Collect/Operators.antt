-- ===== src/Managed/Collect/Operators.antt =====
-- The aggregates that `collect` returns: one for each operator, with the sum of its positions.
use validator_health_collect.Base.{
  ◌≡◌, refl, ap, sym, subst, ◌∙◌, String, Bool, true, false, List, [], ◌∷◌, map, arith, All, ◌==◌,
  string_eq, if◌then◌else◌,
}
use validator_health_collect.Base.Dict
use validator_health_collect.Base.Dict.{Dict, lookup-insert}
use validator_health_collect.Base.Float.{Float64}
use validator_health_collect.Base.Results.{ok, bind-ok, refuse, ok-injective}
use validator_health_collect.Go.Time.{Time}
use validator_health_collect.Validators.{Validator}
use validator_health_collect.Governance.Analysis.{by_operator}
use validator_health_collect.Queries.Consensus.{query_comet_status, measure_block_time}
use validator_health_collect.Queries.Params.{query_slashing_params}
use validator_health_collect.Collector.Signing.{SigningInfo}
use validator_health_collect.Managed.{
  AccountPosition, AccountValidator, SampledCommit, ManagedAggregate, ManagedScanResult, Settings,
  Answers, accounts_failed, empty_consensus_set, no_block_interval, empty_operator,
}
use validator_health_collect.Managed.Positions.{Builder, build, Gathered, gather}
use validator_health_collect.Managed.Collect.{
  aggregate_of, aggregate_all, operators_of, collect, asked, is_nil, query_recent_commits,
  some_unnamed, signing_by_consensus,
}

abbrev pub operator_of : {W : Type 0} → ManagedAggregate W → String
operator_of x = x.operator_address

module _ {W : Type 0} ⦃f : Float64 W⦄ where
  -- The sum of the positions at an operator, in order, after `total`.
  abbrev pub amount_at : W → String → List (AccountPosition W) → W
  amount_at total operator [] = total
  amount_at total operator (p ∷ ps) =
      amount_at (if operator == p.operator_address then f.add total p.amount_uatom else total)
        operator ps

  abbrev amount_in : String → Dict String (Builder W) → W
  amount_in operator d = (Dict.lookup_or (f.of_nat 0, []) operator d).0

  amount_in-build :
      (operator : String) (ps : List (AccountPosition W)) (d : Dict String (Builder W))
      → amount_in operator (build ps d) ≡ amount_at (amount_in operator d) operator ps
  unfolding build Dict.lookup_or
  amount_in-build operator [] d = refl
  amount_in-build operator (p ∷ ps) d =
      let old = Dict.lookup_or (f.of_nat 0, []) p.operator_address d in
      let new : Builder W = (f.add old.0 p.amount_uatom, Dict.insert p.account_name true old.1) in
      let d' = Dict.insert p.operator_address new d in
      let step : amount_in operator d' ≡ (
          if operator == p.operator_address
          then f.add (amount_in operator d) p.amount_uatom
          else amount_in operator d) =
        elim (string_eq.dec operator p.operator_address) [
          | yes same ↦ ground (arith, same, lookup-insert operator p.operator_address new d)
          | no differ ↦ ground (arith, differ, lookup-insert operator p.operator_address new d)
        ] in
      amount_in-build operator ps d' ∙ ap (λ total. amount_at total operator ps) step

  module _ (cfg : Settings) (now : Time) (positions : List (AccountPosition W))
      (unlocks : Dict AccountValidator Time) (validators : Dict String Validator)
      (signing : Dict String SigningInfo) (consensus_set : Dict String Bool)
      (commits : List SampledCommit) where
    aggregate_of_lem :
        (operator : String) (b : Builder W) (x : ManagedAggregate W)
        → aggregate_of cfg now positions unlocks validators signing consensus_set commits operator b
          ≡ ok x
        → (x.operator_address ≡ operator) × (x.amount_uatom ≡ b.0)
    unfolding aggregate_of
    aggregate_of_lem operator (amount, names) x e = ground (arith, e)

    -- Each aggregate has the sum of its operator.
    abbrev Sums : Dict String (Builder W) → ManagedAggregate W → Type 0
    Sums builders x = x.amount_uatom ≡ amount_in x.operator_address builders

    aggregate_all_lem :
        (builders : Dict String (Builder W)) (operators : List String)
        (xs : List (ManagedAggregate W))
        → aggregate_all cfg now positions unlocks validators signing consensus_set commits builders
            operators
          ≡ ok xs
        → (map operator_of xs ≡ operators) × All (Sums builders) xs
    unfolding aggregate_all
    aggregate_all_lem builders [] xs e =
        subst (λ ys. (map operator_of ys ≡ []) × All (Sums builders) ys) (ok-injective _ _ e)
          (refl, tt)
    aggregate_all_lem builders (operator ∷ operators) xs e =
        let b = Dict.lookup_or (f.of_nat 0, []) operator builders in
        let first =
          aggregate_of cfg now positions unlocks validators signing consensus_set commits operator
            b in
        let (x, h, e1) = bind-ok first _ xs e in
        let (rest, k, e2) =
          bind-ok
            (aggregate_all cfg now positions unlocks validators signing consensus_set commits
              builders operators)
            _ xs e1 in
        let (named, sums) = aggregate_of_lem operator b x h in
        let (names, all) = aggregate_all_lem builders operators rest k in
        let sum : Sums builders x = sums ∙ ap (λ o. amount_in o builders) (sym named) in
        subst (λ ys. (map operator_of ys ≡ (operator ∷ operators)) × All (Sums builders) ys)
          (ok-injective _ _ e2) (rw (named, names) refl, (sum, all))

  -- What `collect` returns comes from this loop.
  Collected : Settings → Time → ManagedScanResult W → Type 0
  Collected cfg now r =
      (unlocks : Dict AccountValidator Time) × (validators : Dict String Validator)
      × (signing : Dict String SigningInfo) × (consensus_set : Dict String Bool) × (commits : List
          SampledCommit)
      × (aggregate_all cfg now r.accounts unlocks validators signing consensus_set commits
            (build r.accounts []) (operators_of r.accounts)
          ≡ ok r.aggregates)

  collect-Collected :
      (cfg : Settings) (a : Answers W) (now : Time) (r : ManagedScanResult W)
      → collect cfg a now ≡ ok r
      → Collected cfg now r
  unfolding collect Collected
  collect-Collected cfg a now r e0 =
      let start : Gathered W = record {
        positions = [];
        total = f.of_nat 0;
        unlocks = [];
        failed = false;
      } in
      let g = gather a cfg.accounts start in
      let (_, _, e1) = bind-ok (refuse g.failed accounts_failed) _ r e0 in
      let (validators, _, e2) = bind-ok (asked a.validators) _ r e1 in
      let (infos, _, e3) = bind-ok (asked a.signing_infos) _ r e2 in
      let (slashing, _, e4) =
        bind-ok (asked (query_slashing_params cfg.rational a.slashing_params)) _ r e3 in
      let (set, _, e5) = bind-ok (asked a.consensus_set) _ r e4 in
      let (_, _, e6) = bind-ok (refuse (is_nil set) empty_consensus_set) _ r e5 in
      let (status, _, e7) = bind-ok (asked (query_comet_status a.status)) _ r e6 in
      let (commits, _, e8) = bind-ok (query_recent_commits a status.height) _ r e7 in
      let (interval, _, e9) = bind-ok (asked (measure_block_time a.block 2000)) _ r e8 in
      let (_, _, e10) = bind-ok (refuse (f.le interval (f.of_nat 0)) no_block_interval) _ r e9 in
      let (_, _, e11) = bind-ok (refuse (some_unnamed validators) empty_operator) _ r e10 in
      let known = by_operator validators [] in
      let signing = signing_by_consensus infos [] in
      let loop =
        aggregate_all cfg now g.positions g.unlocks known signing set commits (build g.positions [])
          (operators_of g.positions) in
      let (aggregates, all, e12) = bind-ok loop _ r e11 in
      subst (Collected cfg now) (ok-injective _ r e12)
        (g.unlocks, known, signing, set, commits, all)

  -- A successful collection has one aggregate for each operator that holds a position, in order.
  pub collect-operators :
      (cfg : Settings) (a : Answers W) (now : Time) (r : ManagedScanResult W)
      → collect cfg a now ≡ ok r
      → map operator_of r.aggregates ≡ operators_of r.accounts
  unfolding Collected
  collect-operators cfg a now r e =
      let (unlocks, validators, signing, set, commits, all) = collect-Collected cfg a now r e in
      (aggregate_all_lem cfg now r.accounts unlocks validators signing set commits
        (build r.accounts []) (operators_of r.accounts) r.aggregates all).0

  All-amounts :
      (ps : List (AccountPosition W)) (xs : List (ManagedAggregate W))
      → All (λ x. x.amount_uatom ≡ amount_in x.operator_address (build ps [])) xs
      → All (λ x. x.amount_uatom ≡ amount_at (f.of_nat 0) x.operator_address ps) xs
  unfolding Dict.lookup_or Dict.lookup
  All-amounts ps [] all = tt
  All-amounts ps (x ∷ xs) (h, all) =
      (h ∙ amount_in-build x.operator_address ps [], All-amounts ps xs all)

  -- The amount of each aggregate is the sum of the positions at its operator.
  pub collect-amounts :
      (cfg : Settings) (a : Answers W) (now : Time) (r : ManagedScanResult W)
      → collect cfg a now ≡ ok r
      → All
          (λ x. x.amount_uatom ≡ amount_at (f.of_nat 0) x.operator_address r.accounts)
          r.aggregates
  unfolding Collected
  collect-amounts cfg a now r e =
      let (unlocks, validators, signing, set, commits, all) = collect-Collected cfg a now r e in
      All-amounts r.accounts r.aggregates
        (aggregate_all_lem cfg now r.accounts unlocks validators signing set commits
          (build r.accounts []) (operators_of r.accounts) r.aggregates all).1
