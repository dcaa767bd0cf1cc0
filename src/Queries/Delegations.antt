-- ===== src/Queries/Delegations.antt =====
-- `QueryDelegations` and `QueryReceivingRedelegations` of collector/queries.go.
use validator_health_collect.Base.{
  ℕ, zero, suc, ◌≡◌, subst, ◌≢◌, All, All-append, Option-cases, inl, inr, String, true, not, Option,
  some, List, [], ◌∷◌, ◌++◌, arith, ◌==◌, string_eq, Bool-cases, if◌then◌else◌,
}
use validator_health_collect.Base.Float.{Float64}
use validator_health_collect.Base.Results.{
  Result, ok, ◌>>=◌, refuse, or_fail, Result-cases, ok-injective,
}
use validator_health_collect.Go.Time.{Time, parse_time}
use validator_health_collect.Client.Fetch.{FetchError}
use validator_health_collect.Queries.{
  QueryError, no_validator_address, unsupported_denom, invalid_amount, no_destination,
  invalid_completion, is_last, collect_from, parse_uatom,
}

pub record DelegationRow : Type 0 where
  pub validator_address : String
  pub denom : String
  pub amount : String

pub record ManagedDelegation (W : Type 0) : Type 0 where
  pub operator_address : String
  pub amount_uatom : W

module _ {W : Type 0} ⦃f : Float64 W⦄ where
  -- The rows of a page of `QueryDelegations`: each is checked, and kept if its amount is positive.
  unfoldable pub take_delegations :
      List DelegationRow → Result QueryError (List (ManagedDelegation W))
  take_delegations [] = ok []
  take_delegations (r ∷ rs) = do
    _ ← refuse (r.validator_address == "") no_validator_address
    _ ← refuse (not (r.denom == "uatom")) unsupported_denom
    amount ← or_fail (parse_uatom r.amount) invalid_amount
    rest ← take_delegations rs
    ok (
        if f.lt (f.of_nat 0) amount
        then record { operator_address = r.validator_address; amount_uatom = amount } ∷ rest
        else rest)

  unfoldable pub query_delegations :
      (String → Result FetchError (List DelegationRow × String))
      → ℕ
      → Option (Result QueryError (List (ManagedDelegation W)))
  query_delegations get fuel = collect_from get take_delegations fuel "" []

  -- A delegation that may be reported.
  abbrev pub IsHeld : ManagedDelegation W → Type 0
  IsHeld d = (d.operator_address ≢ "") × (f.lt (f.of_nat 0) d.amount_uatom ≡ true)

  take_delegations-IsHeld :
      (rs : List DelegationRow) (ds : List (ManagedDelegation W))
      → take_delegations rs ≡ ok ds
      → All IsHeld ds
  unfolding take_delegations
  take_delegations-IsHeld [] ds e = subst (All IsHeld) (ok-injective _ _ e) tt
  take_delegations-IsHeld (r ∷ rs) ds e = elim (Option-cases (parse_uatom {W = W} r.amount)) [
    | inl p ↦ ground (arith, p)
    | inr (amount, p) ↦ elim (Result-cases (take_delegations rs)) [
      | inr (x, q) ↦ ground (arith, p, q)
      | inl (rest, q) ↦
          let named : r.validator_address ≢ "" = ground (arith, p, q) in
          let below = take_delegations-IsHeld rs rest q in
          elim (Bool-cases (f.lt (f.of_nat 0) amount)) [
            | inr zero_amount ↦ subst (All IsHeld) (ground (arith, p, q, zero_amount)) below
            | inl positive ↦
                let one : ManagedDelegation W = record {
                  operator_address = r.validator_address;
                  amount_uatom = amount;
                } in
                let same : (one ∷ rest) ≡ ds = ground (arith, p, q, positive) in
                subst (All IsHeld) same ((named, positive), below)
          ]
    ]
  ]

  collect_from-IsHeld :
      (get : String → Result FetchError (List DelegationRow × String)) (fuel : ℕ) (key : String)
      (all ds : List (ManagedDelegation W))
      → All IsHeld all
      → collect_from get take_delegations fuel key all ≡ some (ok ds)
      → All IsHeld ds
  unfolding collect_from
  collect_from-IsHeld get zero key all ds h e = cc e
  collect_from-IsHeld get (suc fuel) key all ds h e = elim (Result-cases (get key)) [
    | inr (x, g) ↦ cc (rw (g, collect_from) at e)
    | inl ((page, next), g) ↦ elim (Result-cases (take_delegations page)) [
      | inr (x, t) ↦ cc (rw (g, t, collect_from) at e)
      | inl (rows, t) ↦
          let both = All-append IsHeld all rows h (take_delegations-IsHeld page rows t) in
          elim (Bool-cases (is_last next)) [
            | inl last ↦ subst (All IsHeld) (ground (arith, g, t, last)) both
            | inr more ↦
                collect_from-IsHeld get fuel next (all ++ rows) ds both
                  (rw (g, t, more, collect_from) at e)
          ]
    ]
  ]

  -- Every delegation that a query returns names its validator and has a positive amount.
  pub query_delegations-IsHeld :
      (get : String → Result FetchError (List DelegationRow × String)) (fuel : ℕ)
      (ds : List (ManagedDelegation W))
      → query_delegations get fuel ≡ some (ok ds)
      → All IsHeld ds
  unfolding query_delegations
  query_delegations-IsHeld get fuel ds e = collect_from-IsHeld get fuel "" [] ds tt e

-- One entry: its balance and its completion time.
pub record EntryRow : Type 0 where
  pub balance : String
  pub completion_time : String

pub record RedelegationRow : Type 0 where
  pub dest_validator : String
  pub entries : List EntryRow

pub record ReceivingRedelegation (W : Type 0) : Type 0 where
  pub delegator_address : String
  pub destination_operator : String
  pub balance_uatom : W
  pub completion_time : Time

module _ {W : Type 0} ⦃f : Float64 W⦄ where
  unfoldable pub take_entries :
      String → String → List EntryRow → Result QueryError (List (ReceivingRedelegation W))
  take_entries delegator dest [] = ok []
  take_entries delegator dest (e ∷ es) = do
    amount ← or_fail (parse_uatom e.balance) invalid_amount
    completion ← or_fail (parse_time e.completion_time) invalid_completion
    rest ← take_entries delegator dest es
    ok (
        record {
          delegator_address = delegator;
          destination_operator = dest;
          balance_uatom = amount;
          completion_time = completion;
        }
        ∷ rest)

  unfoldable pub take_redelegations :
      String → List RedelegationRow → Result QueryError (List (ReceivingRedelegation W))
  take_redelegations delegator [] = ok []
  take_redelegations delegator (r ∷ rs) = do
    _ ← refuse (r.dest_validator == "") no_destination
    entries ← take_entries delegator r.dest_validator r.entries
    rest ← take_redelegations delegator rs
    ok (entries ++ rest)

  unfoldable pub query_receiving_redelegations :
      (String → Result FetchError (List RedelegationRow × String))
      → ℕ
      → String
      → Option (Result QueryError (List (ReceivingRedelegation W)))
  query_receiving_redelegations get fuel delegator =
      collect_from get (take_redelegations delegator) fuel "" []
