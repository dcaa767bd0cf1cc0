-- ===== src/Managed/Positions.antt =====
-- The first part of `collect`: the positions of the accounts and their unlocks, and the sums by operator.
pub mod Unlocks
use validator_health_collect.Base.{
  String, Bool, true, false, Option, none, some, List, [], ◌∷◌, ◌++◌, ◌==◌, string_eq, pair_eq,
  if◌then◌else◌,
}
use validator_health_collect.Base.Dict
use validator_health_collect.Base.Dict.{Dict}
use validator_health_collect.Base.Float.{Float64}
use validator_health_collect.Base.Results.{Result, ok, err}
use validator_health_collect.Go.Time.{Time, after, before, is_zero, zero_time}
use validator_health_collect.Config.{ManagedDelegator}
use validator_health_collect.Governance.Veto.{add_at}
use validator_health_collect.Queries.Delegations.{ManagedDelegation, ReceivingRedelegation}
use validator_health_collect.Managed.{AccountValidator, AccountPosition, Answers}

-- What the loop over the accounts has gathered, and whether a query has failed.
pub record Gathered (W : Type 0) : Type 0 where
  pub positions : List (AccountPosition W)
  pub total : W
  pub unlocks : Dict AccountValidator Time
  pub failed : Bool

-- The last completion time of the entries of a pair.
unfoldable pub add_unlocks :
    {W : Type 0}
    → List (ReceivingRedelegation W)
    → Dict AccountValidator Time
    → Dict AccountValidator Time
add_unlocks [] d = d
add_unlocks (e ∷ es) d =
    let pair : AccountValidator = (e.delegator_address, e.destination_operator) in
    add_unlocks es (elim (Dict.lookup pair d) [
      | none ↦ Dict.insert pair e.completion_time d
      | some latest ↦
          if after e.completion_time latest then Dict.insert pair e.completion_time d else d
    ])

-- `aggregateBuilder`: the amount, and the names of the accounts
abbrev pub Builder : Type 0 → Type 0
Builder W = W × Dict String Bool

-- The locked amount of an operator, with the first and the last time at which a position unlocks; the
-- zero time stands for none.
pub record Locks (W : Type 0) : Type 0 where
  pub locked_uatom : W
  pub next_unlock : Time
  pub final_unlock : Time

module _ {W : Type 0} ⦃f : Float64 W⦄ where
  unfoldable pub by_operator : List (ManagedDelegation W) → Dict String W → Dict String W
  by_operator [] d = d
  by_operator (x ∷ xs) d = by_operator xs (add_at x.operator_address x.amount_uatom d)

  unfoldable pub add_positions : ManagedDelegator → Dict String W → Gathered W → Gathered W
  add_positions account [] g = g
  add_positions account ((operator, amount) ∷ d) g =
      let position : AccountPosition W = record {
        account_name = account.name;
        delegator_address = account.address;
        operator_address = operator;
        amount_uatom = amount;
      } in
      add_positions account d
        (record g { positions = g.positions ++ (position ∷ []); total = f.add g.total amount })

  unfoldable pub on_delegations :
      {E : Type 0}
      → ManagedDelegator
      → Result E (List (ManagedDelegation W))
      → Gathered W
      → Gathered W
  on_delegations account (err e) g = record g { failed = true }
  on_delegations account (ok xs) g = add_positions account (by_operator xs []) g

  unfoldable pub on_redelegations :
      {E : Type 0} → Result E (List (ReceivingRedelegation W)) → Gathered W → Gathered W
  on_redelegations (err e) g = record g { failed = true }
  on_redelegations (ok es) g = record g { unlocks = add_unlocks es g.unlocks }

  -- An account whose queries fail does not stop the loop.
  unfoldable pub gather : Answers W → List ManagedDelegator → Gathered W → Gathered W
  gather a [] g = g
  gather a (account ∷ accounts) g = gather a accounts (
      on_redelegations (a.redelegations account.address)
        (on_delegations account (a.delegations account.address) g))

  unfoldable pub build :
      List (AccountPosition W) → Dict String (Builder W) → Dict String (Builder W)
  build [] d = d
  build (p ∷ ps) d =
      let (amount, names) = Dict.lookup_or (f.of_nat 0, []) p.operator_address d in
      build ps (
        Dict.insert p.operator_address
          (f.add amount p.amount_uatom, Dict.insert p.account_name true names) d)

  unfoldable pub add_lock : W → Time → Locks W → Locks W
  add_lock amount t l = record {
    locked_uatom = f.add l.locked_uatom amount;
    next_unlock =
        if is_zero l.next_unlock then t else (if before t l.next_unlock then t else l.next_unlock);
    final_unlock = if after t l.final_unlock then t else l.final_unlock;
  }

  unfoldable pub locks_of :
      String → Dict AccountValidator Time → List (AccountPosition W) → Locks W → Locks W
  locks_of operator unlocks [] l = l
  locks_of operator unlocks (p ∷ ps) l =
      if p.operator_address == operator
      then (elim (Dict.lookup (p.delegator_address, operator) unlocks) [
        | none ↦ locks_of operator unlocks ps l
        | some t ↦ locks_of operator unlocks ps (add_lock p.amount_uatom t l)
      ])
      else locks_of operator unlocks ps l

  unfoldable pub no_locks : Locks W
  no_locks = record { locked_uatom = f.of_nat 0; next_unlock = zero_time; final_unlock = zero_time }
