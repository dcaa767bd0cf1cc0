-- ===== src/Managed/Positions/Unlocks.antt =====
-- The first and the last unlock of an operator's positions.
use validator_health_collect.Base.{
  ◌≤◌, ◌<◌, ◌≡◌, ◌⊎◌, String, Option, none, some, List, [], ◌∷◌, ◌==◌, string_eq, pair_eq, nat_eq,
  if◌then◌else◌,
}
use validator_health_collect.Base.Dict
use validator_health_collect.Base.Dict.{Dict}
use validator_health_collect.Base.Float.{Float64}
use validator_health_collect.Go.Time.{Time, zero_time}
use validator_health_collect.Managed.{AccountPosition, AccountValidator}
use validator_health_collect.Managed.Positions.{Locks, add_lock}

abbrev pub AfterZero : Option Time → Type 0
AfterZero none = Unit
AfterZero (some t) = zero_time < t

module _ {W : Type 0} ⦃f : Float64 W⦄ (operator : String)
    (unlocks : Dict AccountValidator Time) where
  -- The time at which a position at the operator unlocks, if it is locked.
  abbrev pub unlock_of : AccountPosition W → Option Time
  unlock_of p =
      if p.operator_address == operator
      then Dict.lookup (p.delegator_address, operator) unlocks
      else none

  abbrev pub Within : Locks W → Option Time → Type 0
  Within l none = Unit
  Within l (some t) = (l.next_unlock ≤ t) × (t ≤ l.final_unlock)

  abbrev lock_if : W → Locks W → Option Time → Locks W
  lock_if amount l none = l
  lock_if amount l (some t) = add_lock amount t l

  -- Of the positions that are locked, the first and the last unlock bound all.
  abbrev pub Bounds : Locks W → List (AccountPosition W) → Type 0
  Bounds l [] = Unit
  Bounds l (p ∷ ps) = Within l (unlock_of p) × Bounds l ps

  -- A lock is after the zero time.
  abbrev pub IsAfterZero : AccountPosition W → Type 0
  IsAfterZero p = AfterZero (unlock_of p)

  -- Locks that have grown: earlier, if any, and later.
  abbrev Grows : Locks W → Locks W → Type 0
  Grows l m =
      (l.final_unlock ≤ m.final_unlock)
      × (zero_time ≤ m.next_unlock)
      × ((l.next_unlock ≡ zero_time)
          ⊎ ((zero_time < m.next_unlock) × (m.next_unlock ≤ l.next_unlock)))
