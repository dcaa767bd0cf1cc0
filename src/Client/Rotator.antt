-- ===== src/Client/Rotator.antt =====
-- `rotator` of collector/rotator.go. Its mutex makes each method one step.
use validator_health_collect.Base.{
  ℕ, suc, ◌+◌, ◌%◌, String, Option, none, some, List, [], ◌∷◌, length, get_elem?, ltb, ◌==◌,
  string_eq, if◌then◌else◌,
}
use validator_health_collect.Go.Text.{trim_space, trim_right_slash}

abbrev pub max_attempts : ℕ
max_attempts = 3

pub record Rotator : Type 0 where
  pub bases : List String
  pub current : ℕ

-- The zero value, in a new client.
abbrev pub empty : Rotator
empty = record { bases = []; current = 0 }

unfoldable pub clean_url : String → String
clean_url u = trim_right_slash (trim_space u)

unfoldable pub clean : List String → List String
clean [] = []
clean (u ∷ us) = let rest = clean us in if clean_url u == "" then rest else clean_url u ∷ rest

abbrev pub or_empty : Option String → String
or_empty none = ""
or_empty (some u) = u

-- `currentBaseLocked` and `base`
unfoldable pub base : Rotator → String
base r = or_empty (get_elem? r.bases r.current)

-- The index of the first entry that equals `previous`, or 0.
unfoldable pub find_from : ℕ → List String → String → ℕ
find_from i [] previous = 0
find_from i (u ∷ us) previous =
    let rest = find_from (suc i) us previous in if u == previous then i else rest

unfoldable pub set : Rotator → List String → Rotator
set r urls =
    let cleaned = clean urls in record { bases = cleaned; current = find_from 0 cleaned (base r) }

unfoldable pub size : Rotator → ℕ
size r = length r.bases

unfoldable pub advance : Rotator → Rotator
advance r =
    if ltb 0 (length r.bases) then record r { current = (r.current + 1) % length r.bases } else r

unfoldable pub budget : Rotator → ℕ
budget r = if ltb (size r) max_attempts then size r else max_attempts
