-- ===== src/Queries.antt =====
-- The paged queries of collector/queries.go: `queryValidators`, `QuerySigningInfos` and the queries of
-- the children share one loop over the pages. The parsers of amounts and ratios.
pub mod Delegations
pub mod Consensus
pub mod Params
pub mod Votes
use validator_health_collect.Base.{
  ℕ, zero, suc, ◌≡◌, subst, ◌≢◌, ◌<◌, All, All-append, Option-cases, inl, inr, String, Bool, true,
  false, not, ◌||◌, Option, none, some, List, [], ◌∷◌, ◌++◌, arith, length, ◌==◌, string_eq,
  Bool-cases, if◌then◌else◌,
}
use mathlib.Core.List.{append_assoc, append-nil}
use validator_health_collect.Base.Float.{Float64}
use validator_health_collect.Base.Results.{
  Result, ok, err, ◌>>=◌, refuse, or_fail, Result-cases, ok-injective,
}
use validator_health_collect.Go.Number.{parse_uint}
use validator_health_collect.Client.Fetch.{FetchError}
use validator_health_collect.Governance.Proposal.{null_next_key}

pub data QueryError : Type 0 where
  page_failed : FetchError → QueryError
  no_validator_address unsupported_denom invalid_amount no_destination invalid_completion :
      QueryError
  invalid_height wrong_height invalid_total invalid_time invalid_range : QueryError
  invalid_ratio invalid_window invalid_limit no_upgrade_plan : QueryError

abbrev pub is_last : String → Bool
is_last next = next == "" || next == null_next_key

-- `get key` is the request for the page under a key, with the rows and the next key that it decodes,
-- and `take` the body of the loop over the rows. `none` says that the fuel ran out.
module _ {A B : Type 0} (get : String → Result FetchError (List A × String))
    (take : List A → Result QueryError (List B)) where
  unfoldable pub collect_from : ℕ → String → List B → Option (Result QueryError (List B))
  collect_from zero key all = none
  collect_from (suc fuel) key all = elim (get key) [
    | err e ↦ some (err (page_failed e))
    | ok (page, next) ↦ elim (take page) [
      | err e ↦ some (err e)
      | ok rows ↦ elim (is_last next) [
        | true ↦ some (ok (all ++ rows))
        | false ↦ collect_from fuel next (all ++ rows)
      ]
    ]
  ]

  -- The pages from a key on are these, their rows are the lists of the body, and the last key ends
  -- them.
  abbrev pub Serves : String → List B → List (List B) → Type 0
  Serves key rows [] =
      (page : List A) × (next : String) × (get key ≡ ok (page, next))
      × (take page ≡ ok rows)
      × (is_last next ≡ true)
  Serves key rows (rows' ∷ more) =
      (page : List A) × (next : String) × (get key ≡ ok (page, next))
      × (take page ≡ ok rows)
      × (is_last next ≡ false)
      × Serves next rows' more

  abbrev pub concat : List (List B) → List B
  concat [] = []
  concat (rows ∷ more) = rows ++ concat more

  -- With fuel for every page, a query of pages that are all served and all in order returns the rows
  -- of every page, in order, behind those it has.
  pub collect_from-Serves :
      (fuel : ℕ) (key : String) (all rows : List B) (more : List (List B))
      → Serves key rows more
      → length more < fuel
      → collect_from fuel key all ≡ some (ok (all ++ (rows ++ concat more)))
  unfolding collect_from
  collect_from-Serves zero key all rows more h lt = elim lt [ ]
  collect_from-Serves (suc fuel) key all rows [] (page, next, g, t, last) lt =
      rw (append-nil, g, collect_from) (rw t (ground (arith, last)))
  collect_from-Serves (suc fuel) key all rows (rows' ∷ more) (page, next, g, t, goes, rest) lt =
      rw (g, collect_from)
        (rw t (
          ground (
            arith,
            goes,
            collect_from-Serves fuel next (all ++ rows) rows' more rest,
            append_assoc all rows (rows' ++ concat more),
          )))

-- `queryValidators` and `QuerySigningInfos`: every row is kept.
unfoldable pub query_rows :
    {A : Type 0}
    → (String → Result FetchError (List A × String))
    → ℕ
    → Option (Result QueryError (List A))
query_rows get fuel = collect_from get ok fuel "" []

module _ {W : Type 0} ⦃f : Float64 W⦄ where
  unfoldable pub parse_non_negative_decimal : String → Option W
  parse_non_negative_decimal raw = elim (f.parse raw) [
    | none ↦ none
    | some value ↦
        if f.is_nan value || f.is_inf value || f.lt value (f.of_nat 0) then none else some value
  ]

  unfoldable pub parse_ratio : String → Option W
  parse_ratio raw = elim (parse_non_negative_decimal raw) [
    | none ↦ none
    | some value ↦ if f.lt (f.of_nat 1) value then none else some value
  ]

  unfoldable pub parse_uatom : String → Option W
  parse_uatom raw = elim (parse_uint raw) [ none ↦ none | some n ↦ some (f.of_nat n) ]
