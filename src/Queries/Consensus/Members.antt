-- ===== src/Queries/Consensus/Members.antt =====
-- The members of the set that `QueryConsensusSetAtHeight` returns, and that it returns.
use validator_health_collect.Base.{
  ℕ, zero, suc, ◌+◌, ◌≤◌, ◌≡◌, refl, String, Bool, true, false, not, ◌&&◌, ◌||◌, some, List, [],
  ◌∷◌, arith, ltb, leb, length, ◌==◌, string_eq, nat_eq,
}
use validator_health_collect.Base.Dict
use validator_health_collect.Base.Dict.{Dict, lookup-insert}
use validator_health_collect.Base.Results.{Result, ok}
use validator_health_collect.Go.Text.{to_upper}
use validator_health_collect.Go.Number.{parse_nonneg}
use validator_health_collect.Client.Fetch.{FetchError}
use validator_health_collect.Queries.Consensus.{
  CometValidatorsResult, add_upper, on_validators, set_from, query_consensus_set_at_height,
  is_height,
}

-- Whether a key is the upper case of an address.
abbrev pub among : String → List String → Bool
among k [] = false
among k (a ∷ as') = k == to_upper a || among k as'

-- Whether a key is the upper case of an address that one of the pages lists.
abbrev pub listed : String → List CometValidatorsResult → Bool
listed k [] = false
listed k (r ∷ rs) = among k r.validators || listed k rs

lookup-add_upper :
    (k : String) (as' : List String) (set : Dict String Bool)
    → Dict.lookup_or false k (add_upper as' set) ≡ (among k as' || Dict.lookup_or false k set)
unfolding add_upper Dict.lookup_or
lookup-add_upper k [] set = refl
lookup-add_upper k (a ∷ as') set = ground (
  arith,
  lookup-add_upper k as' (Dict.insert (to_upper a) true set),
  lookup-insert k (to_upper a) true set,
)

module _ (get : ℕ → Result FetchError CometValidatorsResult) (height : ℕ) where
  -- A page that is served: of the height that was asked for, with a total, and the last or not.
  abbrev pub Page : ℕ → Dict String Bool → CometValidatorsResult → Bool → Type 0
  Page page set r last =
      (total : ℕ) × (get page ≡ ok r)
      × ((ltb 0 height && not (is_height height r.block_height)) ≡ false)
      × (parse_nonneg r.total ≡ some total)
      × ((leb total (length (add_upper r.validators set)) || length r.validators == 0) ≡ last)

  -- The pages from one on, up to the first that is empty or with which the set reaches the total.
  abbrev pub Paged : ℕ → Dict String Bool → List CometValidatorsResult → Type 0
  Paged page set [] = ⊥
  Paged page set (r ∷ []) = Page page set r true
  Paged page set (r ∷ s ∷ rs) =
      Page page set r false × Paged (page + 1) (add_upper r.validators set) (s ∷ rs)

  on_validators-Page :
      (page : ℕ) (set : Dict String Bool) (r : CometValidatorsResult) (last : Bool)
      → Page page set r last
      → on_validators get height page set ≡ ok (add_upper r.validators set, last)
  unfolding on_validators
  on_validators-Page page set r last (total, served, fits, counted, ends) =
      ground (arith, served, fits, counted, ends)

  set_from-Paged :
      (fuel page : ℕ) (set : Dict String Bool) (pages : List CometValidatorsResult) (k : String)
      → Paged page set pages
      → length pages ≤ fuel
      → (set' : Dict String Bool) × (set_from get height fuel page set ≡ some (ok set'))
        × (Dict.lookup_or false k set' ≡ (listed k pages || Dict.lookup_or false k set))
  unfolding set_from
  set_from-Paged fuel page set [] k h le = elim h [ ]
  set_from-Paged zero page set (r ∷ rs) k h le =
      let impossible : ⊥ = omega (arith, le) in elim impossible [ ]
  set_from-Paged (suc fuel) page set (r ∷ []) k h le = (
    add_upper r.validators set,
    rw (on_validators-Page page set r true h, set_from) refl,
    ground (arith, lookup-add_upper k r.validators set),
  )
  set_from-Paged (suc fuel) page set (r ∷ s ∷ rs) k (h, more) le =
      let grown = add_upper r.validators set in
      let (set', e, same) =
        set_from-Paged fuel (page + 1) grown (s ∷ rs) k more (omega (arith, le)) in
      (
        set',
        rw (on_validators-Page page set r false h, set_from) e,
        ground (arith, same, lookup-add_upper k r.validators set),
      )

  -- With fuel for each page, a query whose pages are all served returns, and the set that it returns
  -- has a key just if that is the upper case of an address on one of the pages.
  pub query_consensus_set_at_height-listed :
      (fuel : ℕ) (pages : List CometValidatorsResult) (k : String)
      → Paged 1 [] pages
      → length pages ≤ fuel
      → (set : Dict String Bool) × (query_consensus_set_at_height get height fuel ≡ some (ok set))
        × (Dict.lookup_or false k set ≡ listed k pages)
  unfolding query_consensus_set_at_height Dict.lookup_or Dict.lookup
  query_consensus_set_at_height-listed fuel pages k h le =
      let (set, e, same) = set_from-Paged fuel 1 [] pages k h le in (set, e, ground (arith, same))
