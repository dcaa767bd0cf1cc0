-- ===== src/Collector/Concentration/Grouping.antt =====
-- The grouping of validators by entity in `CollectSnapshot`, where the tokens are whole numbers whose sum
-- float64 has.
use validator_health_collect.Base.{
  ℕ, ◌+◌, ◌≤◌, ◌≡◌, ◌==◌, ap, ◌∙◌, String, List, [], ◌∷◌, All, arith, string_eq, Bool-cases, inl,
  inr,
}
use validator_health_collect.Base.Dict
use validator_health_collect.Base.Dict.{Dict}
use validator_health_collect.Base.Float.{Float64}
use validator_health_collect.Base.Sort.{insert_by, sort_by, sort_by-All}
use validator_health_collect.Validators.{Validator}
use validator_health_collect.Collector.Concentration.{
  entity_of, tokens_of, sum_tokens, entity_power, more_power, sort_entities, entities_of,
}
use validator_health_collect.Collector.Concentration.Exact.{
  limit, IsExact, IsWhole, of_nat-IsWhole, zero-value, value-add, add-IsWhole,
}
use validator_health_collect.Collector.Concentration.Coefficient.{power, AreWhole}

module _ {W : Type 0} ⦃f : Float64 W⦄ (value : W → ℕ) where
  -- The tokens of the validators, added up as whole numbers.
  abbrev pub tokens : List Validator → ℕ
  tokens [] = 0
  tokens (v ∷ vs) = value (tokens_of v) + tokens vs

  -- Their tokens are whole numbers.
  abbrev pub HaveWhole : List Validator → Type 0
  HaveWhole vs = All (λ v. IsWhole value (tokens_of v)) vs

  power-insert_by :
      (e : String × W) (es : List (String × W))
      → power value (insert_by more_power e es) ≡ value e.1 + power value es
  unfolding insert_by
  power-insert_by e [] = omega arith
  power-insert_by e (d ∷ es) = ground (arith, power-insert_by e es)

  power-sort : (es : List (String × W)) → power value (sort_by more_power es) ≡ power value es
  unfolding sort_by
  power-sort [] = omega arith
  power-sort (e ∷ es) = omega (arith, power-sort es, power-insert_by e (sort_by more_power es))

  module _ (exact : IsExact f value) where
    power-insert :
        (k : String) (v : W) (d : Dict String W)
        → power value (Dict.insert k v d) + value (Dict.lookup_or (f.of_nat 0) k d)
          ≡ power value d + value v
    unfolding Dict.insert Dict.lookup_or Dict.lookup
    power-insert k v [] = omega (arith, zero-value value exact)
    power-insert k v ((j, w) ∷ d) = ground (arith, power-insert k v d)

    lookup_or-small :
        (k : String) (d : Dict String W) → value (Dict.lookup_or (f.of_nat 0) k d) ≤ power value d
    unfolding Dict.lookup_or Dict.lookup
    lookup_or-small k [] = omega (arith, zero-value value exact)
    lookup_or-small k ((j, w) ∷ d) = ground (arith, lookup_or-small k d)

    lookup_or-IsWhole :
        (k : String) (d : Dict String W)
        → AreWhole value d
        → IsWhole value (Dict.lookup_or (f.of_nat 0) k d)
    unfolding Dict.lookup_or Dict.lookup
    lookup_or-IsWhole k [] all = of_nat-IsWhole value exact 0 (omega arith)
    lookup_or-IsWhole k ((j, w) ∷ d) (whole, all) = elim (Bool-cases (k == j)) [
      | inl e ↦ rw (e, Dict.lookup_or, Dict.lookup) whole
      | inr e ↦ rw (e, Dict.lookup_or, Dict.lookup) (lookup_or-IsWhole k d all)
    ]

    insert-AreWhole :
        (k : String) (v : W) (d : Dict String W)
        → IsWhole value v
        → AreWhole value d
        → AreWhole value (Dict.insert k v d)
    unfolding Dict.insert
    insert-AreWhole k v [] whole all = (whole, tt)
    insert-AreWhole k v ((j, w) ∷ d) whole (w', all) = elim (Bool-cases (k == j)) [
      | inl e ↦ rw e (whole, all)
      | inr e ↦ rw e (w', insert-AreWhole k v d whole all)
    ]

    pub entity_power-AreWhole :
        (entity_map : Dict String String) (vs : List Validator) (d : Dict String W)
        → HaveWhole vs
        → AreWhole value d
        → power value d + tokens vs ≤ limit
        → AreWhole value (entity_power entity_map vs d)
          × (power value (entity_power entity_map vs d) ≡ power value d + tokens vs)
    unfolding entity_power
    entity_power-AreWhole entity_map [] d have all fits = (all, omega arith)
    entity_power-AreWhole entity_map (v ∷ vs) d (whole, have) all fits =
        let name = entity_of entity_map v in
        let old = Dict.lookup_or (f.of_nat 0) name d in
        let old_whole = lookup_or-IsWhole name d all in
        let room : value old + value (tokens_of v) ≤ limit =
          omega (arith, lookup_or-small name d, fits) in
        let sum = value-add value exact old (tokens_of v) old_whole whole room in
        let put = power-insert name (f.add old (tokens_of v)) d in
        let (all', total) =
          entity_power-AreWhole entity_map vs (Dict.insert name (f.add old (tokens_of v)) d) have
            (insert-AreWhole name (f.add old (tokens_of v)) d
              (add-IsWhole value exact old (tokens_of v) old_whole whole room) all)
            (omega (arith, sum, put, fits)) in
        (all', omega (arith, total, sum, put))

    sum_tokens-IsWhole :
        (total : W) (vs : List Validator)
        → IsWhole value total
        → HaveWhole vs
        → value total + tokens vs ≤ limit
        → IsWhole value (sum_tokens total vs)
          × (value (sum_tokens total vs) ≡ value total + tokens vs)
    unfolding sum_tokens
    sum_tokens-IsWhole total [] whole have fits = (whole, omega arith)
    sum_tokens-IsWhole total (v ∷ vs) whole (w, have) fits =
        let room : value total + value (tokens_of v) ≤ limit = omega (arith, fits) in
        let sum = value-add value exact total (tokens_of v) whole w room in
        let (whole', e) =
          sum_tokens-IsWhole (f.add total (tokens_of v)) vs
            (add-IsWhole value exact total (tokens_of v) whole w room) have
            (omega (arith, sum, fits)) in
        (whole', omega (arith, e, sum))

    -- The sum that the shares are taken of.
    pub total-whole :
        (vs : List Validator)
        → HaveWhole vs
        → tokens vs ≤ limit
        → sum_tokens (f.of_nat 0) vs ≡ f.of_nat (tokens vs)
    total-whole vs have fits =
        let none_yet = zero-value value exact in
        let (whole, e) =
          sum_tokens-IsWhole (f.of_nat 0) vs (of_nat-IsWhole value exact 0 (omega arith)) have
            (omega (arith, none_yet, fits)) in
        let same : value (sum_tokens (f.of_nat 0) vs) ≡ tokens vs = omega (arith, e, none_yet) in
        whole ∙ ap f.of_nat same

    -- Where float64 is exact on whole numbers up to `limit`: with validators whose tokens are whole numbers and add up to no more than `limit`, the power of each
    -- entity is a whole number, and those of all entities add up to the tokens of all validators, which is also
    -- the total that the shares are taken of: each validator counts for one entity, with all it has.
    pub power-entities_of :
        (entity_map : Dict String String) (vs : List Validator)
        → HaveWhole vs
        → tokens vs ≤ limit
        → AreWhole value (entities_of entity_map vs)
          × (power value (entities_of entity_map vs) ≡ tokens vs)
          × (sum_tokens (f.of_nat 0) vs ≡ f.of_nat (tokens vs))
    unfolding entities_of sort_entities
    power-entities_of entity_map vs have fits =
        let (all, sum) = entity_power-AreWhole entity_map vs [] have tt (omega (arith, fits)) in
        (
          sort_by-All more_power (λ e. IsWhole value e.1) (entity_power entity_map vs []) all,
          omega (arith, power-sort (entity_power entity_map vs []), sum),
          total-whole vs have fits,
        )
