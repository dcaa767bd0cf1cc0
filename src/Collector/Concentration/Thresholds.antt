-- ===== src/Collector/Concentration/Thresholds.antt =====
-- The two coefficients that `CollectSnapshot` publishes, and their thresholds of a third and two thirds.
use validator_health_collect.Base.{
  ℕ, ◌*◌, ◌≤◌, ◌<◌, ◌≡◌, ◌⊎◌, String, Option, none, some, List, [], ◌∷◌, arith, length, select,
  true, Bool,
}
use validator_health_collect.Base.Dict.{Dict}
use validator_health_collect.Base.Float.{Float64}
use validator_health_collect.Validators.{Validator}
use validator_health_collect.Collector.Concentration.{
  ConcentrationGauges, entity_power, entities_of, publish_coefficients, publish_concentration,
}
use validator_health_collect.Collector.Concentration.Exact.{limit, IsExact}
use validator_health_collect.Collector.Concentration.Coefficient.{
  power, take, AreWhole, IsFalling, sort_entities-IsFalling, coefficient_lem,
}
use validator_health_collect.Collector.Concentration.Grouping.{
  tokens, HaveWhole, power-entities_of, entity_power-AreWhole,
}

module _ {W : Type 0} ⦃f : Float64 W⦄ (value : W → ℕ) where
  -- A coefficient is published, so many of the strongest entities reach a third of `t` together, and a
  -- choice `p` of entities falls short of it or has no fewer.
  abbrev pub IsCoefficient : ℕ → List (String × W) → (String × W → Bool) → Option ℕ → Type 0
  IsCoefficient t es p none = ⊥
  IsCoefficient t es p (some k) =
      (t ≤ 3 * power value (take k es))
      × ((3 * power value (select p es) < t) ⊎ (k ≤ length (select p es)))

  module _ (exact : IsExact f value) where
    publish_coefficients_lem :
        (total : ℕ) (es : List (String × W)) (p : String × W → Bool) (g : ConcentrationGauges W)
        → 0 < total
        → 2 * total ≤ limit
        → AreWhole value es
        → IsFalling value es
        → power value es ≡ total
        → let g' = publish_coefficients (f.of_nat total) es g in
          IsCoefficient total es p g'.halt_coeff × IsCoefficient (2 * total) es p g'.safety_coeff
    unfolding publish_coefficients
    publish_coefficients_lem total [] p g pos fits all falling sum =
        let never : ⊥ = omega (arith, pos, sum) in absurd never
    publish_coefficients_lem total ((name, q) ∷ es) p g pos fits all falling sum =
        let entities = (name, q) ∷ es in
        let above : f.lt (f.of_nat 0) (f.of_nat total) ≡ true =
          ground (arith, exact.lt_exact 0 total (omega arith) (omega (arith, fits)), pos) in
        let double = exact.double_exact total fits in
        rw (above, double)
          (
            coefficient_lem value exact _ total entities p
                (λ n le. exact.third_exact total n (omega (arith, fits)) le) all falling
                (omega (arith, fits, sum)) pos (omega (arith, sum)),
            coefficient_lem value exact _ (2 * total) entities p
                (λ n le. exact.third_exact (2 * total) n fits le) all falling
                (omega (arith, fits, sum)) (omega (arith, pos)) (omega (arith, sum)),
          )

    -- Where float64 is exact on whole numbers up to `limit`: with validators that have tokens, in whole
    -- numbers whose sum is at most half of `limit`, the section publishes both coefficients. As many of the strongest entities as the halt coefficient says
    -- have at least a third of all tokens, as many as the safety coefficient says at least two thirds, and
    -- a choice of entities that has so much has no fewer.
    pub publish_concentration-coefficients :
        (entity_map : Dict String String) (vs : List Validator) (veto : Option W)
        (g : ConcentrationGauges W) (p : String × W → Bool)
        → HaveWhole value vs
        → 0 < tokens value vs
        → 2 * tokens value vs ≤ limit
        → let g' = publish_concentration entity_map vs veto g in
          let es : List (String × W) = entities_of entity_map vs in
          IsCoefficient (tokens value vs) es p g'.halt_coeff
          × IsCoefficient (2 * tokens value vs) es p g'.safety_coeff
    unfolding publish_concentration entities_of
    publish_concentration-coefficients entity_map vs veto g p have pos fits =
        let room : tokens value vs ≤ limit = omega (arith, fits) in
        let (all, sum, total) = power-entities_of value exact entity_map vs have room in
        let (whole, powers) =
          entity_power-AreWhole value exact entity_map vs [] have tt (omega (arith, fits)) in
        let falling =
          sort_entities-IsFalling value exact (entity_power entity_map vs []) whole
            (omega (arith, powers, fits)) in
        rw total (
          publish_coefficients_lem (tokens value vs) (entities_of entity_map vs) p _ pos fits all
            falling sum)
