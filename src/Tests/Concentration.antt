-- ===== src/Tests/Concentration.antt =====
-- The theorems on the concentration section, at three validators of which two stand for one entity.
use validator_health_collect.Base.{
  ℕ, ◌+◌, ◌-◌, ◌*◌, ◌/◌, ◌≡◌, refl, ap, String, Bool, false, true, none, [], ◌∷◌, List, arith, ltb,
  leb, ◌==◌, string_eq, if◌then◌else◌,
}
use validator_health_collect.Base.Dict.{Dict}
use validator_health_collect.Base.Float.{Float64}
use validator_health_collect.Go.Number.{parse_uint}
use validator_health_collect.Validators.{Validator}
use validator_health_collect.Collector.New.{no_concentration}
use validator_health_collect.Collector.Concentration.{
  sum_tokens, entities_of, publish_concentration, tokens_of,
}
use validator_health_collect.Collector.Concentration.Exact.{IsExact}
use validator_health_collect.Collector.Concentration.Coefficient.{power, AreWhole}
use validator_health_collect.Collector.Concentration.Grouping.{tokens, HaveWhole, power-entities_of}
use validator_health_collect.Collector.Concentration.Thresholds.{
  IsCoefficient, publish_concentration-coefficients,
}
use validator_health_collect.Tests.Values.{validator, value_or_zero}

-- Numbers in thirds, which round down.
abbrev thirds : Float64 ℕ
thirds = record {
  of_nat = λ n. 3 * n;
  ratio = λ a b. 3 * a / b;
  add = λ a b. a + b;
  sub = λ a b. a - b;
  mul = λ a b. a * b / 3;
  div = λ a b. 3 * a / b;
  le = leb;
  lt = ltb;
  is_nan = λ a. false;
  is_inf = λ a. false;
  parse = λ s. none;
  parse_value = λ s. 3 * value_or_zero (parse_uint s);
}

abbrev whole_part : ℕ → ℕ
whole_part n = n / 3

third_of : (t : ℕ) → 3 * (3 * t) / (3 * 3) ≡ t
third_of t = omega arith

thirds-IsExact : IsExact thirds whole_part
thirds-IsExact = record {
  value_exact = λ n le. omega arith;
  add_exact = λ a b le. omega arith;
  double_exact = λ a le. omega arith;
  lt_exact = λ a b la lb. ground arith;
  third_exact = λ t n lt ln. ap (λ m. leb m (3 * n)) (third_of t);
}

abbrev three : List Validator
three = validator "a" "20" ∷ validator "b" "50" ∷ validator "c" "30" ∷ []

abbrev entity_map : Dict String String
entity_map = ("a", "Acme") ∷ ("c", "Acme") ∷ ("b", "Bolt") ∷ []

three-HaveWhole : HaveWhole ⦃f = thirds⦄ whole_part three
unfolding tokens_of parse_uint
three-HaveWhole = (refl, (refl, (refl, tt)))

abbrev not_acme : String × ℕ → Bool
not_acme (name, p) = if name == "Acme" then false else true

power-entities_of_example :
    AreWhole ⦃f = thirds⦄ whole_part (entities_of ⦃f = thirds⦄ entity_map three)
    × (power ⦃f = thirds⦄ whole_part (entities_of ⦃f = thirds⦄ entity_map three)
        ≡ tokens ⦃f = thirds⦄ whole_part three)
    × (sum_tokens ⦃f = thirds⦄ 0 three ≡ 3 * tokens ⦃f = thirds⦄ whole_part three)
unfolding tokens_of parse_uint
power-entities_of_example =
    power-entities_of ⦃f = thirds⦄ whole_part thirds-IsExact entity_map three three-HaveWhole
      (omega arith)

publish_concentration-coefficients_example :
    let g = publish_concentration ⦃f = thirds⦄ entity_map three none no_concentration in
    let es = entities_of ⦃f = thirds⦄ entity_map three in
    IsCoefficient ⦃f = thirds⦄ whole_part 100 es not_acme g.halt_coeff
    × IsCoefficient ⦃f = thirds⦄ whole_part 200 es not_acme g.safety_coeff
unfolding tokens_of parse_uint
publish_concentration-coefficients_example =
    publish_concentration-coefficients ⦃f = thirds⦄ whole_part thirds-IsExact entity_map three none
      no_concentration not_acme three-HaveWhole (omega arith) (omega arith)
