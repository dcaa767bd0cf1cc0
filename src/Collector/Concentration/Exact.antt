-- ===== src/Collector/Concentration/Exact.antt =====
-- float64 on whole numbers, as far as it is exact on them.
use validator_health_collect.Base.{
  ℕ, ◌+◌, ◌*◌, ◌^◌, ◌≤◌, ◌≡◌, sym, ap, ◌∙◌, true, false, arith, leb, if◌then◌else◌,
}
use validator_health_collect.Base.Float.{Float64}

-- Up to here each whole number is a float64.
abbrev pub limit : ℕ
limit = 2 ^ 53

-- What IEEE 754 says of whole numbers up to `limit`, `value` being the whole part of a float64. A sum or a
-- double within the limit is exact, and so is a comparison. A third is rounded to the nearest float64, and
-- that is on no other side of a whole number.
pub record IsExact {W : Type 0} (f : Float64 W) (value : W → ℕ) : Type 0 where
  pub value_exact : (n : ℕ) → n ≤ limit → value (f.of_nat n) ≡ n
  pub add_exact : (a b : ℕ) → a + b ≤ limit → f.add (f.of_nat a) (f.of_nat b) ≡ f.of_nat (a + b)
  pub double_exact : (a : ℕ) → 2 * a ≤ limit → f.mul (f.of_nat a) (f.of_nat 2) ≡ f.of_nat (2 * a)
  pub lt_exact :
      (a b : ℕ)
      → a ≤ limit
      → b ≤ limit
      → f.lt (f.of_nat a) (f.of_nat b) ≡ (if leb b a then false else true)
  pub third_exact :
      (t n : ℕ)
      → t ≤ limit
      → n ≤ limit
      → f.le (f.div (f.of_nat t) (f.of_nat 3)) (f.of_nat n) ≡ leb t (3 * n)

module _ {W : Type 0} ⦃f : Float64 W⦄ (value : W → ℕ) where
  abbrev pub IsWhole : W → Type 0
  IsWhole w = w ≡ f.of_nat (value w)

  module _ (exact : IsExact f value) where
    pub of_nat-IsWhole : (n : ℕ) → n ≤ limit → IsWhole (f.of_nat n)
    of_nat-IsWhole n le = ap f.of_nat (sym (exact.value_exact n le))

    pub zero-value : value (f.of_nat 0) ≡ 0
    zero-value = exact.value_exact 0 (omega arith)

    add-whole :
        (a b : W)
        → IsWhole a
        → IsWhole b
        → value a + value b ≤ limit
        → f.add a b ≡ f.of_nat (value a + value b)
    add-whole a b wa wb le =
        ap (λ x. f.add x b) wa
        ∙ ap (λ y. f.add (f.of_nat (value a)) y) wb
        ∙ exact.add_exact (value a) (value b) le

    pub value-add :
        (a b : W)
        → IsWhole a
        → IsWhole b
        → value a + value b ≤ limit
        → value (f.add a b) ≡ value a + value b
    value-add a b wa wb le =
        ap value (add-whole a b wa wb le) ∙ exact.value_exact (value a + value b) le

    pub add-IsWhole :
        (a b : W) → IsWhole a → IsWhole b → value a + value b ≤ limit → IsWhole (f.add a b)
    add-IsWhole a b wa wb le = add-whole a b wa wb le ∙ ap f.of_nat (sym (value-add a b wa wb le))

    pub lt-whole :
        (a b : W)
        → IsWhole a
        → IsWhole b
        → value a ≤ limit
        → value b ≤ limit
        → f.lt a b ≡ (if leb (value b) (value a) then false else true)
    lt-whole a b wa wb la lb =
        ap (λ x. f.lt x b) wa
        ∙ ap (λ y. f.lt (f.of_nat (value a)) y) wb
        ∙ exact.lt_exact (value a) (value b) la lb
