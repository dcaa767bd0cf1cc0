-- ===== src/Collector/Concentration/Coefficient.antt =====
-- The coefficients of `CollectSnapshot`: how many entities it takes to reach a threshold.
use validator_health_collect.Base.{
  ◌*◌, ap, ◌∙◌, ◌⊎◌, ℕ, zero, suc, ◌+◌, ◌≤◌, ◌<◌, ◌≡◌, refl, subst, String, Bool, List, [], ◌∷◌,
  arith, leb, length, All, select, Bool-cases, inl, inr,
}
use validator_health_collect.Base.Dict.{Dict}
use validator_health_collect.Base.Float.{Float64}
use validator_health_collect.Base.Sort.{insert_by, sort_by, insert_by-All, sort_by-All}
use validator_health_collect.Collector.Concentration.{
  more_power, sort_entities, count_to, coefficient,
}
use validator_health_collect.Collector.Concentration.Exact.{
  limit, IsExact, IsWhole, of_nat-IsWhole, zero-value, value-add, add-IsWhole, lt-whole,
}

abbrev pub take : {A : Type 0} → ℕ → List A → List A
take zero xs = []
take (suc n) [] = []
take (suc n) (x ∷ xs) = x ∷ take n xs

module _ {W : Type 0} ⦃f : Float64 W⦄ (value : W → ℕ) where
  -- The power of some entities.
  abbrev pub power : List (String × W) → ℕ
  power [] = 0
  power ((name, p) ∷ es) = value p + power es

  power-select : (p : String × W → Bool) (es : List (String × W)) → power (select p es) ≤ power es
  power-select p [] = omega arith
  power-select p (e ∷ es) = ground (arith, power-select p es)

  length-select :
      (p : String × W → Bool) (es : List (String × W)) → length (select p es) ≤ length es
  length-select p [] = omega arith
  length-select p (e ∷ es) = ground (arith, length-select p es)

  power-take_mono :
      (j k : ℕ) (es : List (String × W)) → j ≤ k → power (take j es) ≤ power (take k es)
  power-take_mono zero k es le = omega arith
  power-take_mono (suc j) zero es le = omega arith
  power-take_mono (suc j) (suc k) [] le = omega arith
  power-take_mono (suc j) (suc k) (e ∷ es) le =
      let ih = power-take_mono j k es (omega (arith, le)) in omega (arith, ih)

  -- No value is greater than one before it.
  abbrev pub IsFalling : List (String × W) → Type 0
  IsFalling [] = Unit
  IsFalling (e ∷ es) = All (λ d. value d.1 ≤ value e.1) es × IsFalling es

  -- Of a falling list the first elements are at least those behind them.
  power-take_tail :
      (k : ℕ) (e : String × W) (es : List (String × W))
      → IsFalling (e ∷ es)
      → power (take k es) ≤ power (take k (e ∷ es))
  power-take_tail zero e es s = omega arith
  power-take_tail (suc k) e [] s = omega arith
  power-take_tail (suc k) e (d ∷ es) ((le, _), s) =
      let ih = power-take_tail k d es s in omega (arith, ih, le)

  power-select-take :
      (p : String × W → Bool) (es : List (String × W))
      → IsFalling es
      → power (select p es) ≤ power (take (length (select p es)) es)
  power-select-take p [] s = omega arith
  power-select-take p (e ∷ es) (all, s) =
      let ih = power-select-take p es s in
      elim (Bool-cases (p e)) [
        | inl h ↦ rw h (omega (arith, ih))
        | inr h ↦
            let tail = power-take_tail (length (select p es)) e es (all, s) in
            rw h (omega (arith, ih, tail))
      ]

  -- Behind a sum, no fewer than `k` elements reach the threshold, which is a third of `t`.
  abbrev IsLeast : ℕ → ℕ → List (String × W) → ℕ → Type 0
  IsLeast t c es k = (j : ℕ) → t ≤ 3 * (c + power (take j es)) → k ≤ j

  IsLeast-first :
      (t c : ℕ) (e : String × W) (es : List (String × W)) → 3 * c < t → IsLeast t c (e ∷ es) 1
  IsLeast-first t c e es below zero h = omega (arith, below, h)
  IsLeast-first t c e es below (suc j) h = omega arith

  IsLeast-next :
      (t c c' k : ℕ) (e : String × W) (es : List (String × W))
      → 3 * c < t
      → c' ≡ c + value e.1
      → IsLeast t c' es k
      → IsLeast t c (e ∷ es) (suc k)
  IsLeast-next t c c' k e es below sum least zero h = omega (arith, below, h)
  IsLeast-next t c c' k e es below sum least (suc j) h =
      let le = least j (omega (arith, sum, h)) in omega (arith, le)

  abbrev pub AreWhole : List (String × W) → Type 0
  AreWhole es = All (λ e. IsWhole value e.1) es

  module _ (exact : IsExact f value) where
    -- The loop counts until the threshold is reached, and no further.
    count_to_lem :
        (threshold : W) (t : ℕ)
        → ((n : ℕ) → n ≤ limit → f.le threshold (f.of_nat n) ≡ leb t (3 * n))
        → (cumulative : W) (count : ℕ) (es : List (String × W)) → IsWhole value cumulative
        → AreWhole es
        → value cumulative + power es ≤ limit
        → 3 * value cumulative < t
        → t ≤ 3 * (value cumulative + power es)
        → (k : ℕ) × (count_to threshold cumulative count es ≡ count + k)
          × (t ≤ 3 * (value cumulative + power (take k es)))
          × IsLeast t (value cumulative) es k
    unfolding count_to
    count_to_lem threshold t test cumulative count [] whole all fits below reach =
        ground (arith, below, reach)
    count_to_lem threshold t test cumulative count ((name, p) ∷ es) whole (wp, all) fits below
          reach =
        let room : value cumulative + value p ≤ limit = omega (arith, fits) in
        let sum = value-add value exact cumulative p whole wp room in
        let whole' = add-IsWhole value exact cumulative p whole wp room in
        let tested : f.le threshold (f.add cumulative p) ≡ leb t (3 * value (f.add cumulative p)) =
          ap (f.le threshold) whole'
          ∙ test (value (f.add cumulative p)) (omega (arith, sum, room)) in
        elim (Bool-cases (f.le threshold (f.add cumulative p))) [
          | inl h ↦ (
            1,
            rw (h, count_to) refl,
            ground (arith, h, tested, sum),
            IsLeast-first t (value cumulative) (name, p) es below,
          )
          | inr h ↦
              let (k, n, enough, least) =
                count_to_lem threshold t test (f.add cumulative p) (count + 1) es whole' all
                  (omega (arith, sum, fits)) (ground (arith, h, tested))
                  (omega (arith, sum, reach)) in
              (
                suc k,
                rw (h, count_to) (omega (arith, n)),
                omega (arith, sum, enough),
                IsLeast-next t (value cumulative) (value (f.add cumulative p)) k (name, p) es below
                    sum least,
              )
        ]

    -- A whole number that float64 has.
    abbrev IsSmall : String × W → Type 0
    IsSmall e = IsWhole value e.1 × (value e.1 ≤ limit)

    AreSmall : (es : List (String × W)) → AreWhole es → power es ≤ limit → All IsSmall es
    AreSmall [] all le = tt
    AreSmall (e ∷ es) (w, all) le = ((w, omega (arith, le)), AreSmall es all (omega (arith, le)))

    All-below :
        (a x : String × W) (xs : List (String × W))
        → value x.1 ≤ value a.1
        → All (λ d. value d.1 ≤ value x.1) xs
        → All (λ d. value d.1 ≤ value a.1) xs
    All-below a x [] le all = tt
    All-below a x (y ∷ ys) le (p, all) = (omega (arith, le, p), All-below a x ys le all)

    insert_by-IsFalling :
        (a : String × W) (xs : List (String × W))
        → IsSmall a
        → All IsSmall xs
        → IsFalling xs
        → IsFalling (insert_by more_power a xs)
    unfolding insert_by
    insert_by-IsFalling a [] small all s = (tt, tt)
    insert_by-IsFalling a (x ∷ xs) (w, l) ((w', l'), all) (under, s) =
        let test = lt-whole value exact a.1 x.1 w w' l l' in
        elim (Bool-cases (more_power x a)) [
          | inl h ↦ rw h (
            insert_by-All more_power (λ d. value d.1 ≤ value x.1) a xs (ground (arith, h, test))
                under,
            insert_by-IsFalling a xs (w, l) all s,
          )
          | inr h ↦
              let le : value x.1 ≤ value a.1 = ground (arith, h, test) in
              rw h ((le, All-below a x xs le under), (under, s))
        ]

    sort_by-IsFalling :
        (xs : List (String × W)) → All IsSmall xs → IsFalling (sort_by more_power xs)
    unfolding sort_by
    sort_by-IsFalling [] all = tt
    sort_by-IsFalling (x ∷ xs) (small, all) =
        insert_by-IsFalling x (sort_by more_power xs) small (sort_by-All more_power IsSmall xs all)
          (sort_by-IsFalling xs all)

    pub sort_entities-IsFalling :
        (powers : Dict String W)
        → AreWhole powers
        → power powers ≤ limit
        → IsFalling (sort_entities powers)
    unfolding sort_entities
    sort_entities-IsFalling powers all le = sort_by-IsFalling powers (AreSmall powers all le)

    -- What is said of a coefficient: so many of the strongest entities reach a third of `t`, and so does
    -- no choice of fewer.
    pub coefficient_lem :
        (threshold : W) (t : ℕ) (es : List (String × W)) (p : String × W → Bool)
        → ((n : ℕ) → n ≤ limit → f.le threshold (f.of_nat n) ≡ leb t (3 * n))
        → AreWhole es
        → IsFalling es
        → power es ≤ limit
        → 0 < t
        → t ≤ 3 * power es
        → let n = coefficient threshold es in
          (t ≤ 3 * power (take n es)) × ((3 * power (select p es) < t) ⊎ (n ≤ length (select p es)))
    unfolding coefficient
    coefficient_lem threshold t es p test all falling fits pos reach =
        let none_yet = zero-value value exact in
        let some_are = power-select-take p es falling in
        let (k, n, enough, least) =
          count_to_lem threshold t test (f.of_nat 0) 0 es
            (of_nat-IsWhole value exact 0 (omega arith)) all (omega (arith, none_yet, fits))
            (omega (arith, none_yet, pos)) (omega (arith, none_yet, reach)) in
        let same : k ≡ coefficient threshold es = omega (arith, n) in
        let counted : t ≤ 3 * power (take k es) = omega (arith, enough, none_yet) in
        (
          subst (λ m. t ≤ 3 * power (take m es)) same counted,
          elim (Bool-cases (leb t (3 * power (select p es)))) [
            | inl h ↦
                let reached : t ≤ 3 * power (select p es) = ground (arith, h) in
                let below =
                  least (length (select p es)) (omega (arith, reached, none_yet, some_are)) in
                inr (omega (arith, n, below))
            | inr h ↦ inl (ground (arith, h))
          ],
        )
