-- ===== src/Base/Sort.antt =====
-- `sort.SliceStable` and, as one of the orders that it may leave, `sort.Slice`.
use mathlib.Core.Path.{◌≡◌}
use mathlib.Core.Logic.{◌⊎◌, inl, inr}
use mathlib.Core.Bool.{Bool, true, false}
use mathlib.Core.List.{List, [], ◌∷◌}
use validator_health_collect.Base.Equality.{if◌then◌else◌}
use validator_health_collect.Base.Tests.{Bool-cases}
use validator_health_collect.Base.Lists.{Has, All}

module _ {A : Type 0} (less : A → A → Bool) where
  unfoldable pub insert_by : A → List A → List A
  insert_by a [] = a ∷ []
  insert_by a (x ∷ xs) = if less x a then x ∷ insert_by a xs else a ∷ x ∷ xs

  -- Elements of which none is less than the other keep their order.
  unfoldable pub sort_by : List A → List A
  sort_by [] = []
  sort_by (x ∷ xs) = insert_by x (sort_by xs)

  Has-insert_by : (b a : A) (xs : List A) → (b ≡ a) ⊎ Has b xs → Has b (insert_by a xs)
  unfolding insert_by
  Has-insert_by b a [] h = h
  Has-insert_by b a (x ∷ xs) h = elim (Bool-cases (less x a)) [
    | inl e ↦ rw e (elim h [
      | inl same ↦ inr (Has-insert_by b a xs (inl same))
      | inr old ↦ elim old [
        | inl same ↦ inl same
        | inr later ↦ inr (Has-insert_by b a xs (inr later))
      ]
    ])
    | inr e ↦ rw e h
  ]

  insert_by-Has : (b a : A) (xs : List A) → Has b (insert_by a xs) → (b ≡ a) ⊎ Has b xs
  unfolding insert_by
  insert_by-Has b a [] h = h
  insert_by-Has b a (x ∷ xs) h = elim (Bool-cases (less x a)) [
    | inl e ↦
        let g : (b ≡ x) ⊎ Has b (insert_by a xs) = rw e at h in
        elim g [
          | inl same ↦ inr (inl same)
          | inr later ↦ elim (insert_by-Has b a xs later) [
            | inl new ↦ inl new
            | inr old ↦ inr (inr old)
          ]
        ]
    | inr e ↦ rw e at h
  ]

  pub Has-sort_by : (b : A) (xs : List A) → Has b xs → Has b (sort_by xs)
  unfolding sort_by
  Has-sort_by b [] h = h
  Has-sort_by b (x ∷ xs) (inl same) = Has-insert_by b x (sort_by xs) (inl same)
  Has-sort_by b (x ∷ xs) (inr later) = Has-insert_by b x (sort_by xs) (inr (Has-sort_by b xs later))

  pub sort_by-Has : (b : A) (xs : List A) → Has b (sort_by xs) → Has b xs
  unfolding sort_by
  sort_by-Has b [] h = h
  sort_by-Has b (x ∷ xs) h = elim (insert_by-Has b x (sort_by xs) h) [
    | inl same ↦ inl same
    | inr later ↦ inr (sort_by-Has b xs later)
  ]

  pub insert_by-All :
      (P : A → Type 0) (a : A) (xs : List A) → P a → All P xs → All P (insert_by a xs)
  unfolding insert_by
  insert_by-All P a [] h all = (h, tt)
  insert_by-All P a (x ∷ xs) h (p, ps) = elim (Bool-cases (less x a)) [
    | inl e ↦ rw e (p, insert_by-All P a xs h ps)
    | inr e ↦ rw e (h, (p, ps))
  ]

  pub sort_by-All : (P : A → Type 0) (xs : List A) → All P xs → All P (sort_by xs)
  unfolding sort_by
  sort_by-All P [] all = tt
  sort_by-All P (x ∷ xs) (p, ps) = insert_by-All P x (sort_by xs) p (sort_by-All P xs ps)

  -- No element is less than one before it.
  abbrev pub IsSorted : List A → Type 0
  IsSorted [] = Unit
  IsSorted (x ∷ xs) = All (λ y. less y x ≡ false) xs × IsSorted xs

  module _ (asym : (a b : A) → less a b ≡ true → less b a ≡ false)
      (trans : (a b c : A) → less b a ≡ false → less c b ≡ false → less c a ≡ false) where
    All-insert_by :
        (x a : A) (xs : List A)
        → less a x ≡ false
        → All (λ y. less y x ≡ false) xs
        → All (λ y. less y x ≡ false) (insert_by a xs)
    unfolding insert_by
    All-insert_by x a [] h all = (h, tt)
    All-insert_by x a (y ∷ ys) h (p, ps) = elim (Bool-cases (less y a)) [
      | inl e ↦ rw e (p, All-insert_by x a ys h ps)
      | inr e ↦ rw e (h, (p, ps))
    ]

    All-trans :
        (x a : A) (xs : List A)
        → less x a ≡ false
        → All (λ y. less y x ≡ false) xs
        → All (λ y. less y a ≡ false) xs
    All-trans x a [] h all = tt
    All-trans x a (y ∷ ys) h (p, ps) = (trans a x y h p, All-trans x a ys h ps)

    insert_by-IsSorted : (a : A) (xs : List A) → IsSorted xs → IsSorted (insert_by a xs)
    unfolding insert_by
    insert_by-IsSorted a [] s = (tt, tt)
    insert_by-IsSorted a (x ∷ xs) (all, s) = elim (Bool-cases (less x a)) [
      | inl e ↦ rw e (All-insert_by x a xs (asym x a e) all, insert_by-IsSorted a xs s)
      | inr e ↦ rw e ((e, All-trans x a xs e all), (all, s))
    ]

    pub sort_by-IsSorted : (xs : List A) → IsSorted (sort_by xs)
    unfolding sort_by
    sort_by-IsSorted [] = tt
    sort_by-IsSorted (x ∷ xs) = insert_by-IsSorted x (sort_by xs) (sort_by-IsSorted xs)
