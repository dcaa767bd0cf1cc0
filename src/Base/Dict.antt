-- ===== src/Base/Dict.antt =====
-- Go maps as association lists. A range over a map visits the entries in the order of insertion,
-- one of the orders that Go may choose.
use mathlib.Core.List
use mathlib.Core.Path.{◌≡◌, refl}
use mathlib.Core.Bool.{Bool}
use mathlib.Core.Option.{Option, none, some}
use mathlib.Core.List.{List, [], ◌∷◌, ◌++◌}
use native.Mathlib.Omega.{arith}
use validator_health_collect.Base.Equality.{Eq, ◌==◌, if◌then◌else◌}

abbrev pub Dict {ℓ κ} : Type ℓ → Type κ → Type (ℓ ⊔ κ)
Dict K V = List (K × V)

unfoldable pub keys {ℓ κ} : {K : Type ℓ} {V : Type κ} → Dict K V → List K
keys = List.map (λ (k, _). k)

unfoldable pub values {ℓ κ} : {K : Type ℓ} {V : Type κ} → Dict K V → List V
values = List.map (λ (_, v). v)

module _ {ℓ κ} {K : Type ℓ} {V : Type κ} ⦃e : Eq K⦄ where
  -- `v, ok := m[k]`
  unfoldable pub lookup : K → Dict K V → Option V
  lookup k [] = none
  lookup k ((j, v) ∷ d) = if k == j then some v else lookup k d

  -- `v := m[k]`, with the zero value of a missing key
  unfoldable pub lookup_or : V → K → Dict K V → V
  unfolding lookup
  lookup_or z k d = elim (lookup k d) [ none ↦ z | some v ↦ v ]

  -- `m[k] = v`
  unfoldable pub insert : K → V → Dict K V → Dict K V
  insert k v [] = (k, v) ∷ []
  insert k v ((j, w) ∷ d) = if k == j then (k, v) ∷ d else (j, w) ∷ insert k v d

  -- `delete(m, k)` at every entry that a test names
  unfoldable pub delete_if : (K → V → Bool) → Dict K V → Dict K V
  delete_if p [] = []
  delete_if p ((j, w) ∷ d) = let rest = delete_if p d in if p j w then rest else (j, w) ∷ rest

  abbrev pub NodupKeys : Dict K V → Type κ
  NodupKeys [] = Unit
  NodupKeys ((k, _) ∷ d) = (lookup k d ≡ none) × NodupKeys d

  pub lookup-nil : (k : K) → lookup k [] ≡ none
  unfolding lookup
  lookup-nil k = refl

  pub lookup-cons :
      (j k : K) (v : V) (d : Dict K V)
      → lookup j ((k, v) ∷ d) ≡ (if j == k then some v else lookup j d)
  unfolding lookup
  lookup-cons j k v d = refl

  pub lookup-insert :
      (j k : K) (v : V) (d : Dict K V)
      → lookup j (insert k v d) ≡ (if j == k then some v else lookup j d)
  unfolding insert lookup
  lookup-insert j k v [] = refl
  lookup-insert j k v (_ ∷ d) = ground (arith, lookup-insert j k v d)

  pub insert-NodupKeys : (k : K) (v : V) (d : Dict K V) → NodupKeys d → NodupKeys (insert k v d)
  unfolding insert
  insert-NodupKeys k v [] _ = (lookup-nil k, tt)
  insert-NodupKeys k v ((j, _) ∷ d) (fresh, u) =
      ground (arith, insert-NodupKeys k v d u, lookup-insert j k v d)

  pub lookup-delete_if :
      (p : K → V → Bool) (k : K) (d : Dict K V)
      → NodupKeys d
      → lookup k (delete_if p d)
        ≡ elim (lookup k d) [ none ↦ none | some v ↦ if p k v then none else some v ]
  unfolding lookup delete_if
  lookup-delete_if p k [] _ = refl
  lookup-delete_if p k ((j, w) ∷ d) (fresh, u) = ground (arith, lookup-delete_if p k d u)

  pub delete_if-NodupKeys :
      (p : K → V → Bool) (d : Dict K V) → NodupKeys d → NodupKeys (delete_if p d)
  unfolding delete_if
  delete_if-NodupKeys p [] u = tt
  delete_if-NodupKeys p ((j, w) ∷ d) (fresh, u) =
      ground (arith, delete_if-NodupKeys p d u, lookup-delete_if p j d u)
