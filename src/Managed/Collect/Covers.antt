-- ===== src/Managed/Collect/Covers.antt =====
-- Each position of an account is in the aggregate of its operator.
use validator_health_collect.Base.{
  ◌≡◌, refl, ap, sym, ◌∙◌, ◌⊎◌, String, List, [], ◌∷◌, map, inl, inr, All, All-Has, Has-All, Has,
  ◌==◌, string_eq, Bool-cases, arith,
}
use validator_health_collect.Base.Dict
use validator_health_collect.Base.Dict.{Dict}
use validator_health_collect.Base.Float.{Float64}
use validator_health_collect.Base.Results.{Result, ok, err, Result-cases}
use validator_health_collect.Base.Sort.{Has-sort_by}
use validator_health_collect.Go.Text.{str_lt}
use validator_health_collect.Go.Time.{Time}
use validator_health_collect.Managed.{
  AccountPosition, ManagedAggregate, ManagedScanResult, Settings, Answers, ManagedError,
}
use validator_health_collect.Managed.Positions.{Builder, build}
use validator_health_collect.Managed.Collect.{operators_of, collect}
use validator_health_collect.Managed.Collect.Operators.{
  operator_of, amount_at, collect-operators, collect-amounts,
}

Has-keys-insert :
    {V : Type 0} (j k : String) (v : V) (d : Dict String V)
    → (j ≡ k) ⊎ Has j (Dict.keys d)
    → Has j (Dict.keys (Dict.insert k v d))
unfolding Dict.insert Dict.keys
Has-keys-insert j k v [] h = h
Has-keys-insert j k v ((i, w) ∷ d) h = elim (Bool-cases (k == i)) [
  | inl e ↦
      let same : k ≡ i = ground (arith, e) in
      rw (e, Dict.insert)
        (elim h [
          | inl jk ↦ inl jk
          | inr old ↦ elim old [ inl ji ↦ inl (ji ∙ sym same) | inr later ↦ inr later ]
        ])
  | inr e ↦
      rw (e, Dict.insert)
        (elim h [
          | inl jk ↦ inr (Has-keys-insert j k v d (inl jk))
          | inr old ↦ elim old [
            | inl ji ↦ inl ji
            | inr later ↦ inr (Has-keys-insert j k v d (inr later))
          ]
        ])
]

Has-map :
    {A : Type 0} (g : A → String) (s : String) (xs : List A)
    → Has s (map g xs)
    → (x : A) × Has x xs × (g x ≡ s)
Has-map g s [] h = elim h [ ]
Has-map g s (x ∷ xs) (inl e) = (x, inl refl, sym e)
Has-map g s (x ∷ xs) (inr h) = let (y, k, e) = Has-map g s xs h in (y, inr k, e)

module _ {W : Type 0} ⦃f : Float64 W⦄ where
  build-Has :
      (j : String) (ps : List (AccountPosition W)) (d : Dict String (Builder W))
      → Has j (Dict.keys d)
      → Has j (Dict.keys (build ps d))
  unfolding build
  build-Has j [] d h = h
  build-Has j (p ∷ ps) d h = build-Has j ps _ (Has-keys-insert j p.operator_address _ d (inr h))

  Has-build :
      (p : AccountPosition W) (ps : List (AccountPosition W)) (d : Dict String (Builder W))
      → Has p ps
      → Has p.operator_address (Dict.keys (build ps d))
  unfolding build
  Has-build p [] d h = elim h [ ]
  Has-build p (q ∷ ps) d (inl e) = build-Has p.operator_address ps _ (
      Has-keys-insert p.operator_address q.operator_address _ d
        (inl (ap (λ x. x.operator_address) e)))
  Has-build p (q ∷ ps) d (inr h) = Has-build p ps _ h

  -- The aggregate of the operator of a position.
  abbrev pub IsCounted : ManagedScanResult W → AccountPosition W → Type 0
  IsCounted r p =
      (x : ManagedAggregate W) × Has x r.aggregates
      × (x.operator_address ≡ p.operator_address)
      × (x.amount_uatom ≡ amount_at (f.of_nat 0) p.operator_address r.accounts)

  collect-IsCounted :
      (cfg : Settings) (a : Answers W) (now : Time) (r : ManagedScanResult W)
      (p : AccountPosition W)
      → collect cfg a now ≡ ok r
      → Has p r.accounts
      → IsCounted r p
  unfolding operators_of
  collect-IsCounted cfg a now r p e h =
      let keys = Dict.keys (build r.accounts []) in
      let sorted : Has p.operator_address (operators_of r.accounts) =
        Has-sort_by str_lt p.operator_address keys (Has-build p r.accounts [] h) in
      let (x, k, same) =
        Has-map operator_of p.operator_address r.aggregates
          (rw (collect-operators cfg a now r e) sorted) in
      let amount =
        All-Has (λ y. y.amount_uatom ≡ amount_at (f.of_nat 0) y.operator_address r.accounts) x
          r.aggregates k (collect-amounts cfg a now r e) in
      (x, k, same, amount ∙ ap (λ o. amount_at (f.of_nat 0) o r.accounts) same)

  abbrev pub Covers : Result ManagedError (ManagedScanResult W) → Type 0
  Covers (err e) = Unit
  Covers (ok r) = All (IsCounted r) r.accounts

  -- If a collection succeeds, each position that it has found is counted: its operator has an aggregate,
  -- and the amount of this is the sum of all the positions at the operator.
  pub collect-Covers : (cfg : Settings) (a : Answers W) (now : Time) → Covers (collect cfg a now)
  collect-Covers cfg a now = elim (Result-cases (collect cfg a now)) [
    | inr (e, h) ↦ rw h tt
    | inl (r, h) ↦
        rw h (Has-All (IsCounted r) r.accounts (λ p k. collect-IsCounted cfg a now r p h k))
  ]
