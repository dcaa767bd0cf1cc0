-- ===== src/Config/Accounts.antt =====
-- What an accepted configuration says of its accounts.
use validator_health_collect.Base.{
  ℕ, ◌≡◌, subst, ◌≢◌, inl, inr, String, Bool, true, false, List, [], ◌∷◌, arith, length, All,
  All-map, ◌==◌, string_eq, nat_eq, if◌then◌else◌,
}
use validator_health_collect.Base.Dict
use validator_health_collect.Base.Dict.{Dict, lookup-insert}
use validator_health_collect.Base.Float.{Float64}
use validator_health_collect.Base.Results.{ok, Result-cases, ok-injective}
use validator_health_collect.Go.Text.{trim_space}
use validator_health_collect.Address.{Codec, decode, encode}
use validator_health_collect.Config.{
  ManagedDelegator, Config, canonical_account, check_accounts, valid_percent, validate,
}

module _ (c : Codec) where
  abbrev pub IsCanonical : ManagedDelegator → Type 0
  IsCanonical a =
      (a.name ≢ "")
      × ((data_bytes : List ℕ) × (length data_bytes ≡ 20)
          × (encode c "cosmos" data_bytes ≡ ok a.address))

  canonical_account-IsCanonical :
      (raw a : ManagedDelegator) → canonical_account c raw ≡ ok a → IsCanonical a
  unfolding canonical_account
  canonical_account-IsCanonical raw a e = elim (Result-cases (decode c (trim_space raw.address))) [
    | inr (f, d) ↦ ground (arith, d)
    | inl ((hrp, data_bytes), d) ↦ elim (Result-cases (encode c "cosmos" data_bytes)) [
      | inr (f, g) ↦ ground (arith, d, g)
      | inl (address, g) ↦
          (ground (arith, d, g), (data_bytes, ground (arith, d, g), ground (arith, d, g)))
    ]
  ]

-- No two accounts share a name or an address.
abbrev pub IsDistinct : List ManagedDelegator → Type 0
IsDistinct [] = Unit
IsDistinct (a ∷ as') = All (λ b. (b.name ≢ a.name) × (b.address ≢ a.address)) as' × IsDistinct as'

abbrev IsFresh : Dict String Bool → Dict String Bool → ManagedDelegator → Type 0
IsFresh names addresses a =
    (Dict.lookup_or false a.name names ≡ false) × (Dict.lookup_or false a.address addresses ≡ false)

lookup_or-insert :
    (j k : String) (d : Dict String Bool)
    → Dict.lookup_or false j (Dict.insert k true d)
      ≡ (if j == k then true else Dict.lookup_or false j d)
unfolding Dict.lookup_or
lookup_or-insert j k d = ground (arith, lookup-insert j k true d)

IsFresh-insert :
    (names addresses : Dict String Bool) (a b : ManagedDelegator)
    → IsFresh (Dict.insert a.name true names) (Dict.insert a.address true addresses) b
    → IsFresh names addresses b × ((b.name ≢ a.name) × (b.address ≢ a.address))
IsFresh-insert names addresses a b (n, m) =
    ground
      (arith, lookup_or-insert b.name a.name names, lookup_or-insert b.address a.address addresses)

module _ (c : Codec) where
  abbrev Checked : Dict String Bool → Dict String Bool → List ManagedDelegator → Type 0
  Checked names addresses as' =
      All (IsCanonical c) as' × IsDistinct as' × All (IsFresh names addresses) as'

  Checked-cons :
      (names addresses : Dict String Bool) (a : ManagedDelegator) (as' : List ManagedDelegator)
      → IsCanonical c a
      → IsFresh names addresses a
      → Checked (Dict.insert a.name true names) (Dict.insert a.address true addresses) as'
      → Checked names addresses (a ∷ as')
  Checked-cons names addresses a as' can fresh (cans, distinct, freshes) = (
    (can, cans),
    (All-map (λ b h. (IsFresh-insert names addresses a b h).1) as' freshes, distinct),
    (fresh, All-map (λ b h. (IsFresh-insert names addresses a b h).0) as' freshes),
  )

  check_accounts-Checked :
      (names addresses : Dict String Bool) (raws as' : List ManagedDelegator)
      → check_accounts c names addresses raws ≡ ok as'
      → Checked names addresses as'
  unfolding check_accounts
  check_accounts-Checked names addresses [] as' e = rw (← ok-injective _ _ e) (tt, tt, tt)
  check_accounts-Checked names addresses (raw ∷ raws) as' e =
      elim (Result-cases (canonical_account c raw)) [
        | inr (f, h) ↦ cc (rw h at e)
        | inl (a, h) ↦
            let names' = Dict.insert a.name true names in
            let addresses' = Dict.insert a.address true addresses in
            elim (Result-cases (check_accounts c names' addresses' raws)) [
              | inr (f, g) ↦ ground (arith, h, g)
              | inl (rest, g) ↦
                  let fresh : IsFresh names addresses a = ground (arith, h, g) in
                  let same : (a ∷ rest) ≡ as' = ground (arith, h, g, fresh) in
                  rw (← same) (
                    Checked-cons names addresses a rest (canonical_account-IsCanonical c raw a h)
                      fresh (check_accounts-Checked names' addresses' raws rest g))
            ]
      ]

module _ {W : Type 0} ⦃f : Float64 W⦄ (c : Codec) where
  -- In a configuration that was accepted each account has a name and stands under the canonical
  -- `cosmos` encoding of 20 bytes, no two accounts share a name or an address, and the two limits of
  -- jail progress are valid percentages of which the warning is not at or above the critical one.
  pub validate-accounts :
      (cfg cfg' : Config W)
      → validate c cfg ≡ ok cfg'
      → All (IsCanonical c) cfg'.accounts
        × IsDistinct cfg'.accounts
        × (valid_percent cfg'.warning_jail_progress_percent ≡ true)
        × (valid_percent cfg'.critical_jail_progress_percent ≡ true)
        × (f.le cfg'.critical_jail_progress_percent cfg'.warning_jail_progress_percent ≡ false)
  unfolding validate
  validate-accounts cfg cfg' e = elim (Result-cases (check_accounts c [] [] cfg.accounts)) [
    | inr (g, h) ↦ ground (arith, h)
    | inl (as', h) ↦
        let (cans, distinct, fresh) = check_accounts-Checked c [] [] cfg.accounts as' h in
        let same : as' ≡ cfg'.accounts = ground (arith, h) in
        (
          subst (All (IsCanonical c)) same cans,
          subst IsDistinct same distinct,
          ground (arith, h),
          ground (arith, h),
          ground (arith, h),
        )
  ]
