-- ===== src/Governance/Sums.antt =====
-- The sums over the votes of one entity, which the maps of `analyzeProposalVeto` hold.
use validator_health_collect.Base.{
  ◌≡◌, refl, ap, ◌∙◌, ◌↔◌, String, true, Option, none, some, List, [], ◌∷◌, arith, string_eq, ◌==◌,
  ◌++◌, Bool, false, if◌then◌else◌,
}
use validator_health_collect.Base.Dict
use validator_health_collect.Base.Dict.{Dict, NodupKeys, insert-NodupKeys, lookup-insert}
use validator_health_collect.Base.Float.{Float64}
use validator_health_collect.Governance.Vote.{GovVote}
use validator_health_collect.Governance.Veto.{add_at, power_by_entity, zero_w}

module _ {W : Type 0} ⦃f : Float64 W⦄ where
  pub power_by_entity-NodupKeys :
      (amount : GovVote W → W) (vs : List (GovVote W)) (d : Dict String W)
      → NodupKeys d
      → NodupKeys (power_by_entity amount vs d)
  unfolding power_by_entity add_at
  power_by_entity-NodupKeys amount [] d u = u
  power_by_entity-NodupKeys amount (v ∷ vs) d u =
      power_by_entity-NodupKeys amount vs (add_at v.entity (amount v) d)
        (insert-NodupKeys v.entity _ d u)

  -- The sum of an amount over the votes of one entity, in their order, from `acc` on.
  abbrev pub sum_of : (GovVote W → W) → String → W → List (GovVote W) → W
  sum_of amount entity acc [] = acc
  sum_of amount entity acc (v ∷ vs) =
      sum_of amount entity (if entity == v.entity then f.add acc (amount v) else acc) vs

  abbrev pub occurs : String → List (GovVote W) → Bool
  occurs entity [] = false
  occurs entity (v ∷ vs) = if entity == v.entity then true else occurs entity vs

  lookup_or-add_at :
      (k j : String) (x : W) (d : Dict String W)
      → Dict.lookup_or zero_w k (add_at j x d)
        ≡ (if k == j then f.add (Dict.lookup_or zero_w k d) x else Dict.lookup_or zero_w k d)
  unfolding add_at Dict.lookup_or
  lookup_or-add_at k j x d =
      ground (arith, lookup-insert k j (f.add (Dict.lookup_or zero_w j d) x) d)

  pub lookup_or-power_by_entity :
      (amount : GovVote W → W) (entity : String) (vs : List (GovVote W)) (d : Dict String W)
      → Dict.lookup_or zero_w entity (power_by_entity amount vs d)
        ≡ sum_of amount entity (Dict.lookup_or zero_w entity d) vs
  unfolding power_by_entity
  lookup_or-power_by_entity amount entity [] d = refl
  lookup_or-power_by_entity amount entity (v ∷ vs) d =
      lookup_or-power_by_entity amount entity vs (add_at v.entity (amount v) d)
      ∙ ap (λ acc. sum_of amount entity acc vs) (lookup_or-add_at entity v.entity (amount v) d)

  abbrev is_held : Option W → Bool
  is_held none = false
  is_held (some p) = true

  is_held-add_at :
      (k j : String) (x : W) (d : Dict String W)
      → is_held (Dict.lookup k (add_at j x d))
        ≡ (if k == j then true else is_held (Dict.lookup k d))
  unfolding add_at
  is_held-add_at k j x d = ground (arith, lookup-insert k j (f.add (Dict.lookup_or zero_w j d) x) d)

  is_held-power_by_entity :
      (amount : GovVote W → W) (entity : String) (vs : List (GovVote W)) (d : Dict String W)
      → is_held (Dict.lookup entity (power_by_entity amount vs d))
        ≡ (if occurs entity vs then true else is_held (Dict.lookup entity d))
  unfolding power_by_entity
  is_held-power_by_entity amount entity [] d = refl
  is_held-power_by_entity amount entity (v ∷ vs) d =
      let ih = is_held-power_by_entity amount entity vs (add_at v.entity (amount v) d) in
      let put = is_held-add_at entity v.entity (amount v) d in ground (arith, ih, put)

  pub power_by_entity-append :
      (amount : GovVote W → W) (us vs : List (GovVote W)) (d : Dict String W)
      → power_by_entity amount (us ++ vs) d
        ≡ power_by_entity amount vs (power_by_entity amount us d)
  unfolding power_by_entity
  power_by_entity-append amount [] vs d = refl
  power_by_entity-append amount (u ∷ us) vs d =
      power_by_entity-append amount us vs (add_at u.entity (amount u) d)

  -- What the map of the sums says of an entity: it occurs, and this is its sum.
  pub lookup-power_by_entity :
      (amount : GovVote W → W) (entity : String) (vs : List (GovVote W)) (power : W)
      → Dict.lookup entity (power_by_entity amount vs []) ≡ some power
        ↔ ((occurs entity vs ≡ true) × (power ≡ sum_of amount entity zero_w vs))
  unfolding Dict.lookup Dict.lookup_or
  lookup-power_by_entity amount entity vs power =
      let held = is_held-power_by_entity amount entity vs [] in
      let sum = lookup_or-power_by_entity amount entity vs [] in
      (λ h. ground (arith, held, sum), λ h. ground (arith, held, sum))
