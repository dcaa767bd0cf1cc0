-- ===== src/Collector/Concentration.antt =====
-- The concentration section of `CollectSnapshot`: the shares of validators and of entities, who could
-- veto alone, and the coefficients. The order of validators or entities with the same power is one of
-- those that `sort.Slice` may leave.
pub mod Exact
pub mod Coefficient
pub mod Grouping
pub mod Thresholds
use validator_health_collect.Base.{
  ℕ, ◌+◌, String, ◌<>◌, Bool, true, false, ◌&&◌, Option, none, some, List, [], ◌∷◌, ◌++◌, ◌==◌,
  string_eq, pair_eq, if◌then◌else◌,
}
use validator_health_collect.Base.Dict
use validator_health_collect.Base.Dict.{Dict}
use validator_health_collect.Base.Float.{Float64}
use validator_health_collect.Base.Sort.{sort_by}
use validator_health_collect.Go.Text.{str_lt}
use validator_health_collect.Validators.{Validator}
use validator_health_collect.Collector.Schedule.{has_turnout_independent_veto_power}

-- The gauges of the section; a gauge that was never set is `none`.
pub record ConcentrationGauges (W : Type 0) : Type 0 where
  pub largest_val_share : Option W
  pub entity_share : Dict (String × String) W
  pub entity_can_veto_alone : Dict String W
  pub veto_power_needed : Option W
  pub any_entity_can_veto : Option W
  pub largest_ent_share : Option W
  pub halt_coeff : Option ℕ
  pub safety_coeff : Option ℕ

-- strings.Join
unfoldable pub join : String → List String → String
join sep [] = ""
join sep (s ∷ []) = s
join sep (s ∷ t ∷ ts) = s <> sep <> join sep (t ∷ ts)

-- The name of a validator's entity, or its moniker if the map has none.
unfoldable pub entity_of : Dict String String → Validator → String
entity_of entity_map v = elim (Dict.lookup v.operator_address entity_map) [
  | none ↦ v.moniker
  | some name ↦ name
]

unfoldable pub members_of :
    Dict String String → List Validator → Dict String (List String) → Dict String (List String)
members_of entity_map [] d = d
members_of entity_map (v ∷ vs) d =
    let name = entity_of entity_map v in
    members_of entity_map vs (
      Dict.insert name
        (Dict.lookup_or [] name d ++ ((v.moniker <> " (" <> v.operator_address <> ")") ∷ [])) d)

abbrev is_nil : {A : Type 0} → List A → Bool
is_nil [] = true
is_nil (a ∷ as') = false

module _ {W : Type 0} ⦃f : Float64 W⦄ where
  unfoldable pub tokens_of : Validator → W
  tokens_of v = f.parse_value v.tokens

  unfoldable pub sum_tokens : W → List Validator → W
  sum_tokens total [] = total
  sum_tokens total (v ∷ vs) = sum_tokens (f.add total (tokens_of v)) vs

  unfoldable pub largest_share : W → W → List Validator → W
  largest_share total largest [] = largest
  largest_share total largest (v ∷ vs) =
      let share = f.div (tokens_of v) total in
      largest_share total (if f.lt largest share then share else largest) vs

  unfoldable pub entity_power : Dict String String → List Validator → Dict String W → Dict String W
  entity_power entity_map [] d = d
  entity_power entity_map (v ∷ vs) d =
      let name = entity_of entity_map v in
      entity_power entity_map vs
        (Dict.insert name (f.add (Dict.lookup_or (f.of_nat 0) name d) (tokens_of v)) d)

  -- `entityEntry`: a name and its power
  abbrev pub more_power : String × W → String × W → Bool
  more_power (_, p) (_, q) = f.lt q p

  unfoldable pub sort_entities : Dict String W → List (String × W)
  sort_entities = sort_by more_power

  -- The list of the members stands only on entities of 5 percent and more.
  unfoldable pub entity_shares :
      Dict String (List String)
      → W
      → List (String × W)
      → Dict (String × String) W
      → Dict (String × String) W
  entity_shares members total [] d = d
  entity_shares members total ((name, power) ∷ es) d =
      let share = f.div power total in
      let label =
        if f.le (f.ratio 5 100) share
        then join " · " (sort_by str_lt (Dict.lookup_or [] name members))
        else "" in
      entity_shares members total es (Dict.insert (name, label) share d)

  unfoldable pub share_by_entity : W → List (String × W) → Dict String W → Dict String W
  share_by_entity total [] d = d
  share_by_entity total ((name, power) ∷ es) d =
      share_by_entity total es (Dict.insert name (f.div power total) d)

  unfoldable pub veto_alone : W → W → List (String × W) → Dict String W → Dict String W
  veto_alone total threshold [] d = d
  veto_alone total threshold ((name, power) ∷ es) d = veto_alone total threshold es (
      if has_turnout_independent_veto_power (f.div power total) threshold
      then Dict.insert name (f.of_nat 1) d
      else d)

  -- The entities, from the greatest, that reach a threshold: the loop with its break.
  unfoldable pub count_to : W → W → ℕ → List (String × W) → ℕ
  count_to threshold cumulative count [] = count
  count_to threshold cumulative count ((name, power) ∷ es) =
      let rest = count_to threshold (f.add cumulative power) (count + 1) es in
      if f.le threshold (f.add cumulative power) then count + 1 else rest

  unfoldable pub coefficient : W → List (String × W) → ℕ
  coefficient threshold es = count_to threshold (f.of_nat 0) 0 es

  unfoldable pub publish_validators : List Validator → ConcentrationGauges W → ConcentrationGauges W
  publish_validators validators g =
      let total = sum_tokens (f.of_nat 0) validators in
      if f.lt (f.of_nat 0) total && (if is_nil validators then false else true)
      then record g { largest_val_share = some (largest_share total (f.of_nat 0) validators) }
      else g

  -- The threshold is that of parameters that were read, and of use only between 0 and 1.
  unfoldable pub publish_veto :
      Option W → W → List (String × W) → ConcentrationGauges W → ConcentrationGauges W
  publish_veto none total es g = record g {
    entity_can_veto_alone = [];
    any_entity_can_veto = some (f.of_nat 0);
  }
  publish_veto (some threshold) total es g =
      if f.lt (f.of_nat 0) threshold && f.lt threshold (f.of_nat 1)
      then (let able = veto_alone total threshold es [] in
          record g {
            entity_can_veto_alone = able;
            veto_power_needed = some threshold;
            any_entity_can_veto = some (if is_nil able then f.of_nat 0 else f.of_nat 1);
          })
      else record g { entity_can_veto_alone = []; any_entity_can_veto = some (f.of_nat 0) }

  unfoldable pub publish_coefficients :
      W → List (String × W) → ConcentrationGauges W → ConcentrationGauges W
  publish_coefficients total [] g = g
  publish_coefficients total ((name, power) ∷ es) g =
      let entities = (name, power) ∷ es in
      if f.lt (f.of_nat 0) total
      then record g {
        largest_ent_share = some (f.div power total);
        halt_coeff = some (coefficient (f.div total (f.of_nat 3)) entities);
        safety_coeff = some (coefficient (f.div (f.mul total (f.of_nat 2)) (f.of_nat 3)) entities);
      }
      else g

  unfoldable pub entities_of : Dict String String → List Validator → List (String × W)
  entities_of entity_map validators = sort_entities (entity_power entity_map validators [])

  -- The section, on validators that are sorted by their tokens.
  unfoldable pub publish_concentration :
      Dict String String → List Validator → Option W → ConcentrationGauges W → ConcentrationGauges W
  publish_concentration entity_map validators veto g =
      let total = sum_tokens (f.of_nat 0) validators in
      let entities = entities_of entity_map validators in
      publish_coefficients total entities (
        publish_veto veto total entities (record (publish_validators validators g) {
          entity_share = entity_shares (members_of entity_map validators []) total entities [];
        }))

-- By tokens, from the greatest.
unfoldable pub sort_validators : (W : Type 0) ⦃f : Float64 W⦄ → List Validator → List Validator
sort_validators W ⦃f⦄ = sort_by λ u v. f.lt (tokens_of {W = W} v) (tokens_of {W = W} u)
