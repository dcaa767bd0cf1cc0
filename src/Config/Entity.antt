-- ===== src/Config/Entity.antt =====
-- entity/map.go: the entities of a decoded file, flattened to a map from validator to entity.
use validator_health_collect.Base.{
  String, Bool, true, false, Option, some, List, [], ◌∷◌, ◌≡◌, refl, arith, ◌==◌, string_eq,
  if◌then◌else◌,
}
use validator_health_collect.Base.Dict
use validator_health_collect.Base.Dict.{Dict, lookup-insert}

pub record Entry : Type 0 where
  pub name : String
  pub validators : List String

unfoldable pub add_validators : String → List String → Dict String String → Dict String String
add_validators name [] result = result
add_validators name (addr ∷ addrs) result = add_validators name addrs (Dict.insert addr name result)

unfoldable pub flatten : List Entry → Dict String String → Dict String String
flatten [] result = result
flatten (e ∷ es) result = flatten es (add_validators e.name e.validators result)

abbrev pub lists : String → List String → Bool
lists addr [] = false
lists addr (a ∷ as') = if addr == a then true else lists addr as'

-- The name of the last entity that lists a validator, or else what was known before.
abbrev pub last_listed : String → List Entry → Option String → Option String
last_listed addr [] old = old
last_listed addr (e ∷ es) old =
    last_listed addr es (if lists addr e.validators then some e.name else old)

lookup-add_validators :
    (name addr : String) (addrs : List String) (d : Dict String String)
    → Dict.lookup addr (add_validators name addrs d)
      ≡ (if lists addr addrs then some name else Dict.lookup addr d)
unfolding add_validators
lookup-add_validators name addr [] d = refl
lookup-add_validators name addr (a ∷ as') d =
    ground (
      arith,
      lookup-add_validators name addr as' (Dict.insert a name d),
      lookup-insert addr a name d,
    )

-- A validator belongs to the last entity of the file that lists it, and to none if no entity does.
pub lookup-flatten :
    (addr : String) (es : List Entry) (d : Dict String String)
    → Dict.lookup addr (flatten es d) ≡ last_listed addr es (Dict.lookup addr d)
unfolding flatten
lookup-flatten addr [] d = refl
lookup-flatten addr (e ∷ es) d = rw (
  lookup-flatten addr es (add_validators e.name e.validators d),
  lookup-add_validators e.name addr e.validators d,
)
