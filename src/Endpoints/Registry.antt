-- ===== src/Endpoints/Registry.antt =====
-- endpoints/registry.go: the endpoints that the registry advertises, and the compiled-in list.
use validator_health_collect.Base.{String, not, List, [], ◌∷◌, ◌==◌, string_eq, if◌then◌else◌}
use validator_health_collect.Go.Text.{trim_space, trim_right_slash, has_prefix}

pub record Endpoint : Type 0 where
  pub provider : String
  pub address : String

pub record RegistryApi : Type 0 where
  pub address : String
  pub provider : String

pub record ChainApis : Type 0 where
  pub rest : List Endpoint
  pub rpc : List Endpoint

-- The loop skips a blank address and one that is not encrypted.
unfoldable pub convert : List RegistryApi → List Endpoint
convert [] = []
convert (a ∷ as') =
    let rest = convert as' in
    let addr = trim_space a.address in
    if addr == ""
    then rest
    else (if not (has_prefix addr "https://")
        then rest
        else record { provider = trim_space a.provider; address = trim_right_slash addr } ∷ rest)

-- A decoded registry entry, by its lists of REST and of RPC servers.
unfoldable pub fetch_chain : List RegistryApi → List RegistryApi → ChainApis
fetch_chain rest rpc = record { rest = convert rest; rpc = convert rpc }

abbrev endpoint : String → String → Endpoint
endpoint provider address = record { provider = provider; address = address }

abbrev pub fallback : ChainApis
fallback = record {
  rest =
      endpoint "Allnodes" "https://cosmos-rest.publicnode.com"
      ∷ endpoint "Lavender.Five" "https://rest.lavenderfive.com/cosmoshub"
      ∷ endpoint "kjnodes" "https://cosmoshub.api.kjnodes.com"
      ∷ endpoint "Polkachu" "https://cosmos-api.polkachu.com"
      ∷ [];
  rpc =
      endpoint "Allnodes" "https://cosmos-rpc.publicnode.com"
      ∷ endpoint "Lavender.Five" "https://rpc.lavenderfive.com/cosmoshub"
      ∷ endpoint "kjnodes" "https://cosmoshub.rpc.kjnodes.com"
      ∷ endpoint "Polkachu" "https://cosmos-rpc.polkachu.com"
      ∷ [];
}
