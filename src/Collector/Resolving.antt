-- ===== src/Collector/Resolving.antt =====
-- `resolveEndpoints` and `publishEndpoint`.
use validator_health_collect.Base.{
  ℕ, ◌≡◌, refl, ◌≢◌, ◌⊎◌, inl, inr, String, Bool, true, false, Option, none, some, List, [], ◌∷◌,
  ◌++◌, arith, ◌==◌, string_eq, Bool-cases, if◌then◌else◌,
}
use validator_health_collect.Base.Dict
use validator_health_collect.Base.Dict.{Dict}
use validator_health_collect.Go.Time.{Time}
use validator_health_collect.Client.Rotator.{Rotator, clean, base, set}
use validator_health_collect.Client.Selection.{contains, first_or_empty, base-set}
use validator_health_collect.Endpoints.Registry.{ChainApis}
use validator_health_collect.Endpoints.Probe
use validator_health_collect.Endpoints.Probe.{Candidate, Servers}
use validator_health_collect.Endpoints.Resolver.{Resolver, Resolution, resolve}

-- The two clients of a scanner that runs on its own: for redelegations those of the state and of the
-- transaction search, for managed delegations those of REST and RPC.
pub record Pair : Type 0 where
  pub first : Rotator
  pub second : Rotator

-- The fields of `Collector` that a resolve pass changes, and the two gauges. A scanner that is not
-- configured is `none`; `ready` says that its channel is closed.
pub record Clients : Type 0 where
  pub rest : Rotator
  pub rpc : Rotator
  pub resolver : Resolver
  pub redelegation : Option Pair
  pub redelegation_ready : Bool
  pub managed_delegations : Option Pair
  pub managed_delegation_ready : Bool
  pub query_success : Dict String ℕ
  pub endpoint_info : List (String × String × String)

pub data ResolveError : Type 0 where
  no_healthy_rest no_healthy_rpc : ResolveError

unfoldable pub set_pair : List String → List String → Option Pair → Option Pair
set_pair us vs none = none
set_pair us vs (some p) = some (record { first = set p.first us; second = set p.second vs })

abbrev pub is_set : Option Pair → Bool
is_set none = false
is_set (some p) = true

unfoldable pub provider_of : Option Candidate → String
provider_of none = "unknown"
provider_of (some c) = if c.endpoint.provider == "" then "unknown" else c.endpoint.provider

unfoldable pub publish_endpoint : String → List Candidate → String → List (String × String × String)
publish_endpoint protocol cands address =
    if address == "" then [] else (protocol, provider_of (Probe.lookup cands address), address) ∷ []

unfoldable pub publish_search : List Candidate → List String → List (String × String × String)
publish_search cands [] = []
publish_search cands (a ∷ as') = publish_endpoint "tx_search" cands a

-- What follows when both kinds have a healthy endpoint.
unfoldable pub point_clients : Resolution → Clients → Clients
point_clients res c =
    let rest = set c.rest res.rest_addresses in
    let rpc = set c.rpc res.rpc_addresses in
    record c {
      rest = rest;
      rpc = rpc;
      redelegation = set_pair res.rest_addresses res.tx_search_addresses c.redelegation;
      redelegation_ready = if is_set c.redelegation then true else c.redelegation_ready;
      managed_delegations = set_pair res.rest_addresses res.rpc_addresses c.managed_delegations;
      managed_delegation_ready =
          if is_set c.managed_delegations then true else c.managed_delegation_ready;
      endpoint_info =
          publish_endpoint "rest" res.rest (base rest)
          ++ (publish_endpoint "rpc" res.rpc (base rpc)
              ++ publish_search res.tx_search res.tx_search_addresses);
    }

abbrev pub is_nil : List String → Bool
is_nil [] = true
is_nil (a ∷ as') = false

unfoldable pub resolve_endpoints :
    Servers → Option ChainApis → Clients → Time → Clients × Option ResolveError
resolve_endpoints q fetched c0 now =
    let (res, resolver) = resolve q fetched c0.resolver now in
    let c : Clients = record c0 { resolver = resolver } in
    if is_nil res.rest_addresses
    then (record c { query_success = Dict.insert "rest" 0 c.query_success }, some no_healthy_rest)
    else (if is_nil res.rpc_addresses
        then (record c { query_success = Dict.insert "rpc" 0 c.query_success }, some no_healthy_rpc)
        else (point_clients res c, none))

-- The endpoint that a client selects from a list: the one that it has, if that is still offered, or
-- else the first.
abbrev pub kept_or_first : Rotator → List String → String
kept_or_first r urls =
    if contains (clean urls) (base r) then base r else first_or_empty (clean urls)

-- What a resolve pass does to the clients.
abbrev pub Points : Resolution → Clients → Clients × Option ResolveError → Type 0
Points res c (c', some e) =
    (c'.rest ≡ c.rest)
    × (c'.rpc ≡ c.rpc)
    × (c'.redelegation ≡ c.redelegation)
    × (c'.managed_delegations ≡ c.managed_delegations)
    × (c'.endpoint_info ≡ c.endpoint_info)
    × ((res.rest_addresses ≡ []) ⊎ (res.rpc_addresses ≡ []))
Points res c (c', none) =
    (base c'.rest ≡ kept_or_first c.rest res.rest_addresses)
    × (base c'.rpc ≡ kept_or_first c.rpc res.rpc_addresses)
    × (res.rest_addresses ≢ [])
    × (res.rpc_addresses ≢ [])

-- If the pass finds no healthy REST or no healthy RPC endpoint, it fails and leaves every client and
-- the published endpoints as they were. Otherwise it succeeds, and each of the two clients keeps its
-- endpoint where that is still offered, and else selects the best ranked.
pub resolve_endpoints-Points :
    (q : Servers) (fetched : Option ChainApis) (c : Clients) (now : Time)
    → Points (resolve q fetched c.resolver now).0 c (resolve_endpoints q fetched c now)
unfolding resolve_endpoints point_clients
resolve_endpoints-Points q fetched c now =
    let res = (resolve q fetched c.resolver now).0 in
    elim (Bool-cases (is_nil res.rest_addresses)) [
      | inl e ↦ rw (e, resolve_endpoints) (refl, refl, refl, refl, refl, inl (ground arith))
      | inr e ↦ elim (Bool-cases (is_nil res.rpc_addresses)) [
        | inl g ↦ rw (e, g, resolve_endpoints) (refl, refl, refl, refl, refl, inr (ground arith))
        | inr g ↦
            rw (e, g, resolve_endpoints)
              (
                base-set c.rest res.rest_addresses,
                base-set c.rpc res.rpc_addresses,
                ground arith,
                ground arith,
              )
      ]
    ]
