-- ===== src/Collector/Loops.antt =====
-- `RunRedelegation` of collector/collector.go and `RunManagedDelegations` of collector/managed_delegation.go: the scan loops, which wait
-- until a resolve pass closes their channel, beside the cycles, whose resolve pass goes write by write.
-- Left out are the calls of `advance` by the queries, which change what a client selects among its
-- candidates, and the writes to the gauge of the query success that follow the pass.
pub mod Played
pub mod Ready
pub mod Served
use validator_health_collect.Base.{
  ℕ, ◌≤◌, ◌≡◌, refl, Bool, true, false, ◌&&◌, Option, none, some, String, List, [], ◌∷◌, ◌++◌, ltb,
  if◌then◌else◌, ◌==◌, string_eq,
}
use validator_health_collect.Base.Dict
use validator_health_collect.Go.Time.{Time}
use validator_health_collect.Client.Rotator.{base, set}
use validator_health_collect.Endpoints.Registry.{ChainApis}
use validator_health_collect.Endpoints.Probe.{Servers}
use validator_health_collect.Endpoints.Resolver.{Resolution, resolve}
use validator_health_collect.Collector.Resolving.{
  Pair, Clients, is_set, is_nil, publish_endpoint, publish_search,
}

unfoldable pub set_first : List String → Option Pair → Option Pair
set_first us none = none
set_first us (some p) = some (record p { first = set p.first us })

unfoldable pub set_second : List String → Option Pair → Option Pair
set_second us none = none
set_second us (some p) = some (record p { second = set p.second us })

abbrev pub Write : Type 0
Write = Clients → Clients

unfoldable pub client_writes : Resolution → List Write
client_writes res =
    (λ c. record c { rest = set c.rest res.rest_addresses })
    ∷ (λ c. record c { rpc = set c.rpc res.rpc_addresses })
    ∷ []

-- A scanner that is not configured has no writes, which is the same as writes that change nothing. A
-- channel that is closed stays closed.
unfoldable pub redelegation_writes : Resolution → List Write
redelegation_writes res =
    (λ c. record c { redelegation = set_first res.rest_addresses c.redelegation })
    ∷ (λ c. record c { redelegation = set_second res.tx_search_addresses c.redelegation })
    ∷ (λ c. record c {
      redelegation_ready = if is_set c.redelegation then true else c.redelegation_ready;
    })
    ∷ []

unfoldable pub managed_writes : Resolution → List Write
managed_writes res =
    (λ c. record c { managed_delegations = set_first res.rest_addresses c.managed_delegations })
    ∷ (λ c. record c { managed_delegations = set_second res.rpc_addresses c.managed_delegations })
    ∷ (λ c. record c {
      managed_delegation_ready =
          if is_set c.managed_delegations then true else c.managed_delegation_ready;
    })
    ∷ []

unfoldable pub info_writes : Resolution → List Write
info_writes res =
    (λ c. record c { endpoint_info = [] })
    ∷ (λ c. record c {
      endpoint_info = c.endpoint_info ++ publish_endpoint "rest" res.rest (base c.rest);
    })
    ∷ (λ c. record c {
      endpoint_info = c.endpoint_info ++ publish_endpoint "rpc" res.rpc (base c.rpc);
    })
    ∷ (λ c. record c {
      endpoint_info = c.endpoint_info ++ publish_search res.tx_search res.tx_search_addresses;
    })
    ∷ []

unfoldable pub point_writes : Resolution → List Write
point_writes res =
    client_writes res ++ (redelegation_writes res ++ (managed_writes res ++ info_writes res))

-- What a resolve pass writes once it has its resolution.
unfoldable pub resolve_writes : Resolution → List Write
resolve_writes res =
    if is_nil res.rest_addresses
    then (λ c. record c { query_success = Dict.insert "rest" 0 c.query_success }) ∷ []
    else (if is_nil res.rpc_addresses
        then (λ c. record c { query_success = Dict.insert "rpc" 0 c.query_success }) ∷ []
        else point_writes res)

-- A scan loop that has returned, that waits for its channel, or whose last scan began at a time.
pub data Loop : Type 0 where
  returned waiting : Loop
  scanning : Time → Loop

unfoldable pub run_redelegation : Option Pair → ℕ → Loop
run_redelegation scanner interval = if is_set scanner && ltb 0 interval then waiting else returned

unfoldable pub run_managed_delegations : Option Pair → ℕ → ℕ → Loop
run_managed_delegations scanner interval accounts =
    if is_set scanner && (ltb 0 interval && ltb 0 accounts) then waiting else returned

-- The first scan starts once the channel is closed, each further one when the ticker fires.
pub data Scan : Bool → Loop → Loop → Type 0 where
  first : (now : Time) → Scan true waiting (scanning now)
  tick : {ready : Bool} (t now : Time) → t ≤ now → Scan ready (scanning t) (scanning now)

-- The clients, the writes that the resolve pass of the cycle has left, and the two loops.
pub data Reach (c0 : Clients) (redelegation_interval managed_interval accounts : ℕ)
    : Clients → List Write → Loop → Loop → Type 0 where
  start :
      Reach c0 redelegation_interval managed_interval accounts c0 []
        (run_redelegation c0.redelegation redelegation_interval)
        (run_managed_delegations c0.managed_delegations managed_interval accounts)
  resolved :
      {c : Clients} {x y : Loop} (q : Servers) (fetched : Option ChainApis) (now : Time)
      → Reach c0 redelegation_interval managed_interval accounts c [] x y
      → Reach c0 redelegation_interval managed_interval accounts
          (record c { resolver = (resolve q fetched c.resolver now).1 })
          (resolve_writes (resolve q fetched c.resolver now).0)
          x
          y
  write :
      {c : Clients} {w : Write} {ws : List Write} {x y : Loop}
      → Reach c0 redelegation_interval managed_interval accounts c (w ∷ ws) x y
      → Reach c0 redelegation_interval managed_interval accounts (w c) ws x y
  redelegation_scan :
      {c : Clients} {ws : List Write} {x x' y : Loop}
      → Reach c0 redelegation_interval managed_interval accounts c ws x y
      → Scan c.redelegation_ready x x'
      → Reach c0 redelegation_interval managed_interval accounts c ws x' y
  managed_scan :
      {c : Clients} {ws : List Write} {x y y' : Loop}
      → Reach c0 redelegation_interval managed_interval accounts c ws x y
      → Scan c.managed_delegation_ready y y'
      → Reach c0 redelegation_interval managed_interval accounts c ws x y'
