-- ===== src/Collector/Loops/Played.antt =====
-- The single writes of a resolve pass add up to `resolve_endpoints`.
use validator_health_collect.Base.{
  ℕ, ◌∷◌, ◌≡◌, refl, inl, inr, Option, none, some, String, List, [], Bool-cases, string_eq,
}
use mathlib.Core.List.{append_assoc}
use validator_health_collect.Base.Trace.{play}
use validator_health_collect.Go.Time.{Time}
use validator_health_collect.Client.Rotator.{base, set}
use validator_health_collect.Endpoints.Registry.{ChainApis}
use validator_health_collect.Endpoints.Probe.{Servers}
use validator_health_collect.Endpoints.Resolver.{Resolution, resolve}
use validator_health_collect.Collector.Resolving.{
  Pair, Clients, is_set, is_nil, set_pair, publish_endpoint, publish_search, point_clients,
  resolve_endpoints,
}
use validator_health_collect.Collector.Loops.{
  set_first, set_second, client_writes, redelegation_writes, managed_writes, info_writes,
  point_writes, resolve_writes, Write, Loop, Reach, write,
}

set_second-set_first :
    (us vs : List String) (o : Option Pair) → set_second vs (set_first us o) ≡ set_pair us vs o
unfolding set_second set_first set_pair
set_second-set_first us vs none = refl
set_second-set_first us vs (some p) = refl

is_set-set_pair : (us vs : List String) (o : Option Pair) → is_set (set_pair us vs o) ≡ is_set o
unfolding set_pair
is_set-set_pair us vs none = refl
is_set-set_pair us vs (some p) = refl

play-point_writes :
    (res : Resolution) (c : Clients) → play (point_writes res) c ≡ point_clients res c
unfolding point_writes client_writes redelegation_writes managed_writes info_writes point_clients
play-point_writes res c =
    let rest = res.rest_addresses in
    rw
      (
        set_second-set_first rest res.tx_search_addresses c.redelegation,
        set_second-set_first rest res.rpc_addresses c.managed_delegations,
        is_set-set_pair rest res.tx_search_addresses c.redelegation,
        is_set-set_pair rest res.rpc_addresses c.managed_delegations,
        append_assoc (publish_endpoint "rest" res.rest (base (set c.rest rest)))
            (publish_endpoint "rpc" res.rpc (base (set c.rpc res.rpc_addresses)))
            (publish_search res.tx_search res.tx_search_addresses),
      )
      refl

-- All of its writes, one after another, make of the clients what the pass as a whole does.
play-resolve_writes :
    (q : Servers) (fetched : Option ChainApis) (c : Clients) (now : Time)
    → play
        (resolve_writes (resolve q fetched c.resolver now).0)
        (record c { resolver = (resolve q fetched c.resolver now).1 })
      ≡ (resolve_endpoints q fetched c now).0
unfolding resolve_writes resolve_endpoints
play-resolve_writes q fetched c now =
    let res = (resolve q fetched c.resolver now).0 in
    elim (Bool-cases (is_nil res.rest_addresses)) [
      | inl e ↦ rw (e, resolve_writes, resolve_endpoints) refl
      | inr e ↦ elim (Bool-cases (is_nil res.rpc_addresses)) [
        | inl g ↦ rw (e, g, resolve_writes, resolve_endpoints) refl
        | inr g ↦
            rw (e, g, resolve_writes, resolve_endpoints)
              (play-point_writes res (record c { resolver = (resolve q fetched c.resolver now).1 }))
      ]
    ]

-- The resolve pass of a reachable state can be carried to its end.
pub Reach-play :
    (c0 c : Clients) (redelegation_interval managed_interval accounts : ℕ) (ws : List Write)
    (x y : Loop)
    → Reach c0 redelegation_interval managed_interval accounts c ws x y
    → Reach c0 redelegation_interval managed_interval accounts (play ws c) [] x y
Reach-play c0 c ri mi n [] x y h = h
Reach-play c0 c ri mi n (w ∷ ws) x y h = Reach-play c0 (w c) ri mi n ws x y (write h)
