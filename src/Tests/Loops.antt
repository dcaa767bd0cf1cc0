-- ===== src/Tests/Loops.antt =====
-- The scan loops after one resolve pass: the one of the managed delegations has begun to scan.
use validator_health_collect.Base.{◌*◌, ◌≡◌, refl, sym, subst, true, none, [], string_eq}
use validator_health_collect.Base.Trace.{play}
use validator_health_collect.Go.Time.{Time, day}
use validator_health_collect.Endpoints.Resolver.{Resolver, resolve}
use validator_health_collect.Collector.Resolving.{Clients}
use validator_health_collect.Collector.New.{new_clients}
use validator_health_collect.Collector.Loops.{
  resolve_writes, waiting, scanning, Scan, first, Reach, start, resolved, managed_scan,
}
use validator_health_collect.Collector.Loops.Played.{Reach-play}
use validator_health_collect.Collector.Loops.Served.{IsServed, scan-IsServed}
use validator_health_collect.Tests.Discovery.{servers, resolver}

abbrev now : Time
now = 740000 * day

-- https://d is pinned for REST and https://c for RPC.
abbrev both_pinned : Resolver
both_pinned = record resolver {
  opts = record { rest_override = "https://d"; rpc_override = "https://c" };
}

abbrev pointed_clients : Clients
pointed_clients =
    play (resolve_writes (resolve servers none both_pinned now).0)
      (record (new_clients both_pinned) { resolver = (resolve servers none both_pinned now).1 })

closed : pointed_clients.managed_delegation_ready ≡ true
unfolding resolve_writes resolve new_clients validator_health_collect.Endpoints.Probe.addresses
    validator_health_collect.Endpoints.Resolver.resolve_rest string_eq
    validator_health_collect.Endpoints.Resolver.resolve_rpc
    validator_health_collect.Collector.Loops.point_writes
    validator_health_collect.Collector.Loops.client_writes
    validator_health_collect.Collector.Loops.redelegation_writes
    validator_health_collect.Collector.Loops.managed_writes
    validator_health_collect.Collector.Loops.info_writes
    validator_health_collect.Collector.Loops.set_second
    validator_health_collect.Collector.Loops.set_first
closed = refl

scanned : Reach (new_clients both_pinned) 1 1 1 pointed_clients [] waiting (scanning now)
unfolding new_clients validator_health_collect.Collector.Loops.run_redelegation
    validator_health_collect.Collector.Loops.run_managed_delegations
scanned =
    managed_scan
      (Reach-play (new_clients both_pinned) _ 1 1 1
        (resolve_writes (resolve servers none both_pinned now).0) waiting waiting
        (resolved servers none now start))
      (subst (λ ready. Scan ready waiting (scanning now)) (sym closed) (first now))

scan-IsServed_example :
    IsServed (λ res. res.tx_search_addresses) waiting pointed_clients.redelegation
    × IsServed (λ res. res.rpc_addresses) (scanning now) pointed_clients.managed_delegations
scan-IsServed_example =
    scan-IsServed both_pinned 1 1 1 pointed_clients [] waiting (scanning now) scanned
