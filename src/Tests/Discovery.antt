-- ===== src/Tests/Discovery.antt =====
-- The theorems on discovery, with two servers of which the second has no pool, and no registry.
use validator_health_collect.Base.{
  ◌*◌, ◌≡◌, refl, ◌↔◌, true, false, none, some, List, [], ◌∷◌, Has, ◌==◌, string_eq, if◌then◌else◌,
}
use validator_health_collect.Go.Time.{day}
use validator_health_collect.Endpoints.Registry.{Endpoint}
use validator_health_collect.Endpoints.Probe.{Servers, probe_rest_of}
use validator_health_collect.Endpoints.Resolver.{Resolver, candidates, resolve}
use validator_health_collect.Endpoints.Choice.{resolve-Has}

abbrev eps : List Endpoint
eps =
    record { provider = "a"; address = "https://a" }
    ∷ record { provider = "b"; address = "https://b" }
    ∷ []

abbrev pub servers : Servers
servers = record {
  pool = λ a. if a == "https://a" then some "100" else none;
  tx_arrays = λ a. some true;
  status = λ a. none;
  elapsed = λ a. 5;
  clock = λ a. 740000 * day;
}

abbrev pub resolver : Resolver
resolver = record {
  opts = record { rest_override = ""; rpc_override = "https://c" };
  cached_rest = eps;
  cached_rpc = eps;
  cached_at = 739000 * day;
  used_fallback = false;
}

resolve-Has_example :
    Has "https://a" (resolve servers none resolver (740000 * day)).0.rest_addresses ↔ (
      (ep : Endpoint) × Has ep (candidates none resolver (740000 * day)).0.rest
      × ((probe_rest_of servers ep).healthy ≡ true)
      × ("https://a" ≡ ep.address))
resolve-Has_example = resolve-Has servers none resolver (740000 * day) "https://a" refl
