-- ===== src/Tests/Cycle.antt =====
-- The theorems on a resolve pass, the schedule and the paged queries.
use validator_health_collect.Base.{
  nat_eq, Bool, ℕ, ◌*◌, ◌≡◌, refl, String, false, none, some, List, [], ◌∷◌, ◌++◌, arith, string_eq,
  ◌==◌, if◌then◌else◌,
}
use validator_health_collect.Base.Dict
use validator_health_collect.Base.Dict.{Dict}
use validator_health_collect.Base.Results.{Result, ok}
use validator_health_collect.Go.Number.{parse_uint, parse_nonneg}
use validator_health_collect.Go.Time.{day}
use validator_health_collect.Client.Fetch.{FetchError}
use validator_health_collect.Client.Rotator.{empty}
use validator_health_collect.Endpoints.Resolver.{resolve}
use validator_health_collect.Collector.Resolving.{
  Clients, Points, resolve_endpoints, resolve_endpoints-Points,
}
use validator_health_collect.Queries.Consensus.{
  CometValidatorsResult, is_height, add_upper, query_consensus_set_at_height,
}
use validator_health_collect.Queries.Consensus.Members.{
  listed, query_consensus_set_at_height-listed,
}
use validator_health_collect.Go.Text.{to_upper}
use validator_health_collect.Queries.{collect_from, collect_from-Serves, parse_uatom}
use validator_health_collect.Queries.Delegations.{
  DelegationRow, ManagedDelegation, take_delegations, query_delegations,
}
use validator_health_collect.Tests.Values.{percents}
use validator_health_collect.Tests.Discovery.{servers, resolver}

abbrev pub clients : Clients
clients = record {
  rest = empty;
  rpc = empty;
  resolver = resolver;
  redelegation = none;
  redelegation_ready = false;
  managed_delegations = none;
  managed_delegation_ready = false;
  query_success = [];
  endpoint_info = [];
}

resolve_endpoints-Points_example :
    Points
      (resolve servers none resolver (740000 * day)).0
      clients
      (resolve_endpoints servers none clients (740000 * day))
resolve_endpoints-Points_example = resolve_endpoints-Points servers none clients (740000 * day)

abbrev get : String → Result FetchError (List DelegationRow × String)
get key =
    if key == ""
    then ok (record { validator_address = "v"; denom = "uatom"; amount = "5" } ∷ [], "n")
    else ok (record { validator_address = "w"; denom = "uatom"; amount = "0" } ∷ [], "")

abbrev held : List (ManagedDelegation ℕ)
held = record { operator_address = "v"; amount_uatom = 5 } ∷ []

collect_from-Serves_example :
    collect_from get take_delegations 2 "" [] ≡ some (ok ([] ++ (held ++ ([] ++ []))))
unfolding take_delegations parse_uatom parse_uint string_eq
collect_from-Serves_example =
    collect_from-Serves get take_delegations 2 "" [] held ([] ∷ [])
      (_, "n", refl, refl, refl, (_, "", refl, refl, refl)) (omega arith)

queried : query_delegations get 2 ≡ some (ok held)
unfolding query_delegations collect_from take_delegations parse_uatom parse_uint string_eq
queried = refl

-- Two validators on two pages.
abbrev page_of : String → CometValidatorsResult
page_of address = record { block_height = "12"; total = "2"; validators = address ∷ [] }

abbrev get_page : ℕ → Result FetchError CometValidatorsResult
get_page page = if page == 1 then ok (page_of "ab") else ok (page_of "CD")

query_consensus_set_at_height-listed_example :
    (set : Dict String Bool) × (query_consensus_set_at_height get_page 12 2 ≡ some (ok set))
    × (Dict.lookup_or false "AB" set ≡ listed "AB" (page_of "ab" ∷ page_of "CD" ∷ []))
unfolding parse_nonneg is_height add_upper to_upper nat_eq string_eq Dict.insert
query_consensus_set_at_height-listed_example =
    query_consensus_set_at_height-listed get_page 12 2 (page_of "ab" ∷ page_of "CD" ∷ []) "AB"
      ((2, refl, refl, refl, refl), (2, refl, refl, refl, refl)) (omega arith)
