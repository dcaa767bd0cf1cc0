-- ===== src/Endpoints/Resolver.antt =====
-- endpoints/resolver.go: the cached candidate lists, and one resolve pass.
use validator_health_collect.Base.{
  ℕ, ◌-◌, ◌*◌, String, Bool, true, false, not, ◌&&◌, Option, none, some, List, [], ◌∷◌, ltb, ◌==◌,
  string_eq, if◌then◌else◌,
}
use validator_health_collect.Go.Text.{trim_right_slash}
use validator_health_collect.Go.Time.{Time, hour}
use validator_health_collect.Endpoints.Registry.{Endpoint, ChainApis, fallback}
use validator_health_collect.Endpoints.Probe.{
  Candidate, Servers, new_candidate, addresses, tx_search_addresses, probe_rest, probe_tx_search,
  probe_rpc,
}

abbrev pub registry_ttl : ℕ
registry_ttl = 24 * hour

pub record Options : Type 0 where
  pub rest_override : String
  pub rpc_override : String

pub record Resolver : Type 0 where
  pub opts : Options
  pub cached_rest : List Endpoint
  pub cached_rpc : List Endpoint
  pub cached_at : Time
  pub used_fallback : Bool

pub record Resolution : Type 0 where
  pub rest : List Candidate
  pub rpc : List Candidate
  pub tx_search : List Candidate
  pub rest_addresses : List String
  pub rpc_addresses : List String
  pub tx_search_addresses : List String
  pub rest_from_override : Bool
  pub rpc_from_override : Bool

-- len(eps) > 0
abbrev pub some_of : List Endpoint → Bool
some_of [] = false
some_of (ep ∷ eps) = true

unfoldable pub have_cache : Resolver → Bool
have_cache r = some_of r.cached_rest && some_of r.cached_rpc

abbrev pub cached : Resolver → ChainApis
cached r = record { rest = r.cached_rest; rpc = r.cached_rpc }

-- Without a usable registry entry.
unfoldable pub keep_or_fall_back : Resolver → ChainApis × Resolver
keep_or_fall_back r =
    if have_cache r then (cached r, r) else (fallback, record r { used_fallback = true })

-- `fetched` is what `FetchChain` returns if it is called, `none` for an error.
unfoldable pub candidates : Option ChainApis → Resolver → Time → ChainApis × Resolver
candidates fetched r now =
    if have_cache r && ltb (now - r.cached_at) registry_ttl then (cached r, r) else elim fetched [
      | none ↦ keep_or_fall_back r
      | some apis ↦
          if some_of apis.rest && some_of apis.rpc
          then (
            apis,
            record r {
              cached_rest = apis.rest;
              cached_rpc = apis.rpc;
              cached_at = now;
              used_fallback = false;
            },
          )
          else keep_or_fall_back r
    ]

abbrev override_of : String → Endpoint
override_of address = record { provider = "override"; address = trim_right_slash address }

abbrev pinned : String → Candidate
pinned address = record (new_candidate (override_of address)) { healthy = true }

-- The REST candidates, and those for a transaction search.
unfoldable pub resolve_rest : Servers → Options → ChainApis → List Candidate × List Candidate
resolve_rest q opts apis =
    if opts.rest_override == ""
    then (probe_rest q apis.rest, probe_rest q apis.rest)
    else (pinned opts.rest_override ∷ [], probe_tx_search q (override_of opts.rest_override ∷ []))

unfoldable pub resolve_rpc : Servers → Options → ChainApis → List Candidate
resolve_rpc q opts apis =
    if opts.rpc_override == "" then probe_rpc q apis.rpc else pinned opts.rpc_override ∷ []

unfoldable pub resolve : Servers → Option ChainApis → Resolver → Time → Resolution × Resolver
resolve q fetched r now =
    let (apis, r') = candidates fetched r now in
    let (rest, search) = resolve_rest q r.opts apis in
    let rpc = resolve_rpc q r.opts apis in
    (
      record {
        rest = rest;
        rpc = rpc;
        tx_search = search;
        rest_addresses = addresses rest;
        rpc_addresses = addresses rpc;
        tx_search_addresses = tx_search_addresses search;
        rest_from_override = not (r.opts.rest_override == "");
        rpc_from_override = not (r.opts.rpc_override == "");
      },
      r',
    )
