-- ===== src/Endpoints/Probe.antt =====
-- endpoints/probe.go: what a probe makes of an endpoint, and the ranking. The probes of one pass run
-- side by side and share nothing, so each is a function of its endpoint.
use validator_health_collect.Base.{
  ℕ, ◌+◌, ◌*◌, String, Bool, true, false, Option, none, some, List, [], ◌∷◌, map, ltb, ◌==◌,
  string_eq, nat_eq, if◌then◌else◌,
}
use validator_health_collect.Base.Sort.{sort_by}
use validator_health_collect.Go.Number.{Int64, nonneg, negative, parse_int_value}
use validator_health_collect.Go.Time.{Time, second, parse_time}
use validator_health_collect.Endpoints.Registry.{Endpoint}

abbrev pub max_block_lag : ℕ
max_block_lag = 120 * second

pub record StatusSyncInfo : Type 0 where
  pub latest_block_height : String
  pub latest_block_time : String
  pub earliest_block_height : String
  pub catching_up : Bool

-- The texts of `Err` and `TxSearchErr`.
pub data ProbeError : Type 0 where
  request_failed no_bonded_tokens no_tx_arrays catching_up bad_block_time behind no_height :
      ProbeError

pub record Candidate : Type 0 where
  pub endpoint : Endpoint
  pub healthy : Bool
  pub latency : ℕ
  pub latest_height : Int64
  pub earliest_height : Int64
  pub probe_error : Option ProbeError
  pub tx_search : Bool
  pub tx_search_error : Option ProbeError

abbrev pub new_candidate : Endpoint → Candidate
new_candidate ep = record {
  endpoint = ep;
  healthy = false;
  latency = 0;
  latest_height = nonneg 0;
  earliest_height = nonneg 0;
  probe_error = none;
  tx_search = false;
  tx_search_error = none;
}

-- What the servers answer to the probes of one pass, by address: the bonded tokens of the pool,
-- whether both arrays of a transaction search are there, and the sync info, `none` where the request
-- failed. The time that a probe takes, and the clock when it judges a block's time.
pub record Servers : Type 0 where
  pub pool : String → Option String
  pub tx_arrays : String → Option Bool
  pub status : String → Option StatusSyncInfo
  pub elapsed : String → ℕ
  pub clock : String → Time

unfoldable pub addresses : List Candidate → List String
addresses [] = []
addresses (c ∷ cs) =
    let rest = addresses cs in if c.healthy then c.endpoint.address ∷ rest else rest

unfoldable pub tx_search_addresses : List Candidate → List String
tx_search_addresses [] = []
tx_search_addresses (c ∷ cs) =
    let rest = tx_search_addresses cs in if c.tx_search then c.endpoint.address ∷ rest else rest

unfoldable pub lookup : List Candidate → String → Option Candidate
lookup [] address = none
lookup (c ∷ cs) address =
    let rest = lookup cs address in if c.endpoint.address == address then some c else rest

-- The order of two flags and two latencies: the flag that is set goes first, then the less latency.
abbrev pub ranks : Bool → Bool → ℕ → ℕ → Bool
ranks true true m n = ltb m n
ranks true false m n = true
ranks false true m n = false
ranks false false m n = ltb m n

unfoldable pub healthier : Candidate → Candidate → Bool
healthier a b = ranks a.healthy b.healthy a.latency b.latency

unfoldable pub searchable_first : Candidate → Candidate → Bool
searchable_first a b = ranks a.tx_search b.tx_search a.latency b.latency

module _ (q : Servers) where
  unfoldable pub probe_tx_search_of : Candidate → Candidate
  probe_tx_search_of c = elim (q.tx_arrays c.endpoint.address) [
    | none ↦ record c { tx_search_error = some request_failed }
    | some false ↦ record c { tx_search_error = some no_tx_arrays }
    | some true ↦ record c { tx_search = true }
  ]

  unfoldable pub probe_rest_of : Endpoint → Candidate
  probe_rest_of ep =
      let c = new_candidate ep in
      elim (q.pool ep.address) [
        | none ↦ record c { probe_error = some request_failed }
        | some tokens ↦
            if tokens == ""
            then record c { probe_error = some no_bonded_tokens }
            else probe_tx_search_of (record c { latency = q.elapsed ep.address; healthy = true })
      ]

  -- What stands in a status response decides; a latest height of 0 keeps the heights but not the health.
  unfoldable pub judge_status : Candidate → StatusSyncInfo → Candidate
  judge_status c si =
      let refused = λ (e : ProbeError). record c { probe_error = some e } in
      if si.catching_up then refused catching_up else elim (parse_time si.latest_block_time) [
        | none ↦ refused bad_block_time
        | some block_time ↦
            if ltb (block_time + max_block_lag) (q.clock c.endpoint.address)
            then refused behind
            else (let known = record c {
              latest_height = parse_int_value si.latest_block_height;
              earliest_height = parse_int_value si.earliest_block_height;
            } in
                elim (parse_int_value si.latest_block_height) [
                  | nonneg n ↦
                      if n == 0
                      then record known { probe_error = some no_height }
                      else record known { latency = q.elapsed c.endpoint.address; healthy = true }
                  | negative n ↦ record known {
                    latency = q.elapsed c.endpoint.address;
                    healthy = true;
                  }
                ])
      ]

  unfoldable pub probe_rpc_of : Endpoint → Candidate
  probe_rpc_of ep = elim (q.status ep.address) [
    | none ↦ record (new_candidate ep) { probe_error = some request_failed }
    | some si ↦ judge_status (new_candidate ep) si
  ]

  unfoldable pub probe_rest : List Endpoint → List Candidate
  probe_rest eps = sort_by healthier (map probe_rest_of eps)

  unfoldable pub probe_tx_search : List Endpoint → List Candidate
  probe_tx_search eps = sort_by searchable_first (
      map (λ ep. record (probe_tx_search_of (new_candidate ep)) { latency = q.elapsed ep.address })
        eps)

  unfoldable pub probe_rpc : List Endpoint → List Candidate
  probe_rpc eps = sort_by healthier (map probe_rpc_of eps)
