-- ===== src/Endpoints/Requests.antt =====
-- The requests of endpoints/: `FetchChain` of registry.go and `getJSON` of probe.go with the paths that the
-- probes ask for. How a body is decoded is an argument; a body is what the size limit lets through.
use validator_health_collect.Base.{
  ℕ, String, ◌<>◌, Bool, Option, none, some, List, ◌==◌, nat_eq, if◌then◌else◌,
}
use validator_health_collect.Base.Results.{Result, ok, err, ◌>>=◌, or_fail}
use validator_health_collect.Go.Time.{Time}
use validator_health_collect.Endpoints.Registry.{RegistryApi, ChainApis, fetch_chain}
use validator_health_collect.Endpoints.Probe.{StatusSyncInfo, Servers}

-- A GET request that cannot be built, that fails, or that is answered with a status and a body, `none`
-- where the body cannot be read to its end.
pub data HttpAnswer : Type 0 where
  unbuilt unsent : HttpAnswer
  answered : ℕ → Option String → HttpAnswer

pub data RegistryError : Type 0 where
  bad_request fetch_failed unread unparsed : RegistryError
  bad_status : ℕ → RegistryError

-- `FetchChain`: the status is looked at before the body is read.
unfoldable pub fetch_registry :
    (String → Option (List RegistryApi × List RegistryApi))
    → HttpAnswer
    → Result RegistryError ChainApis
fetch_registry decode unbuilt = err bad_request
fetch_registry decode unsent = err fetch_failed
fetch_registry decode (answered status body) =
    if status == 200
    then (do
      text ← or_fail body unread
      lists ← or_fail (decode text) unparsed
      ok (fetch_chain lists.0 lists.1))
    else err (bad_status status)

-- `getJSON`: the body is read before the status is looked at. An error is `none`.
unfoldable pub get_json : {A : Type 0} → (String → Option A) → HttpAnswer → Option A
get_json decode unbuilt = none
get_json decode unsent = none
get_json decode (answered status none) = none
get_json decode (answered status (some text)) = if status == 200 then decode text else none

-- The decoders of the three probe responses: the bonded tokens, whether both arrays are there, and the
-- sync info.
pub record Decoders : Type 0 where
  pub pool : String → Option String
  pub tx_arrays : String → Option Bool
  pub status : String → Option StatusSyncInfo

-- `params.Encode()`, which sorts by the key
abbrev tx_query : String
tx_query =
    "limit=1&order_by=ORDER_BY_DESC&page=1&query=message.action%3D%27%2Fcosmos.staking.v1beta1.MsgBeginRedelegate%27"

-- The request of `ProbeREST`, that of `probeTxSearch` and that of `ProbeRPC`, over the answers by URL.
unfoldable pub get_pool : Decoders → (String → HttpAnswer) → String → Option String
get_pool d get address = get_json d.pool (get (address <> "/cosmos/staking/v1beta1/pool"))

unfoldable pub get_tx_arrays : Decoders → (String → HttpAnswer) → String → Option Bool
get_tx_arrays d get address =
    get_json d.tx_arrays (get (address <> "/cosmos/tx/v1beta1/txs?" <> tx_query))

unfoldable pub get_status : Decoders → (String → HttpAnswer) → String → Option StatusSyncInfo
get_status d get address = get_json d.status (get (address <> "/status"))

-- What the probes of one pass find.
unfoldable pub servers_of :
    Decoders → (String → HttpAnswer) → (String → ℕ) → (String → Time) → Servers
servers_of d get elapsed clock = record {
  pool = get_pool d get;
  tx_arrays = get_tx_arrays d get;
  status = get_status d get;
  elapsed = elapsed;
  clock = clock;
}
