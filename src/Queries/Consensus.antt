-- ===== src/Queries/Consensus.antt =====
-- The queries of `RPCClient` in collector/queries.go: the consensus set, the signers of a commit, the
-- status and the block interval. Each response is a parameter, by the height or the page asked for.
pub mod Members
use validator_health_collect.Base.{
  ℕ, zero, suc, ◌+◌, ◌-◌, ◌^◌, String, Bool, true, false, not, ◌&&◌, ◌||◌, Option, none, some, List,
  [], ◌∷◌, ltb, leb, length, ◌==◌, string_eq, nat_eq, if◌then◌else◌,
}
use validator_health_collect.Base.Dict
use validator_health_collect.Base.Dict.{Dict}
use validator_health_collect.Base.Float.{Float64}
use validator_health_collect.Base.Results.{Result, ok, err, ◌>>=◌, refuse, or_fail}
use validator_health_collect.Go.Text.{to_upper}
use validator_health_collect.Go.Number.{parse_nonneg}
use validator_health_collect.Go.Time.{Time, parse_time}
use validator_health_collect.Go.Duration.{seconds}
use validator_health_collect.Client.Fetch.{FetchError}
use validator_health_collect.Queries.{
  QueryError, page_failed, invalid_height, wrong_height, invalid_total, invalid_time, invalid_range,
}

pub record CometValidatorsResult : Type 0 where
  pub block_height : String
  pub total : String
  pub validators : List String

pub record CometCommitSignature : Type 0 where
  pub block_id_flag : ℕ
  pub validator_address : String

pub record CometCommit : Type 0 where
  pub height : String
  pub signatures : List CometCommitSignature

pub record BlockHeader : Type 0 where
  pub height : String
  pub time : String

pub record CometStatus : Type 0 where
  pub network : String
  pub latest_block_height : String
  pub latest_block_time : String

pub record ChainStatus : Type 0 where
  pub chain_id : String
  pub height : ℕ
  pub block_time : Time

abbrev pub fetched : {A : Type 0} → Result FetchError A → Result QueryError A
fetched (ok a) = ok a
fetched (err e) = err (page_failed e)

-- strconv.ParseInt with the test `err != nil || h <= 0`
unfoldable pub parse_positive : String → Option ℕ
parse_positive raw = elim (parse_nonneg raw) [
  | none ↦ none
  | some n ↦ if n == 0 then none else some n
]

-- strconv.ParseInt with the test `err != nil || returned != height`
unfoldable pub is_height : ℕ → String → Bool
is_height height raw = elim (parse_nonneg raw) [ none ↦ false | some n ↦ n == height ]

-- The keys of the set are upper case.
unfoldable pub add_upper : List String → Dict String Bool → Dict String Bool
add_upper [] set = set
add_upper (a ∷ as') set = add_upper as' (Dict.insert (to_upper a) true set)

module _ (get : ℕ → Result FetchError CometValidatorsResult) (height : ℕ) where
  -- One page: the set with its validators, and whether it is the last. `get` is the request for a
  -- page at `height`; a height of 0 is not checked against the response.
  unfoldable pub on_validators : ℕ → Dict String Bool → Result QueryError (Dict String Bool × Bool)
  on_validators page set = do
    response ← fetched (get page)
    _ ← refuse (ltb 0 height && not (is_height height response.block_height)) wrong_height
    total ← or_fail (parse_nonneg response.total) invalid_total
    let set' = add_upper response.validators set
    ok (set', leb total (length set') || length response.validators == 0)

  unfoldable pub set_from : ℕ → ℕ → Dict String Bool → Option (Result QueryError (Dict String Bool))
  set_from zero page set = none
  set_from (suc fuel) page set = elim (on_validators page set) [
    | err e ↦ some (err e)
    | ok (set', last) ↦ elim last [ true ↦ some (ok set') | false ↦ set_from fuel (page + 1) set' ]
  ]

  -- `QueryConsensusSetAtHeight` of a height that is not negative
  unfoldable pub query_consensus_set_at_height : ℕ → Option (Result QueryError (Dict String Bool))
  query_consensus_set_at_height fuel = set_from fuel 1 []

unfoldable pub signers_of : List CometCommitSignature → Dict String Bool → Dict String Bool
signers_of [] signers = signers
signers_of (s ∷ ss) signers = signers_of ss (
    if not (s.block_id_flag == 2) || s.validator_address == ""
    then signers
    else Dict.insert (to_upper s.validator_address) true signers)

unfoldable pub query_commit_signers :
    (ℕ → Result FetchError CometCommit) → ℕ → Result QueryError (Dict String Bool)
query_commit_signers get height = do
  _ ← refuse (height == 0) invalid_height
  commit ← fetched (get height)
  _ ← refuse (not (is_height height commit.height)) wrong_height
  ok (signers_of commit.signatures [])

unfoldable pub query_comet_status : Result FetchError CometStatus → Result QueryError ChainStatus
query_comet_status get = do
  status ← fetched get
  height ← or_fail (parse_positive status.latest_block_height) invalid_height
  block_time ← or_fail (parse_time status.latest_block_time) invalid_time
  ok (record { chain_id = status.network; height = height; block_time = block_time })

-- The local function `fetch` of `MeasureBlockTime`; a height of 0 asks for the latest block.
unfoldable pub fetch_block : (ℕ → Result FetchError BlockHeader) → ℕ → Result QueryError (ℕ × Time)
fetch_block get height = do
  header ← fetched (get height)
  h ← or_fail (parse_positive header.height) invalid_height
  t ← or_fail (parse_time header.time) invalid_time
  ok (h, t)

-- The range of a duration, at which t.Sub(u) stops.
abbrev within_duration : ℕ → ℕ
within_duration d = if ltb d (2 ^ 63) then d else 2 ^ 63 - 1

module _ {W : Type 0} ⦃f : Float64 W⦄ where
  -- t.Sub(u).Seconds()
  unfoldable pub seconds_between : Time → Time → W
  seconds_between t u =
      if leb u t
      then seconds (within_duration (t - u))
      else f.sub (f.of_nat 0) (seconds (within_duration (u - t)))

  unfoldable pub measure_block_time : (ℕ → Result FetchError BlockHeader) → ℕ → Result QueryError W
  measure_block_time get sample = do
    (latest, t) ← fetch_block get 0
    _ ← refuse (sample == 0 || leb latest sample) invalid_range
    (old, u) ← fetch_block get (latest - sample)
    _ ← refuse (leb latest old) invalid_range
    ok (f.div (seconds_between t u) (f.of_nat (latest - old)))
