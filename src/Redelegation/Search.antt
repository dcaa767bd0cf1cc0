-- ===== src/Redelegation/Search.antt =====
-- `QueryRedelegations` of collector/redelegation_query.go: the pages of the transaction search, newest
-- first, down to a time.
use validator_health_collect.Base.{
  ℕ, zero, suc, ◌+◌, ◌-◌, ◌*◌, String, Bool, true, false, not, ◌&&◌, ◌||◌, List, [], ◌∷◌, ◌==◌,
  nat_eq, string_eq, ltb, leb, length, if◌then◌else◌,
}
use validator_health_collect.Base.Dict
use validator_health_collect.Base.Dict.{Dict}
use validator_health_collect.Base.Float.{Float64}
use validator_health_collect.Base.Results.{Result, ok, err, ◌>>=◌, ◌>>◌, refuse, or_fail}
use validator_health_collect.Go.Text.{to_upper}
use validator_health_collect.Go.Number.{parse_uint, parse_nonneg}
use validator_health_collect.Go.Time.{Time, zero_time, is_zero, before, after, parse_time}
use validator_health_collect.Client.Fetch.{FetchError}
use validator_health_collect.Redelegation.Event.{RedelegationEvent, key, sorted_redelegation_events}

abbrev pub redelegation_page_limit : ℕ
redelegation_page_limit = 100

abbrev pub redelegation_max_pages : ℕ
redelegation_max_pages = 200

abbrev pub redelegation_type_url : String
redelegation_type_url = "/cosmos.staking.v1beta1.MsgBeginRedelegate"

pub record TxSearchMessage : Type 0 where
  pub type_url : String
  pub source_validator : String
  pub dest_validator : String
  pub denom : String
  pub amount : String

pub record TxSearchResult : Type 0 where
  pub tx_hash : String
  pub code : ℕ
  pub timestamp : String

-- `txs` holds the messages of each transaction.
pub record TxSearchResponse : Type 0 where
  pub txs : List (List TxSearchMessage)
  pub tx_responses : List TxSearchResult
  pub total : String

pub data SearchError : Type 0 where
  page_failed : FetchError → SearchError
  lengths_differ invalid_total empty_page invalid_timestamp not_descending missing_fields
        invalid_amount short_page page_bound :
      SearchError

unfoldable pub parse_tx_search_total : String → Result SearchError ℕ
parse_tx_search_total raw = if raw == "" then ok 0 else or_fail (parse_nonneg raw) invalid_total

abbrev pub Seen : Type 0 → Type 0
Seen W = Dict String (RedelegationEvent W)

-- The state of the loop over the rows: the events, the last timestamp, and whether a row is older
-- than `since`.
pub record Progress (W : Type 0) : Type 0 where
  pub seen : Seen W
  pub previous_timestamp : Time
  pub reached_cutoff : Bool

-- What follows a page: the events, or the next page.
pub data PageOutcome (W : Type 0) : Type 0 where
  complete : Seen W → PageOutcome W
  continue : Progress W → PageOutcome W

unfoldable pub is_redelegation : TxSearchMessage → Bool
is_redelegation m = not (not (m.type_url == redelegation_type_url) || not (m.denom == "uatom"))

module _ {W : Type 0} ⦃f : Float64 W⦄ where
  -- The event of a successful redelegation of uatom, at its index in its transaction.
  unfoldable pub event_of :
      TxSearchResult → Time → ℕ → TxSearchMessage → Result SearchError (RedelegationEvent W)
  event_of r timestamp index m = do
    refuse (r.tx_hash == "" || (m.source_validator == "" || m.dest_validator == "")) missing_fields
    amount ← or_fail (parse_uint m.amount) invalid_amount
    refuse (amount == 0) invalid_amount
    ok (record {
      tx_hash = to_upper r.tx_hash;
      message_index = index;
      timestamp = timestamp;
      source = m.source_validator;
      destination = m.dest_validator;
      amount_uatom = f.of_nat amount;
    })

  -- The messages of one transaction, from `index` on.
  unfoldable pub add_messages :
      TxSearchResult → Time → ℕ → List TxSearchMessage → Seen W → Result SearchError (Seen W)
  add_messages r timestamp index [] seen = ok seen
  add_messages r timestamp index (m ∷ ms) seen = elim (is_redelegation m) [
    | false ↦ add_messages r timestamp (suc index) ms seen
    | true ↦ do
      e ← event_of r timestamp index m
      add_messages r timestamp (suc index) ms (Dict.insert (key e) e seen)
  ]

  unfoldable pub add_row :
      Time → TxSearchResult → List TxSearchMessage → Progress W → Result SearchError (Progress W)
  add_row since r messages s = do
    timestamp ← or_fail (parse_time r.timestamp) invalid_timestamp
    refuse (not (is_zero s.previous_timestamp) && after timestamp s.previous_timestamp)
        not_descending
    elim (before timestamp since) [
      | true ↦ ok (record s { previous_timestamp = timestamp; reached_cutoff = true })
      | false ↦ elim (r.code == 0) [
        | false ↦ ok (record s { previous_timestamp = timestamp })
        | true ↦ do
          seen ← add_messages r timestamp 0 messages s.seen
          ok (record s { seen = seen; previous_timestamp = timestamp })
      ]
    ]

  -- Both lists of a page have the same length.
  unfoldable pub add_rows :
      Time
      → List TxSearchResult
      → List (List TxSearchMessage)
      → Progress W
      → Result SearchError (Progress W)
  add_rows since [] txs s = ok s
  add_rows since (r ∷ rs) [] s = err lengths_differ
  add_rows since (r ∷ rs) (tx ∷ txs) s = do s' ← add_row since r tx s; add_rows since rs txs s'

  unfoldable pub after_rows : ℕ → ℕ → Progress W → ℕ → Result SearchError (PageOutcome W)
  after_rows rows_before count s total =
      if s.reached_cutoff
      then ok (complete s.seen)
      else (if ltb 0 total && leb total (rows_before + count)
          then ok (complete s.seen)
          else (if ltb count redelegation_page_limit
              then (if ltb (rows_before + count) total
                  then err short_page
                  else ok (complete s.seen))
              else ok (continue s)))

  unfoldable pub on_page :
      Time → ℕ → TxSearchResponse → Progress W → Result SearchError (PageOutcome W)
  on_page since page response s = do
    refuse (not (length response.txs == length response.tx_responses)) lengths_differ
    total ← parse_tx_search_total response.total
    let rows_before = (page - 1) * redelegation_page_limit
    elim (length response.tx_responses == 0) [
      | true ↦ if ltb rows_before total then err empty_page else ok (complete s.seen)
      | false ↦ do
        s' ← add_rows since response.tx_responses response.txs (record s { reached_cutoff = false })
        after_rows rows_before (length response.tx_responses) s' total
    ]

  module _ (search : ℕ → Result FetchError TxSearchResponse) (since : Time) where
    -- The loop, with the pages left below the bound.
    unfoldable pub search_from :
        ℕ → ℕ → Progress W → Result SearchError (List (RedelegationEvent W))
    search_from zero page s = err page_bound
    search_from (suc left) page s = elim (search page) [
      | err e ↦ err (page_failed e)
      | ok response ↦ elim (on_page since page response s) [
        | err e ↦ err e
        | ok (complete seen) ↦ ok (sorted_redelegation_events seen)
        | ok (continue s') ↦ search_from left (page + 1) s'
      ]
    ]

    unfoldable pub query_redelegations : Result SearchError (List (RedelegationEvent W))
    query_redelegations =
        search_from redelegation_max_pages 1
          (record { seen = []; previous_timestamp = zero_time; reached_cutoff = false })
