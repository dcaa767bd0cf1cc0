-- ===== src/Tests/Searches.antt =====
-- The theorem on the search for redelegations, on one page with one event.
use validator_health_collect.Base.{ℕ, ◌*◌, ◌≡◌, refl, List, [], ◌∷◌, string_eq, nat_eq}
use validator_health_collect.Base.Results.{Result, ok, err}
use validator_health_collect.Go.Number.{parse_uint, parse_nonneg}
use validator_health_collect.Go.Time.{Time, day, parse_time}
use validator_health_collect.Client.Fetch.{FetchError}
use validator_health_collect.Redelegation.Event.{RedelegationEvent, sorted_redelegation_events}
use validator_health_collect.Redelegation.Search.{
  TxSearchResponse, SearchError, Seen, redelegation_type_url, parse_tx_search_total,
  is_redelegation, event_of, add_messages, add_row, add_rows, after_rows, on_page, search_from,
  query_redelegations,
}
use validator_health_collect.Redelegation.Window.{IsWindow}
use validator_health_collect.Redelegation.Found.{query_redelegations-IsWindow}
use validator_health_collect.Tests.Values.{percents}

abbrev page : ℕ → Result FetchError TxSearchResponse
page n = ok (record {
  txs =
      (record {
        type_url = redelegation_type_url;
        source_validator = "acme";
        dest_validator = "bolt";
        denom = "uatom";
        amount = "25";
      }
        ∷ [])
      ∷ [];
  tx_responses = record { tx_hash = "ab"; code = 0; timestamp = "2026-08-17T00:00:00Z" } ∷ [];
  total = "1";
})

abbrev since : Time
since = 740000 * day

abbrev found : Result SearchError (List (RedelegationEvent ℕ)) → List (RedelegationEvent ℕ)
found (ok es) = es
found (err e) = []

abbrev events : List (RedelegationEvent ℕ)
events = found (query_redelegations page since)

searched : query_redelegations {W = ℕ} page since ≡ ok events
unfolding query_redelegations search_from on_page add_rows add_row add_messages event_of after_rows
    is_redelegation parse_tx_search_total parse_time parse_uint parse_nonneg string_eq nat_eq
searched = refl

query_redelegations-IsWindow_example :
    (d : Seen ℕ) × IsWindow since d × (events ≡ sorted_redelegation_events d)
query_redelegations-IsWindow_example = query_redelegations-IsWindow since page events searched
