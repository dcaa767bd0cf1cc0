-- ===== src/Redelegation/Found.antt =====
-- What a search for redelegations returns.
use validator_health_collect.Base.{
  ℕ, zero, suc, ◌+◌, ◌-◌, ◌*◌, ◌≤◌, ◌≡◌, sym, subst, inl, inr, false, List, [], ◌∷◌, arith, length,
  ◌==◌, string_eq, nat_eq, Bool-cases, Option-cases,
}
use validator_health_collect.Base.Dict
use validator_health_collect.Base.Dict.{
  Dict, NodupKeys, lookup-insert, insert-NodupKeys, lookup-nil,
}
use validator_health_collect.Base.Float.{Float64}
use validator_health_collect.Base.Results.{Result, ok, Result-cases, ok-injective}
use validator_health_collect.Go.Time.{Time, before, parse_time}
use validator_health_collect.Client.Fetch.{FetchError}
use validator_health_collect.Redelegation.Event.{RedelegationEvent, key, sorted_redelegation_events}
use validator_health_collect.Redelegation.Search.{
  TxSearchMessage, TxSearchResult, TxSearchResponse, parse_tx_search_total, Seen, Progress,
  PageOutcome, complete, continue, is_redelegation, event_of, add_messages, add_row, add_rows,
  after_rows, on_page, search_from, query_redelegations,
}
use validator_health_collect.Redelegation.Window.{IsWindow}

module _ {W : Type 0} ⦃f : Float64 W⦄ (since : Time) where
  IsWindow-insert :
      (e : RedelegationEvent W) (d : Seen W)
      → since ≤ e.timestamp
      → IsWindow since d
      → IsWindow since (Dict.insert (key e) e d)
  IsWindow-insert e d le w = record {
    once = insert-NodupKeys (key e) e d w.once;
    keyed = λ k x h. ground (arith, lookup-insert k (key e) e d, w.keyed k x);
    recent = λ k x h. ground (arith, lookup-insert k (key e) e d, w.recent k x);
  }

  timestamp-event_of :
      (r : TxSearchResult) (t : Time) (i : ℕ) (m : TxSearchMessage) (e : RedelegationEvent W)
      → event_of r t i m ≡ ok e
      → e.timestamp ≡ t
  unfolding event_of
  timestamp-event_of r t i m e h = ground arith

  add_messages-IsWindow :
      (r : TxSearchResult) (t : Time) (i : ℕ) (ms : List TxSearchMessage) (seen seen' : Seen W)
      → since ≤ t
      → IsWindow since seen
      → add_messages r t i ms seen ≡ ok seen'
      → IsWindow since seen'
  unfolding add_messages
  add_messages-IsWindow r t i [] seen seen' le w h = subst (IsWindow since) (ok-injective _ _ h) w
  add_messages-IsWindow r t i (m ∷ ms) seen seen' le w h = elim (Bool-cases (is_redelegation m)) [
    | inr skip ↦ add_messages-IsWindow r t (suc i) ms seen seen' le w (rw (skip, add_messages) at h)
    | inl take ↦ elim (Result-cases (event_of {W = W} r t i m)) [
      | inr (x, e) ↦ cc (rw (take, e, add_messages) at h)
      | inl (x, e) ↦
          add_messages-IsWindow r t (suc i) ms _ seen' le
            (IsWindow-insert x seen (ground (arith, timestamp-event_of r t i m x e)) w)
            (rw (take, e, add_messages) at h)
    ]
  ]

  add_row-IsWindow :
      (r : TxSearchResult) (ms : List TxSearchMessage) (s s' : Progress W)
      → IsWindow since s.seen
      → add_row since r ms s ≡ ok s'
      → IsWindow since s'.seen
  unfolding add_row
  add_row-IsWindow r ms s s' w h = elim (Option-cases (parse_time r.timestamp)) [
    | inl e ↦ ground (arith, e)
    | inr (t, e) ↦ elim (Bool-cases (before t since)) [
      | inl old ↦ subst (IsWindow since) (ground (arith, e, old)) w
      | inr new ↦ elim (Bool-cases (r.code == 0)) [
        | inr failed ↦ subst (IsWindow since) (ground (arith, e, new, failed)) w
        | inl succeeded ↦ elim (Result-cases (add_messages r t 0 ms s.seen)) [
          | inr (x, a) ↦ ground (arith, e, new, succeeded, a)
          | inl (seen, a) ↦
              subst (IsWindow since) (ground (arith, e, new, succeeded, a))
                (add_messages-IsWindow r t 0 ms s.seen seen (ground (arith, new)) w a)
        ]
      ]
    ]
  ]

  add_rows-IsWindow :
      (rs : List TxSearchResult) (txs : List (List TxSearchMessage)) (s s' : Progress W)
      → IsWindow since s.seen
      → add_rows since rs txs s ≡ ok s'
      → IsWindow since s'.seen
  unfolding add_rows
  add_rows-IsWindow [] txs s s' w h =
      subst (λ (x : Progress W). IsWindow since x.seen) (ok-injective _ _ h) w
  add_rows-IsWindow (r ∷ rs) [] s s' w h = cc h
  add_rows-IsWindow (r ∷ rs) (tx ∷ txs) s s' w h = elim (Result-cases (add_row since r tx s)) [
    | inr (x, e) ↦ cc (rw (e, add_rows) at h)
    | inl (s1, e) ↦
        add_rows-IsWindow rs txs s1 s' (add_row-IsWindow r tx s s1 w e) (rw (e, add_rows) at h)
  ]

  abbrev seen_of : PageOutcome W → Seen W
  seen_of (complete seen) = seen
  seen_of (continue s) = s.seen

  seen_of-after_rows :
      (rows_before count : ℕ) (s : Progress W) (total : ℕ) (o : PageOutcome W)
      → after_rows rows_before count s total ≡ ok o
      → seen_of o ≡ s.seen
  unfolding after_rows
  seen_of-after_rows rows_before count s total o h = ground arith

  on_page-IsWindow :
      (page : ℕ) (response : TxSearchResponse) (s : Progress W) (o : PageOutcome W)
      → IsWindow since s.seen
      → on_page since page response s ≡ ok o
      → IsWindow since (seen_of o)
  unfolding on_page
  on_page-IsWindow page response s o w h =
      let s0 : Progress W = record s { reached_cutoff = false } in
      elim (Result-cases (parse_tx_search_total response.total)) [
        | inr (x, e) ↦ ground (arith, e)
        | inl (total, e) ↦ elim (Bool-cases (length response.tx_responses == 0)) [
          | inl empty ↦ subst (IsWindow since) (ground (arith, e, empty)) w
          | inr rows ↦ elim (Result-cases (add_rows since response.tx_responses response.txs s0)) [
            | inr (x, a) ↦ ground (arith, e, rows, a)
            | inl (s1, a) ↦
                subst (IsWindow since)
                  (sym (
                    seen_of-after_rows ((page - 1) * 100) (length response.tx_responses) s1 total o
                      (ground (arith, e, rows, a))))
                  (add_rows-IsWindow response.tx_responses response.txs s0 s1 w a)
          ]
        ]
      ]

  module _ (search : ℕ → Result FetchError TxSearchResponse) where
    abbrev Sorts : List (RedelegationEvent W) → Type 0
    Sorts events = (d : Seen W) × IsWindow since d × (events ≡ sorted_redelegation_events d)

    search_from-Sorts :
        (left page : ℕ) (s : Progress W) (events : List (RedelegationEvent W))
        → IsWindow since s.seen
        → search_from search since left page s ≡ ok events
        → Sorts events
    unfolding search_from
    search_from-Sorts zero page s events w h = cc h
    search_from-Sorts (suc left) page s events w h = elim (Result-cases (search page)) [
      | inr (x, e) ↦ cc (rw (e, search_from) at h)
      | inl (response, e) ↦ elim (Result-cases (on_page since page response s)) [
        | inr (x, o) ↦ cc (rw (e, o, search_from) at h)
        | inl (complete seen, o) ↦ (
          seen,
          on_page-IsWindow page response s (complete seen) w o,
          sym (ok-injective _ _ (rw (e, o, search_from) at h)),
        )
        | inl (continue s', o) ↦
            search_from-Sorts left (page + 1) s' events
              (on_page-IsWindow page response s (continue s') w o) (rw (e, o, search_from) at h)
      ]
    ]

    -- A search that succeeds returns the values of a map in which each event stands once, under its own
    -- key, and none is before the time from which it searches, sorted by time and key.
    pub query_redelegations-IsWindow :
        (events : List (RedelegationEvent W))
        → query_redelegations search since ≡ ok events
        → (d : Seen W) × IsWindow since d × (events ≡ sorted_redelegation_events d)
    unfolding query_redelegations
    query_redelegations-IsWindow events h =
        search_from-Sorts _ 1 _ events
          (record {
            once = tt;
            keyed = λ k e n. cc (n, lookup-nil {V = RedelegationEvent W} k);
            recent = λ k e n. cc (n, lookup-nil {V = RedelegationEvent W} k);
          })
          h
