-- ===== src/Governance/Walk.antt =====
-- `QueryRelevantProposals` of collector/proposal_scan.go: the list, newest first, and the walk over
-- single proposals where a page of the list fails.
use validator_health_collect.Base.{
  ℕ, zero, suc, ◌+◌, ◌-◌, String, true, false, ◌||◌, Option, none, some, List, [], ◌∷◌, ◌++◌, ltb,
  ◌==◌, string_eq, nat_eq, if◌then◌else◌,
}
use validator_health_collect.Base.Results.{Result, ok, err}
use validator_health_collect.Go.Number.{parse_uint}
use validator_health_collect.Go.Time.{Time}
use validator_health_collect.Client.Fetch.{FetchError}
use validator_health_collect.Governance.Proposal.{Proposal, null_next_key, proposal_scan_floor}
use validator_health_collect.Governance.Scan.{
  ProposalScan, new_scan, add, add_page, ScanError, not_located, walk_limit, read_failed,
  ReadOutcome, found, missing, classify_proposal_read,
}

abbrev pub proposal_page_size : ℕ
proposal_page_size = 50

abbrev pub proposal_walk_limit : ℕ
proposal_walk_limit = 250

abbrev pub proposal_probe_misses : ℕ
proposal_probe_misses = 10

-- `listProposalsNewestFirst key limit` and `queryProposalNumber id` during one scan.
pub record Node : Type 0 where
  pub list_proposals : String → ℕ → Result FetchError (List Proposal × String)
  pub query_proposal_number : ℕ → Result FetchError Proposal

module _ (n : Node) where
  -- The loop upward from a known ID: the ID to probe, the last that was there, the misses in a row.
  -- `none` says that the fuel ran out.
  unfoldable pub probe_up : ℕ → ℕ → ℕ → ℕ → Option (Result ScanError ℕ)
  probe_up zero id top misses = none
  probe_up (suc fuel) id top misses = elim (ltb misses proposal_probe_misses) [
    | false ↦ some (ok top)
    | true ↦ elim (classify_proposal_read (n.query_proposal_number id)) [
      | found ↦ probe_up fuel (id + 1) id 0
      | missing ↦ probe_up fuel (id + 1) top (misses + 1)
      | ReadOutcome.unreadable ↦ probe_up fuel (id + 1) id 0
      | ReadOutcome.read_failed ↦ some (err (read_failed id))
    ]
  ]

  -- The ID of the newest proposal, if a list of one entry can be read.
  unfoldable pub newest_listed : Result FetchError (List Proposal × String) → Option ℕ
  newest_listed (err e) = none
  newest_listed (ok ([], key)) = none
  newest_listed (ok (p ∷ [], key)) = parse_uint p.id
  newest_listed (ok (p ∷ q ∷ ps, key)) = none

  unfoldable pub find_newest_proposal_id : ℕ → ℕ → Option (Result ScanError ℕ)
  find_newest_proposal_id fuel known_highest = elim (newest_listed (n.list_proposals "" 1)) [
    | some id ↦ some (ok id)
    | none ↦
        if known_highest == 0
        then some (err not_located)
        else probe_up fuel (known_highest + 1) known_highest 0
  ]

  module _ (cutoff floor : Time) where
    -- The loop of `walkProposals` from an ID down to 1, with the reads that it still may make. What
    -- it has found so far stands beside an error, too.
    unfoldable pub walk_from : ℕ → ℕ → ProposalScan → ProposalScan × Result ScanError (Unit {0})
    walk_from zero left scan = (scan, ok tt)
    walk_from (suc id) zero scan = (scan, err walk_limit)
    walk_from (suc id) (suc left) scan = elim (n.query_proposal_number (suc id)) [
      | ok p ↦
          let (scan', done) = add scan p cutoff floor in
          elim done [ true ↦ (scan', ok tt) | false ↦ walk_from id left scan' ]
      | err e ↦ elim (classify_proposal_read {A = Proposal} (err e)) [
        | found ↦ (scan, err (read_failed (suc id)))
        | missing ↦ walk_from id left scan
        | ReadOutcome.unreadable ↦
            walk_from id left (record scan { unreadable = scan.unreadable ++ (suc id ∷ []) })
        | ReadOutcome.read_failed ↦ (scan, err (read_failed (suc id)))
      ]
    ]

    abbrev raise_highest : ProposalScan → ℕ → ProposalScan
    raise_highest scan top = record scan {
      highest_id = if ltb scan.highest_id top then top else scan.highest_id;
    }

    unfoldable pub walk_proposals :
        ℕ → ℕ → ProposalScan → Option (ProposalScan × Result ScanError (Unit {0}))
    walk_proposals fuel known_highest scan0 =
        let scan = record scan0 { used_fallback = true } in
        if ltb 0 scan.lowest_id
        then some (walk_from (scan.lowest_id - 1) proposal_walk_limit scan)
        else elim (find_newest_proposal_id fuel known_highest) [
          | none ↦ none
          | some (err e) ↦ some (scan, err not_located)
          | some (ok top) ↦ some (walk_from top proposal_walk_limit (raise_highest scan top))
        ]

    -- The loop over the pages. The fuel serves the search for the newest ID as well.
    unfoldable pub list_from :
        ℕ → ℕ → String → ProposalScan → Option (ProposalScan × Result ScanError (Unit {0}))
    list_from zero known_highest key scan = none
    list_from (suc fuel) known_highest key scan = elim (n.list_proposals key proposal_page_size) [
      | err e ↦ walk_proposals (suc fuel) known_highest scan
      | ok (page, next) ↦
          let (scan', done) = add_page scan page cutoff floor in
          elim done [
            | true ↦ some (scan', ok tt)
            | false ↦ elim (next == "" || next == null_next_key) [
              | true ↦ some (scan', ok tt)
              | false ↦ list_from fuel known_highest next scan'
            ]
          ]
    ]

  unfoldable pub query_relevant_proposals :
      ℕ → Time → ℕ → ℕ → Option (ProposalScan × Result ScanError (Unit {0}))
  query_relevant_proposals fuel cutoff lifespan known_highest =
      list_from cutoff (proposal_scan_floor cutoff lifespan) fuel known_highest "" new_scan
