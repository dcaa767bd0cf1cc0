-- ===== src/Tests/Proposals.antt =====
-- The theorems on the proposal scan on a chain of three proposals, of which the second is gone from
-- the store. Listed newest first, it is served in two pages.
use validator_health_collect.Base.{
  ℕ, ◌+◌, ◌*◌, ◌≤◌, ◌<◌, ◌≡◌, refl, ◌⊎◌, inl, String, some, List, [], ◌∷◌, arith, ◌==◌, string_eq,
  nat_eq, if◌then◌else◌,
}
use validator_health_collect.Base.Results.{Result, ok, err}
use validator_health_collect.Go.Time.{Time, day, parse_time, year_le_one}
use validator_health_collect.Go.Number.{parse_uint}
use validator_health_collect.Client.Fetch.{FetchError, final_error, status_error}
use validator_health_collect.Governance.Proposal.{Proposal, submitted_before, earliest_of}
use validator_health_collect.Governance.Scan.{
  ProposalScan, new_scan, ended_since, too_old, missing, classify_proposal_read,
  classify_http_error, classify_status, add, classify, note_id,
}
use validator_health_collect.Governance.Walk.{
  Node, query_relevant_proposals, walk_from, probe_up, proposal_probe_misses,
}
use validator_health_collect.Governance.Listing.{Finds, query-Finds}
use validator_health_collect.Governance.Walking.{StopsAbove}
use validator_health_collect.Governance.Answering.{walk_ok}
use validator_health_collect.Governance.Newest.{probe_up-newest}
use validator_health_collect.Governance.Memory.{
  Memory, possibly_open, record_proposal_scan, Accounted, no_hidden_vote,
}

abbrev proposal : String → String → String → Proposal
proposal id status end = record {
  id = id;
  status = status;
  title = "Upgrade";
  submit_time = end;
  deposit_end_time = "";
  voting_start_time = "";
  voting_end_time = end;
  final_tally_result = record {
    yes_count = "";
    abstain_count = "";
    no_count = "";
    no_with_veto_count = "";
  };
}

abbrev third : Proposal
third = proposal "3" "PROPOSAL_STATUS_VOTING_PERIOD" "2026-08-17T00:00:00Z"

abbrev first : Proposal
first = proposal "1" "PROPOSAL_STATUS_DEPOSIT_PERIOD" "2026-08-01T00:00:00Z"

abbrev absent : FetchError
absent = final_error (status_error 404 (some 5))

abbrev serve_list : String → ℕ → Result FetchError (List Proposal × String)
serve_list key limit = if key == "" then ok (third ∷ [], "n") else ok (first ∷ [], "")

abbrev serve_one : ℕ → Result FetchError Proposal
serve_one id = if id == 1 then ok first else (if id == 3 then ok third else err absent)

abbrev node : Node
node = record { list_proposals = serve_list; query_proposal_number = serve_one }

-- 2026-08-10 and 2026-07-20
abbrev cutoff : Time
cutoff = 740205 * day

abbrev floor : Time
floor = 740184 * day

query-Finds_example :
    (s : ProposalScan) × (query_relevant_proposals node 3 cutoff (14 * day) 0 ≡ some (s, ok tt))
    × Finds cutoff (third ∷ first ∷ []) s
unfolding string_eq
query-Finds_example =
    query-Finds node 3 cutoff (14 * day) 0 (third ∷ []) ((first ∷ []) ∷ [])
      ("n", refl, refl, ("", refl, refl)) (omega arith) (λ h. ((refl, refl), tt), (λ h. tt, tt))

abbrev passed : Proposal
passed = proposal "1" "PROPOSAL_STATUS_PASSED" "2026-05-01T00:00:00Z"

abbrev walked : ProposalScan
walked = (walk_from node cutoff floor 3 5 new_scan).0

walks : walk_from node cutoff floor 3 5 new_scan ≡ (walked, ok tt)
unfolding walk_from add classify too_old submitted_before earliest_of year_le_one parse_time
    parse_uint ended_since classify_proposal_read classify_http_error classify_status nat_eq
    string_eq
walks = refl

walk_ok_example : (walk_from node cutoff floor 3 3 new_scan).1 ≡ ok tt
unfolding classify_proposal_read classify_http_error classify_status
walk_ok_example =
    walk_ok node cutoff floor 3 3 new_scan (λ id pos le. ground arith) (inl (omega arith))

probe_up-newest_example :
    (r : ℕ) × (probe_up node 20 (2 + 1) 2 0 ≡ some (ok r))
    × (2 ≤ r)
    × ((k : ℕ)
        → r < k
        → k ≤ r + proposal_probe_misses
        → classify_proposal_read (node.query_proposal_number k) ≡ missing)
unfolding classify_proposal_read classify_http_error classify_status
probe_up-newest_example =
    probe_up-newest node 3 20 2 (λ k above. ground arith) (λ k. ground arith) (omega arith)
      (omega arith)

abbrev memory : Memory
memory = record {
  highest_proposal_id = 2;
  proposal_memory = (3, first) ∷ [];
  gov_unreadable_proposals = 0;
}

abbrev scanned : ProposalScan
scanned = record new_scan { seen = third ∷ []; unreadable = 2 ∷ []; highest_id = 3 }

recorded :
    record_proposal_scan memory walked floor cutoff
    ≡ ((record_proposal_scan memory walked floor cutoff).0, ok tt)
unfolding walks record_proposal_scan possibly_open note_id
recorded = refl

no_hidden_vote_example :
    Accounted node walked
      (record_proposal_scan memory walked floor cutoff).0.proposal_memory
      cutoff
      2
    ⊎ StopsAbove node cutoff floor 3 2
no_hidden_vote_example =
    no_hidden_vote node cutoff floor cutoff 3 5 2 new_scan walked memory
      (record_proposal_scan memory walked floor cutoff).0 walks recorded (omega arith) (omega arith)
