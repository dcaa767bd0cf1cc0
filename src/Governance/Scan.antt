-- ===== src/Governance/Scan.antt =====
-- `ProposalScan` of collector/proposal_scan.go, and its discovery by the proposal list. What the REST
-- endpoints answer during one scan is a function of the request.
use validator_health_collect.Base.{
  ℕ, Bool, true, false, not, ◌&&◌, ◌||◌, Option, none, some, List, [], ◌∷◌, ◌++◌, ltb, ◌==◌,
  string_eq, nat_eq, if◌then◌else◌,
}
use validator_health_collect.Base.Results.{Result, ok, err}
use validator_health_collect.Go.Number.{parse_uint}
use validator_health_collect.Go.Time.{Time, before, parse_time}
use validator_health_collect.Client.Fetch.{
  HttpError, transport, status_error, undecodable, FetchError, no_endpoint, final_error, exhausted,
}
use validator_health_collect.Governance.Proposal.{
  Proposal, status_voting_period, status_deposit_period, submitted_before,
}

pub record ProposalScan : Type 0 where
  pub active : List Proposal
  pub recent_closed : List Proposal
  pub seen : List Proposal
  pub unreadable : List ℕ
  pub highest_id : ℕ
  pub used_fallback : Bool
  pub lowest_id : ℕ

abbrev pub new_scan : ProposalScan
new_scan = record {
  active = [];
  recent_closed = [];
  seen = [];
  unreadable = [];
  highest_id = 0;
  used_fallback = false;
  lowest_id = 0;
}

-- The first step of `add`: the range of the IDs.
unfoldable pub note_id : ProposalScan → Option ℕ → ProposalScan
note_id s none = s
note_id s (some id) = record s {
  highest_id = if ltb s.highest_id id then id else s.highest_id;
  lowest_id = if s.lowest_id == 0 || ltb id s.lowest_id then id else s.lowest_id;
}

-- Whether the vote of a proposal ended at `cutoff` or later.
unfoldable pub ended_since : Proposal → Time → Bool
ended_since p cutoff = elim (parse_time p.voting_end_time) [
  | none ↦ false
  | some end ↦ not (before end cutoff)
]

-- The second step: the lists of open and recently closed proposals.
unfoldable pub classify : ProposalScan → Proposal → Time → ProposalScan
classify s p cutoff =
    if p.status == status_voting_period
    then record s { active = s.active ++ (p ∷ []) }
    else (if p.status == status_deposit_period
        then s
        else (if ended_since p cutoff
            then record s { recent_closed = s.recent_closed ++ (p ∷ []) }
            else s))

-- Whether a proposal was certainly submitted before the floor.
unfoldable pub too_old : Proposal → Time → Bool
too_old p floor = let (old, known) = submitted_before p floor in known && old

-- `add`: the scan, and whether it is done.
unfoldable pub add : ProposalScan → Proposal → Time → Time → ProposalScan × Bool
add s p cutoff floor =
    let s' = classify (note_id s (parse_uint p.id)) p cutoff in
    if too_old p floor then (s', true) else (record s' { seen = s'.seen ++ (p ∷ []) }, false)

-- One page of proposals, until the scan is done.
unfoldable pub add_page : ProposalScan → List Proposal → Time → Time → ProposalScan × Bool
add_page s [] cutoff floor = (s, false)
add_page s (p ∷ ps) cutoff floor =
    let (s', done) = add s p cutoff floor in
    elim done [ true ↦ (s', true) | false ↦ add_page s' ps cutoff floor ]

pub data ScanError : Type 0 where
  -- the list failed, and so did the search for the newest ID
  not_located : ScanError
  walk_limit : ScanError
  read_failed : ℕ → ScanError

-- The outcome of a read of one proposal.
pub data ReadOutcome : Type 0 where
  found missing unreadable read_failed : ReadOutcome

abbrev grpc_unknown : ℕ
grpc_unknown = 2

abbrev grpc_not_found : ℕ
grpc_not_found = 5

abbrev grpc_internal : ℕ
grpc_internal = 13

unfoldable pub classify_status : ℕ → Option ℕ → ReadOutcome
classify_status status none = ReadOutcome.read_failed
classify_status status (some code) =
    if code == grpc_not_found
    then missing
    else (if status == 500 && (code == grpc_internal || code == grpc_unknown)
        then ReadOutcome.unreadable
        else ReadOutcome.read_failed)

unfoldable pub classify_http_error : HttpError → ReadOutcome
classify_http_error transport = ReadOutcome.read_failed
classify_http_error (status_error status code) = classify_status status code
classify_http_error undecodable = ReadOutcome.read_failed

-- `classifyProposalRead`: `errors.As` looks through the error of a query that gave up.
unfoldable pub classify_proposal_read {ℓ} : {A : Type ℓ} → Result FetchError A → ReadOutcome
classify_proposal_read (ok a) = found
classify_proposal_read (err no_endpoint) = ReadOutcome.read_failed
classify_proposal_read (err (final_error e)) = classify_http_error e
classify_proposal_read (err (exhausted none)) = ReadOutcome.read_failed
classify_proposal_read (err (exhausted (some e))) = classify_http_error e
