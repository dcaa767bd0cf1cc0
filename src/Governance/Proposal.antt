-- ===== src/Governance/Proposal.antt =====
-- `Proposal` of collector/types.go, and the dates of collector/proposal_scan.go.
use validator_health_collect.Base.{
  ℕ, ◌+◌, ◌-◌, ◌*◌, String, Bool, true, false, not, ◌||◌, none, some, List, [], ◌∷◌, leb, ◌==◌,
  string_eq, nat_eq, if◌then◌else◌,
}
use validator_health_collect.Go.Time.{
  Time, day, zero_time, is_zero, before, parse_time, year_le_one,
}

abbrev pub status_voting_period : String
status_voting_period = "PROPOSAL_STATUS_VOTING_PERIOD"

abbrev pub status_deposit_period : String
status_deposit_period = "PROPOSAL_STATUS_DEPOSIT_PERIOD"

abbrev pub null_next_key : String
null_next_key = "null"

pub record TallyResult : Type 0 where
  pub yes_count : String
  pub abstain_count : String
  pub no_count : String
  pub no_with_veto_count : String

pub record Proposal : Type 0 where
  pub id : String
  pub status : String
  pub title : String
  pub submit_time : String
  pub deposit_end_time : String
  pub voting_start_time : String
  pub voting_end_time : String
  pub final_tally_result : TallyResult

abbrev pub default_proposal_lifespan : ℕ
default_proposal_lifespan = 60 * day

abbrev pub proposal_lifespan_margin : ℕ
proposal_lifespan_margin = 7 * day

-- A lifespan is never negative: `QueryGovParams` reports a sum of positive periods, or 0.
unfoldable pub proposal_scan_floor : Time → ℕ → Time
proposal_scan_floor cutoff lifespan =
    cutoff
    - ((if leb lifespan 0 then default_proposal_lifespan else lifespan) + proposal_lifespan_margin)

-- The earliest of the texts that are dates after the year 1, `earliest` being the zero time at first.
unfoldable pub earliest_of : Time → List String → Time
earliest_of earliest [] = earliest
earliest_of earliest (raw ∷ raws) =
    earliest_of
      (elim (parse_time raw) [
        | none ↦ earliest
        | some parsed ↦
            if year_le_one raw
            then earliest
            else (if is_zero earliest || before parsed earliest then parsed else earliest)
      ])
      raws

-- (before, ok)
unfoldable pub submitted_before : Proposal → Time → Bool × Bool
submitted_before p t =
    let earliest =
      earliest_of zero_time
        (p.submit_time ∷ p.deposit_end_time ∷ p.voting_start_time ∷ p.voting_end_time ∷ []) in
    if is_zero earliest then (false, false) else (before earliest t, true)

-- `proposalClosedBy` of collector/collector.go
unfoldable pub proposal_closed_by : Proposal → Time → Bool
proposal_closed_by p now =
    if p.status == status_deposit_period
    then false
    else (if p.status == status_voting_period
        then elim (parse_time p.voting_end_time) [ none ↦ false | some end ↦ before end now ]
        else not (p.status == ""))
