-- ===== src/Governance/Aging.antt =====
-- What a proposal that counts as too old can have been.
use validator_health_collect.Base.{
  ℕ, ◌+◌, ◌≤◌, ◌≡◌, true, false, some, [], ◌∷◌, arith, leb, string_eq, nat_eq, if◌then◌else◌,
}
use validator_health_collect.Go.Time.{Time, zero_time, parse_time}
use validator_health_collect.Governance.Proposal.{
  Proposal, proposal_scan_floor, proposal_lifespan_margin, default_proposal_lifespan,
  submitted_before, earliest_of,
}
use validator_health_collect.Governance.Scan.{ended_since, too_old}

abbrev pub first_date : Proposal → Time
first_date p =
    earliest_of zero_time
      (p.submit_time ∷ p.deposit_end_time ∷ p.voting_start_time ∷ p.voting_end_time ∷ [])

abbrev pub lifespan_or_default : ℕ → ℕ
lifespan_or_default lifespan = if leb lifespan 0 then default_proposal_lifespan else lifespan

-- A proposal that counts as submitted before the scan floor, and whose vote ended at most a lifespan
-- and the margin after its first date, did not end at the cutoff or later.
pub too_old-ended :
    (p : Proposal) (cutoff : Time) (lifespan : ℕ) (end : Time)
    → too_old p (proposal_scan_floor cutoff lifespan) ≡ true
    → parse_time p.voting_end_time ≡ some end
    → end ≤ first_date p + lifespan_or_default lifespan + proposal_lifespan_margin
    → ended_since p cutoff ≡ false
unfolding too_old submitted_before proposal_scan_floor ended_since
too_old-ended p cutoff lifespan end old parsed bound = ground arith
