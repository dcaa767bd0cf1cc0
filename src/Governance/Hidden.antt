-- ===== src/Governance/Hidden.antt =====
-- A proposal that was open when it was last decoded, and that a scan cannot decode any more.
use validator_health_collect.Base.{
  ℕ, ◌+◌, ◌-◌, ◌≤◌, ◌≡◌, refl, inl, inr, false, none, some, List, [], ◌∷◌, arith, Has, string_eq,
  nat_eq, Bool-cases,
}
use validator_health_collect.Base.Dict
use validator_health_collect.Base.Dict.{NodupKeys, delete_if-NodupKeys}
use validator_health_collect.Base.Results.{err}
use validator_health_collect.Go.Time.{Time, parse_time}
use validator_health_collect.Governance.Proposal.{
  Proposal, status_voting_period, proposal_scan_floor, proposal_lifespan_margin, proposal_closed_by,
}
use validator_health_collect.Governance.Scan.{ProposalScan, too_old, ended_since}
use validator_health_collect.Governance.Aging.{first_date, lifespan_or_default, too_old-ended}
use validator_health_collect.Governance.Memory.{
  Memory, forget, known_closed, possibly_open, verdict, record_proposal_scan, last_with, remember,
  remember-NodupKeys, record_proposal_scan-memory, possibly_open-eq-nil,
}

-- The collector remembers the proposal under this ID.
pub record Remembers (id : ℕ) (p : Proposal) (m : Memory) : Type 0 where
  pub known : Dict.lookup id m.proposal_memory ≡ some p
  pub keys : NodupKeys m.proposal_memory

-- Its vote was open, until a time that is within the lifespan of a proposal.
pub record Voting (p : Proposal) (end : Time) (lifespan : ℕ) : Type 0 where
  pub open_status : p.status ≡ status_voting_period
  pub ends : parse_time p.voting_end_time ≡ some end
  pub fits : end ≤ first_date p + lifespan_or_default lifespan + proposal_lifespan_margin

-- A scan that reports the ID as unreadable, and has not decoded it.
pub record Hides (id : ℕ) (scan : ProposalScan) : Type 0 where
  pub unread : Has id scan.unreadable
  pub undecoded : last_with id scan.seen ≡ none

verdict-ne-nil : (ids : List ℕ) → (ids ≡ [] → ⊥) → (x : List ℕ) × (verdict ids ≡ err x)
verdict-ne-nil [] h = absurd (h refl)
verdict-ne-nil (i ∷ ids) h = (i ∷ ids, refl)

module _ (id : ℕ) (p : Proposal) (end now : Time) (window lifespan : ℕ)
    (voting : Voting p end lifespan) (early : now ≤ end) where
  not_too_old : too_old p (proposal_scan_floor (now - window) lifespan) ≡ false
  unfolding ended_since
  not_too_old = elim (Bool-cases (too_old p (proposal_scan_floor (now - window) lifespan))) [
    | inr e ↦ e
    | inl e ↦
        let over = too_old-ended p (now - window) lifespan end e voting.ends voting.fits in
        ground (arith, over, voting.ends)
  ]

  not_closed : proposal_closed_by p now ≡ false
  unfolding proposal_closed_by
  not_closed = ground (arith, voting.open_status, voting.ends)

  -- Such a scan leaves the proposal in memory, and recording it is an error.
  pub record_proposal_scan-Hides :
      (m : Memory) (scan : ProposalScan)
      → Remembers id p m
      → Hides id scan
      → let (m', r) =
          record_proposal_scan m scan (proposal_scan_floor (now - window) lifespan) now in
        Remembers id p m' × ((ids : List ℕ) × (r ≡ err ids))
  unfolding record_proposal_scan forget known_closed
  record_proposal_scan-Hides m scan r h =
      let floor = proposal_scan_floor (now - window) lifespan in
      let d = forget floor (remember m.proposal_memory scan.seen) in
      let after = record_proposal_scan-memory m scan floor now id r.keys in
      let kept : Dict.lookup id d ≡ some p =
        ground (arith, after.0, r.known, h.undecoded, not_too_old) in
      let may_be_open : known_closed d now id ≡ false = ground (arith, kept, not_closed) in
      (
        record {
          known = kept;
          keys = delete_if-NodupKeys _ _ (remember-NodupKeys m.proposal_memory scan.seen r.keys);
        },
        verdict-ne-nil (possibly_open d now scan.unreadable)
            (λ e. cc (possibly_open-eq-nil d now id scan.unreadable e h.unread, may_be_open)),
      )
