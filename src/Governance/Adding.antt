-- ===== src/Governance/Adding.antt =====
-- What `add` of a scan does with one more proposal.
use mathlib.Core.List.{append-nil}
use validator_health_collect.Base.{
  ℕ, ◌≡◌, refl, Bool, not, ◌&&◌, Option, none, some, List, [], ◌∷◌, ◌++◌, arith, ◌==◌, string_eq,
  nat_eq, if◌then◌else◌,
}
use validator_health_collect.Go.Number.{parse_uint}
use validator_health_collect.Go.Time.{Time}
use validator_health_collect.Governance.Proposal.{
  Proposal, status_voting_period, status_deposit_period,
}
use validator_health_collect.Governance.Scan.{
  ProposalScan, note_id, classify, ended_since, too_old, add,
}

abbrev pub is_open : Proposal → Bool
is_open p = p.status == status_voting_period

-- A proposal that is neither open nor before its vote, and whose vote ended at `cutoff` or later.
abbrev pub is_recent : Time → Proposal → Bool
is_recent cutoff p =
    not (p.status == status_voting_period)
    && (not (p.status == status_deposit_period) && ended_since p cutoff)

note_id-keeps :
    (s : ProposalScan) (o : Option ℕ)
    → ((note_id s o).active ≡ s.active)
      × ((note_id s o).recent_closed ≡ s.recent_closed)
      × ((note_id s o).seen ≡ s.seen)
      × ((note_id s o).unreadable ≡ s.unreadable)
unfolding note_id
note_id-keeps s none = (refl, refl, refl, refl)
note_id-keeps s (some id) = (refl, refl, refl, refl)

-- What one more proposal adds to a list that a test selects from.
abbrev pub one : Bool → Proposal → List Proposal
one b p = if b then p ∷ [] else []

-- How `s'` extends `s` by what it was told of `p`.
pub record Adds (cutoff floor : Time) (p : Proposal) (s s' : ProposalScan) : Type 0 where
  pub opened : s'.active ≡ s.active ++ one (is_open p) p
  pub closed : s'.recent_closed ≡ s.recent_closed ++ one (is_recent cutoff p) p
  pub kept : s'.seen ≡ s.seen ++ one (not (too_old p floor)) p
  pub unread : s'.unreadable ≡ s.unreadable

pub add-Adds :
    (cutoff floor : Time) (p : Proposal) (s : ProposalScan)
    → Adds cutoff floor p s (add s p cutoff floor).0
unfolding add classify
add-Adds cutoff floor p s = ground (
  arith,
  note_id-keeps s (parse_uint p.id),
  append-nil s.active,
  append-nil s.recent_closed,
  append-nil s.seen,
)

pub add_done :
    (cutoff floor : Time) (p : Proposal) (s : ProposalScan)
    → (add s p cutoff floor).1 ≡ too_old p floor
unfolding add
add_done cutoff floor p s = ground arith
