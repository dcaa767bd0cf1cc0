-- ===== src/Governance/Memory.antt =====
-- `recordProposalScan` of collector/collector.go: what the collector remembers of the proposals of
-- earlier cycles, and which unreadable proposals may be open.
use validator_health_collect.Base.{
  ℕ, ◌≤◌, ◌<◌, ◌≡◌, refl, ap, ◌⊎◌, inl, inr, Bool, true, false, not, Option, none, some, List, [],
  ◌∷◌, arith, ltb, length, select, Has, ◌==◌, nat_eq, Option-cases, if◌then◌else◌,
}
use validator_health_collect.Base.Dict
use validator_health_collect.Base.Dict.{
  Dict, NodupKeys, lookup-insert, insert-NodupKeys, lookup-delete_if,
}
use validator_health_collect.Base.Results.{Result, ok, err}
use validator_health_collect.Go.Number.{parse_uint}
use validator_health_collect.Go.Time.{Time}
use validator_health_collect.Governance.Proposal.{Proposal, proposal_closed_by}
use validator_health_collect.Governance.Scan.{
  ProposalScan, missing, classify_proposal_read, too_old,
}
use validator_health_collect.Governance.Walk.{Node, walk_from}
use validator_health_collect.Governance.Adding.{is_open}
use validator_health_collect.Governance.Walking.{StopsAbove, walk-Covered}

-- The collector's fields that outlive a cycle, and the gauge of unreadable proposals.
pub record Memory : Type 0 where
  pub highest_proposal_id : ℕ
  pub proposal_memory : Dict ℕ Proposal
  pub gov_unreadable_proposals : ℕ

unfoldable pub remember : Dict ℕ Proposal → List Proposal → Dict ℕ Proposal
remember d [] = d
remember d (p ∷ ps) =
    remember (elim (parse_uint p.id) [ none ↦ d | some id ↦ Dict.insert id p d ]) ps

unfoldable pub forget : Time → Dict ℕ Proposal → Dict ℕ Proposal
forget floor = Dict.delete_if (λ id p. too_old p floor)

unfoldable pub known_closed : Dict ℕ Proposal → Time → ℕ → Bool
known_closed d now id = elim (Dict.lookup id d) [ none ↦ false | some p ↦ proposal_closed_by p now ]

unfoldable pub possibly_open : Dict ℕ Proposal → Time → List ℕ → List ℕ
possibly_open d now = select (λ id. not (known_closed d now id))

-- The error lists the proposals that may be open.
abbrev pub verdict : List ℕ → Result (List ℕ) (Unit {0})
verdict [] = ok tt
verdict (id ∷ ids) = err (id ∷ ids)

unfoldable pub record_proposal_scan :
    Memory → ProposalScan → Time → Time → Memory × Result (List ℕ) (Unit {0})
record_proposal_scan m scan floor now =
    let d = forget floor (remember m.proposal_memory scan.seen) in
    (
      record {
        highest_proposal_id =
            if ltb m.highest_proposal_id scan.highest_id
            then scan.highest_id
            else m.highest_proposal_id;
        proposal_memory = d;
        gov_unreadable_proposals = length scan.unreadable;
      },
      verdict (possibly_open d now scan.unreadable),
    )

-- The last of the proposals that has this ID.
abbrev pub last_with : ℕ → List Proposal → Option Proposal
last_with id [] = none
last_with id (p ∷ ps) = elim (last_with id ps) [
  | some q ↦ some q
  | none ↦ elim (parse_uint p.id) [ none ↦ none | some j ↦ if id == j then some p else none ]
]

abbrev pub newest : Option Proposal → Option Proposal → Option Proposal
newest none old = old
newest (some p) old = some p

abbrev pub unless_old : Time → Option Proposal → Option Proposal
unless_old floor none = none
unless_old floor (some p) = if too_old p floor then none else some p

pub remember-NodupKeys :
    (d : Dict ℕ Proposal) (ps : List Proposal) → NodupKeys d → NodupKeys (remember d ps)
unfolding remember
remember-NodupKeys d [] u = u
remember-NodupKeys d (p ∷ ps) u = elim (Option-cases (parse_uint p.id)) [
  | inl e ↦ rw (e, remember) (remember-NodupKeys d ps u)
  | inr (id, e) ↦
      rw (e, remember) (remember-NodupKeys (Dict.insert id p d) ps (insert-NodupKeys id p d u))
]

lookup-remember :
    (id : ℕ) (d : Dict ℕ Proposal) (ps : List Proposal)
    → Dict.lookup id (remember d ps) ≡ newest (last_with id ps) (Dict.lookup id d)
unfolding remember
lookup-remember id d [] = refl
lookup-remember id d (p ∷ ps) = elim (Option-cases (parse_uint p.id)) [
  | inl e ↦ ground (arith, e, lookup-remember id d ps)
  | inr (j, e) ↦
      ground (arith, e, lookup-remember id (Dict.insert j p d) ps, lookup-insert id j p d)
]

-- After a scan the collector remembers, for each ID, what this scan decoded last, or else what it
-- remembered before, in both cases only if that was not submitted before the floor. Its highest
-- ID is the greater of the old one and the scan's, and the gauge counts the unreadable proposals.
pub record_proposal_scan-memory :
    (m : Memory) (scan : ProposalScan) (floor now : Time) (id : ℕ)
    → NodupKeys m.proposal_memory
    → let m' = (record_proposal_scan m scan floor now).0 in
      (Dict.lookup id m'.proposal_memory
        ≡ unless_old floor (newest (last_with id scan.seen) (Dict.lookup id m.proposal_memory)))
      × (m.highest_proposal_id ≤ m'.highest_proposal_id)
      × (scan.highest_id ≤ m'.highest_proposal_id)
      × (m'.gov_unreadable_proposals ≡ length scan.unreadable)
unfolding record_proposal_scan forget
record_proposal_scan-memory m scan floor now id u =
    let d = remember m.proposal_memory scan.seen in
    (
      ground (
        arith,
        lookup-remember id m.proposal_memory scan.seen,
        lookup-delete_if (λ id p. too_old p floor) id d
            (remember-NodupKeys m.proposal_memory scan.seen u),
      ),
      ground arith,
      ground arith,
      refl,
    )

pub verdict-ok : (ids : List ℕ) → verdict ids ≡ ok tt → ids ≡ []
verdict-ok [] e = refl
verdict-ok (id ∷ ids) e = cc

pub possibly_open-eq-nil :
    (d : Dict ℕ Proposal) (now : Time) (id : ℕ) (ids : List ℕ)
    → possibly_open d now ids ≡ []
    → Has id ids
    → known_closed d now id ≡ true
unfolding possibly_open
possibly_open-eq-nil d now id [] e h = elim h [ ]
possibly_open-eq-nil d now id (x ∷ xs) e (inl same) = rw same (ground arith)
possibly_open-eq-nil d now id (x ∷ xs) e (inr h) = possibly_open-eq-nil d now id xs (ground arith) h

-- What is known of an ID after a scan: it is missing, or it was read and is reported as active if it
-- is open, or it is remembered as closed.
abbrev pub Accounted : Node → ProposalScan → Dict ℕ Proposal → Time → ℕ → Type 0
Accounted n s d now id =
    (classify_proposal_read (n.query_proposal_number id) ≡ missing)
    ⊎ ((p : Proposal) × (n.query_proposal_number id ≡ ok p) × (is_open p ≡ true → Has p s.active))
    ⊎ (known_closed d now id ≡ true)

-- No vote is hidden. If a walk over single proposals succeeds, and recording it reports no error, then
-- each ID from the walk's start down is missing, or was read and is reported as active if it is open,
-- or is remembered as closed, unless a proposal above it was submitted before the floor.
pub no_hidden_vote :
    (n : Node) (cutoff floor now : Time) (start left id : ℕ) (s s' : ProposalScan) (m m' : Memory)
    → walk_from n cutoff floor start left s ≡ (s', ok tt)
    → record_proposal_scan m s' floor now ≡ (m', ok tt)
    → 0 < id
    → id ≤ start
    → Accounted n s' m'.proposal_memory now id ⊎ StopsAbove n cutoff floor start id
unfolding record_proposal_scan
no_hidden_vote n cutoff floor now start left id s s' m m' walked recorded pos le =
    let d = forget floor (remember m.proposal_memory s'.seen) in
    let same : d ≡ m'.proposal_memory = ap (λ r. r.0.proposal_memory) recorded in
    let clear = verdict-ok (possibly_open d now s'.unreadable) (ap (λ r. r.1) recorded) in
    elim (walk-Covered n cutoff floor start left id s s' walked pos le) [
      | inr stop ↦ inr stop
      | inl (inl gone) ↦ inl (inl gone)
      | inl (inr (inl u)) ↦
          inl (inr (inr (rw (← same) (possibly_open-eq-nil d now id s'.unreadable clear u))))
      | inl (inr (inr (p, e, o))) ↦ inl (inr (inl (p, e, o)))
    ]
