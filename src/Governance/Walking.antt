-- ===== src/Governance/Walking.antt =====
-- What the walk over single proposals has looked at, and when it succeeds.
use validator_health_collect.Base.{
  ℕ, zero, suc, ◌≤◌, ◌<◌, ◌≡◌, refl, sym, ◌∙◌, ◌⊎◌, inl, inr, true, [], ◌∷◌, ◌++◌, arith, Has,
  Has-append_left, Has-append_last, string_eq, nat_eq, Bool-cases,
}
use validator_health_collect.Base.Results.{Result, ok, err, Result-cases}
use validator_health_collect.Go.Time.{Time}
use validator_health_collect.Governance.Proposal.{Proposal}
use validator_health_collect.Governance.Scan.{
  ProposalScan, too_old, add, ScanError, ReadOutcome, found, missing, classify_proposal_read,
}
use validator_health_collect.Governance.Adding.{is_open, add-Adds, add_done}
use validator_health_collect.Governance.Walk.{Node, walk_from}

pub ReadOutcome-cases :
    (o : ReadOutcome)
    → (o ≡ found) ⊎ (o ≡ missing) ⊎ (o ≡ ReadOutcome.unreadable) ⊎ (o ≡ ReadOutcome.read_failed)
ReadOutcome-cases found = inl refl
ReadOutcome-cases missing = inr (inl refl)
ReadOutcome-cases ReadOutcome.unreadable = inr (inr (inl refl))
ReadOutcome-cases ReadOutcome.read_failed = inr (inr (inr refl))

pub below_or_top : (m id : ℕ) → id ≤ suc m → (id ≡ suc m) ⊎ (id ≤ m)
below_or_top m id h = grind arith

module _ (n : Node) (cutoff floor : Time) where
  -- What became of an ID in a scan: it is missing, it is reported as unreadable, or it was read, and
  -- then it is reported as active if it is open.
  abbrev pub Covered : ProposalScan → ℕ → Type 0
  Covered s id =
      (classify_proposal_read (n.query_proposal_number id) ≡ missing)
      ⊎ Has id s.unreadable
      ⊎ ((p : Proposal) × (n.query_proposal_number id ≡ ok p) × (is_open p ≡ true → Has p s.active))

  -- A proposal with a greater ID, at most `start`, was submitted before the floor.
  abbrev pub StopsAbove : ℕ → ℕ → Type 0
  StopsAbove start id =
      (j : ℕ) × (p : Proposal) × (id < j)
      × (j ≤ start)
      × (n.query_proposal_number j ≡ ok p)
      × (too_old p floor ≡ true)

  -- A later scan has all that an earlier one reported.
  pub record Extends (s s' : ProposalScan) : Type 0 where
    pub keeps_active : (p : Proposal) → Has p s.active → Has p s'.active
    pub keeps_unreadable : (id : ℕ) → Has id s.unreadable → Has id s'.unreadable

  add-Extends : (p : Proposal) (s : ProposalScan) → Extends s (add s p cutoff floor).0
  add-Extends p s =
      let a = add-Adds cutoff floor p s in
      record {
        keeps_active = λ q h. rw a.opened (Has-append_left q s.active _ h);
        keeps_unreadable = λ id h. rw a.unread h;
      }

  Extends-refl : (s : ProposalScan) → Extends s s
  Extends-refl s = record { keeps_active = λ p h. h; keeps_unreadable = λ id h. h }

  Extends-trans : (s t u : ProposalScan) → Extends s t → Extends t u → Extends s u
  Extends-trans s t u e f = record {
    keeps_active = λ p h. f.keeps_active p (e.keeps_active p h);
    keeps_unreadable = λ id h. f.keeps_unreadable id (e.keeps_unreadable id h);
  }

  Covered-Extends : (s t : ProposalScan) (id : ℕ) → Extends s t → Covered s id → Covered t id
  Covered-Extends s t id e (inl m) = inl m
  Covered-Extends s t id e (inr (inl u)) = inr (inl (e.keeps_unreadable id u))
  Covered-Extends s t id e (inr (inr (p, q, a))) = inr (inr (p, q, λ o. e.keeps_active p (a o)))

  abbrev Walks : ℕ → ProposalScan → ProposalScan × Result ScanError (Unit {0}) → Type 0
  Walks start s (s', x) =
      Extends s s'
      × (x ≡ ok tt → (id : ℕ) → 0 < id → id ≤ start → Covered s' id ⊎ StopsAbove start id)

  raise : (m id : ℕ) → StopsAbove m id → StopsAbove (suc m) id
  raise m id (j, p, lo, hi, q, old) = (j, p, lo, omega arith, q, old)

  -- One more ID on top of a walk from the one below it.
  Walks-suc :
      (m : ℕ) (s t : ProposalScan) (r : ProposalScan × Result ScanError (Unit {0}))
      → Extends s t
      → Covered t (suc m)
      → Walks m t r
      → Walks (suc m) s r
  Walks-suc m s t (u, x) e c (f, w) = (
    Extends-trans s t u e f,
    λ done id pos le. elim (below_or_top m id le) [
      | inl top ↦ inl (rw top (Covered-Extends t u (suc m) f c))
      | inr low ↦ elim (w done id pos low) [ inl c' ↦ inl c' | inr st ↦ inr (raise m id st) ]
    ],
  )

  add-Covered :
      (m : ℕ) (p : Proposal) (s : ProposalScan)
      → n.query_proposal_number m ≡ ok p
      → Covered (add s p cutoff floor).0 m
  add-Covered m p s e =
      let a = add-Adds cutoff floor p s in
      inr (inr (p, e, λ o. rw (a.opened, o) (Has-append_last p s.active)))

  add_unreadable-Extends :
      (m : ℕ) (s : ProposalScan)
      → Extends s (record s { unreadable = s.unreadable ++ (suc m ∷ []) })
  add_unreadable-Extends m s = record {
    keeps_active = λ p h. h;
    keeps_unreadable = λ id h. Has-append_left id s.unreadable _ h;
  }

  walk-Walks :
      (start left : ℕ) (s : ProposalScan) → Walks start s (walk_from n cutoff floor start left s)
  unfolding walk_from
  walk-Walks zero left s = (Extends-refl s, λ done id pos le. absurd (omega arith))
  walk-Walks (suc m) zero s = (Extends-refl s, λ done id pos le. cc)
  walk-Walks (suc m) (suc left) s = elim (Result-cases (n.query_proposal_number (suc m))) [
    | inl (p, e) ↦
        let s1 = (add s p cutoff floor).0 in
        elim (Bool-cases (add s p cutoff floor).1) [
          | inl t ↦
              rw (e, t, walk_from)
                (
                  add-Extends p s,
                  λ done id pos le. elim (below_or_top m id le) [
                    | inl top ↦ inl (rw top (add-Covered (suc m) p s e))
                    | inr low ↦
                        inr (
                          suc m,
                          p,
                          omega arith,
                          omega arith,
                          e,
                          sym (add_done cutoff floor p s) ∙ t,
                        )
                  ],
                )
          | inr t ↦
              rw (e, t, walk_from)
                (Walks-suc m s s1 _ (add-Extends p s) (add-Covered (suc m) p s e)
                  (walk-Walks m left s1))
        ]
    | inr (f, e) ↦
        let t : ProposalScan = record s { unreadable = s.unreadable ++ (suc m ∷ []) } in
        elim (ReadOutcome-cases (classify_proposal_read {A = Proposal} (err f))) [
          | inl c ↦ rw (e, c, walk_from) (Extends-refl s, λ done id pos le. cc)
          | inr (inl c) ↦
              rw (e, c, walk_from)
                (Walks-suc m s s _ (Extends-refl s) (inl (rw e c)) (walk-Walks m left s))
          | inr (inr (inl c)) ↦
              rw (e, c, walk_from)
                (Walks-suc m s t _ (add_unreadable-Extends m s)
                  (inr (inl (Has-append_last (suc m) s.unreadable))) (walk-Walks m left t))
          | inr (inr (inr c)) ↦ rw (e, c, walk_from) (Extends-refl s, λ done id pos le. cc)
        ]
  ]

  -- A walk that succeeds accounts for every ID from its start down. Each is missing, is reported as
  -- unreadable, or was read and is reported as active if it is open, unless a proposal above it
  -- was submitted before the floor.
  pub walk-Covered :
      (start left id : ℕ) (s s' : ProposalScan)
      → walk_from n cutoff floor start left s ≡ (s', ok tt)
      → 0 < id
      → id ≤ start
      → Covered s' id ⊎ StopsAbove start id
  walk-Covered start left id s s' e pos le = (rw e at (walk-Walks start left s)).1 refl id pos le
