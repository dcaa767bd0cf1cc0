-- ===== src/Governance/Answering.antt =====
-- When the walk over single proposals succeeds.
use validator_health_collect.Base.{
  ℕ, zero, suc, ◌+◌, ◌≤◌, ◌<◌, ◌≡◌, refl, ◌≢◌, ◌⊎◌, inl, inr, true, arith, string_eq, nat_eq,
  Bool-cases,
}
use validator_health_collect.Base.Results.{ok, err, Result-cases}
use validator_health_collect.Go.Time.{Time}
use validator_health_collect.Client.Fetch.{FetchError}
use validator_health_collect.Governance.Proposal.{Proposal}
use validator_health_collect.Governance.Scan.{
  ProposalScan, too_old, add, ReadOutcome, found, classify_proposal_read, classify_http_error,
  classify_status,
}
use validator_health_collect.Governance.Adding.{add_done}
use validator_health_collect.Governance.Walk.{Node, walk_from}
use validator_health_collect.Governance.Walking.{ReadOutcome-cases, below_or_top}

module _ (n : Node) (cutoff floor : Time) where
  -- Each read was answered, and the answer is no trouble of an endpoint.
  abbrev pub Answers : ℕ → Type 0
  Answers id = classify_proposal_read (n.query_proposal_number id) ≢ ReadOutcome.read_failed

  -- The walk has reads enough: for every ID, or down to one that was submitted before the floor.
  abbrev pub EndsWithin : ℕ → ℕ → Type 0
  EndsWithin start left =
      (start ≤ left)
      ⊎ ((j : ℕ) × (p : Proposal) × (start < j + left)
          × (j ≤ start)
          × (n.query_proposal_number j ≡ ok p)
          × (too_old p floor ≡ true))

  EndsWithin-pred :
      (m left : ℕ)
      → ((p : Proposal) → n.query_proposal_number (suc m) ≡ ok p → too_old p floor ≡ true → ⊥)
      → EndsWithin (suc m) (suc left)
      → EndsWithin m left
  EndsWithin-pred m left no_stop (inl h) = inl (omega arith)
  EndsWithin-pred m left no_stop (inr (j, p, lo, hi, q, old)) = elim (below_or_top m j hi) [
    | inl top ↦ absurd (no_stop p (rw (← top) q) old)
    | inr low ↦ inr (j, p, omega arith, low, q, old)
  ]

  classify-err : (f : FetchError) → classify_proposal_read {A = Proposal} (err f) ≢ found
  unfolding classify_proposal_read classify_http_error classify_status
  classify-err f = ground arith

  -- A walk succeeds if every read is answered by the chain and the reads are enough.
  pub walk_ok :
      (start left : ℕ) (s : ProposalScan)
      → ((id : ℕ) → 0 < id → id ≤ start → Answers id)
      → EndsWithin start left
      → (walk_from n cutoff floor start left s).1 ≡ ok tt
  unfolding walk_from
  walk_ok zero left s h ends = refl
  walk_ok (suc m) zero s h (inl le) = absurd (omega arith)
  walk_ok (suc m) zero s h (inr (j, p, lo, hi, q, old)) = absurd (omega arith)
  walk_ok (suc m) (suc left) s h ends =
      let a = h (suc m) (omega arith) (omega arith) in
      let below = λ (id : ℕ) (pos : 0 < id) (low : id ≤ m). h id pos (omega arith) in
      elim (Result-cases (n.query_proposal_number (suc m))) [
        | inl (p, e) ↦
            let s1 = (add s p cutoff floor).0 in
            elim (Bool-cases (add s p cutoff floor).1) [
              | inl t ↦ rw (e, t, walk_from)
              | inr t ↦
                  rw (e, t, walk_from)
                    (walk_ok m left s1 below (
                      EndsWithin-pred m left
                        (λ p' e' old. ground (arith, e, e', old, t, add_done cutoff floor p s))
                        ends))
            ]
        | inr (f, e) ↦
            let rest = EndsWithin-pred m left (λ p' e' old. cc e) ends in
            elim (ReadOutcome-cases (classify_proposal_read {A = Proposal} (err f))) [
              | inl c ↦ absurd (classify-err f c)
              | inr (inl c) ↦ rw (e, c, walk_from) (walk_ok m left s below rest)
              | inr (inr (inl c)) ↦ rw (e, c, walk_from) (walk_ok m left _ below rest)
              | inr (inr (inr c)) ↦ absurd (a (rw e c))
            ]
      ]
