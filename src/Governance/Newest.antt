-- ===== src/Governance/Newest.antt =====
-- Where the search for the newest proposal ends.
use validator_health_collect.Base.{
  ℕ, zero, suc, ◌+◌, ◌≤◌, ◌<◌, ◌≡◌, refl, ◌≢◌, inl, inr, some, arith, ltb, ltb→lt, string_eq,
  nat_eq, Bool-cases,
}
use validator_health_collect.Base.Results.{ok}
use validator_health_collect.Governance.Scan.{ReadOutcome, missing, classify_proposal_read}
use validator_health_collect.Governance.Walk.{Node, probe_up, proposal_probe_misses}
use validator_health_collect.Governance.Walking.{ReadOutcome-cases}

module _ (n : Node) where
  abbrev outcome : ℕ → ReadOutcome
  outcome id = classify_proposal_read (n.query_proposal_number id)

  missing_up_to :
      (id top : ℕ)
      → ((k : ℕ) → top < k → k < id → outcome k ≡ missing)
      → outcome id ≡ missing
      → (k : ℕ) → top < k
      → k < id + 1
      → outcome k ≡ missing
  missing_up_to id top h c k lo hi = elim (nat_eq.dec k id) [
    | yes e ↦ rw e c
    | no e ↦ h k lo (omega arith)
  ]

  -- The search upward, where it succeeds, ends at an ID with ten missing ones above it.
  probe_up-misses :
      (fuel id top misses : ℕ) (r : ℕ)
      → id ≡ top + misses + 1
      → misses ≤ proposal_probe_misses
      → ((k : ℕ) → top < k → k < id → outcome k ≡ missing)
      → probe_up n fuel id top misses ≡ some (ok r)
      → (top ≤ r) × ((k : ℕ) → r < k → k ≤ r + proposal_probe_misses → outcome k ≡ missing)
  unfolding probe_up
  probe_up-misses zero id top misses r at le h e = cc
  probe_up-misses (suc fuel) id top misses r at le h e =
      elim (Bool-cases (ltb misses proposal_probe_misses)) [
        | inl more ↦ elim (ReadOutcome-cases (outcome id)) [
          | inl c ↦
              let (up, ms) =
                probe_up-misses fuel (id + 1) id 0 r (omega arith) (omega arith)
                  (λ k lo hi. absurd (omega arith)) (rw (more, c, probe_up) at e) in
              (omega arith, ms)
          | inr (inl c) ↦
              probe_up-misses fuel (id + 1) top (misses + 1) r (omega arith) (ground arith)
                (missing_up_to id top h c) (rw (more, c, probe_up) at e)
          | inr (inr (inl c)) ↦
              let (up, ms) =
                probe_up-misses fuel (id + 1) id 0 r (omega arith) (omega arith)
                  (λ k lo hi. absurd (omega arith)) (rw (more, c, probe_up) at e) in
              (omega arith, ms)
          | inr (inr (inr c)) ↦ cc (rw (more, c, probe_up) at e)
        ]
        | inr stop ↦
            let same : top ≡ r = cc (rw (stop, probe_up) at e) in
            let ten : misses ≡ proposal_probe_misses = ground arith in
            (omega arith, λ k lo hi. h k (omega arith) (omega arith))
      ]

  at_most :
      (bound id : ℕ)
      → ((k : ℕ) → bound < k → outcome k ≡ missing)
      → outcome id ≢ missing
      → id ≤ bound
  at_most bound id gone here = elim (Bool-cases (ltb bound id)) [
    | inl above ↦ absurd (here (gone id (ltb→lt bound id above)))
    | inr below ↦ ground arith
  ]

  -- Where every ID above `bound` is missing, and no read fails, the search ends within the fuel
  -- that reaches ten IDs past the bound.
  probe_up_total :
      (bound fuel id top misses : ℕ)
      → ((k : ℕ) → bound < k → outcome k ≡ missing)
      → ((k : ℕ) → outcome k ≢ ReadOutcome.read_failed)
      → misses ≤ proposal_probe_misses
      → id ≤ bound + 1 + misses
      → bound + 11 < id + fuel
      → (r : ℕ) × (probe_up n fuel id top misses ≡ some (ok r))
  unfolding probe_up
  probe_up_total bound zero id top misses gone reads le near enough = absurd (omega arith)
  probe_up_total bound (suc fuel) id top misses gone reads le near enough =
      elim (Bool-cases (ltb misses proposal_probe_misses)) [
        | inr stop ↦ rw (stop, probe_up) (top, refl)
        | inl more ↦
            let low = λ (here : outcome id ≢ missing). at_most bound id gone here in
            elim (ReadOutcome-cases (outcome id)) [
              | inl c ↦
                  rw (more, c, probe_up)
                    (let le' = low (λ m. cc) in
                      probe_up_total bound fuel (id + 1) id 0 gone reads (omega arith) (omega arith)
                        (omega arith))
              | inr (inl c) ↦
                  rw (more, c, probe_up)
                    (probe_up_total bound fuel (id + 1) top (misses + 1) gone reads (ground arith)
                      (omega arith) (omega arith))
              | inr (inr (inl c)) ↦
                  rw (more, c, probe_up)
                    (let le' = low (λ m. cc) in
                      probe_up_total bound fuel (id + 1) id 0 gone reads (omega arith) (omega arith)
                        (omega arith))
              | inr (inr (inr c)) ↦ absurd (reads id c)
            ]
      ]

  -- If every ID above `bound` is missing and no read fails, the search for the newest ID from a known
  -- one ends within the fuel, at an ID that is not below the known one, with the next ten missing.
  pub probe_up-newest :
      (bound fuel known : ℕ)
      → ((k : ℕ) → bound < k → outcome k ≡ missing)
      → ((k : ℕ) → outcome k ≢ ReadOutcome.read_failed)
      → known ≤ bound
      → bound + 10 < known + fuel
      → (r : ℕ) × (probe_up n fuel (known + 1) known 0 ≡ some (ok r))
        × (known ≤ r)
        × ((k : ℕ) → r < k → k ≤ r + proposal_probe_misses → outcome k ≡ missing)
  probe_up-newest bound fuel known gone reads le enough =
      let (r, e) =
        probe_up_total bound fuel (known + 1) known 0 gone reads (omega arith) (omega arith)
          (omega arith) in
      let (up, ms) =
        probe_up-misses fuel (known + 1) known 0 r (omega arith) (omega arith)
          (λ k lo hi. absurd (omega arith)) e in
      (r, e, up, ms)
