-- ===== src/Client/Retries.antt =====
-- What a query has tried when it answers, and where it leaves the rotator.
use validator_health_collect.Base.{
  ℕ, zero, suc, ◌+◌, ◌≤◌, ◌<◌, ◌≡◌, inl, inr, String, ◌<>◌, Bool, true, Option, none, some, arith,
  nat_eq, Bool-cases,
}
use validator_health_collect.Base.Results.{Result, ok, err, Result-cases}
use validator_health_collect.Client.Rotator.{Rotator, max_attempts, base, advance, budget}
use validator_health_collect.Client.Fetch.{
  HttpError, FetchError, no_endpoint, final_error, exhausted, fetch_loop, fetch_unless,
}

unfoldable pub turn : ℕ → Rotator → Rotator
turn zero r = r
turn (suc k) r = turn k (advance r)

module _ {A S : Type 0} (request : String → S → Result HttpError A × S) where
  module _ (is_final : HttpError → Bool) (path : String) where
    -- How the answer, at the rotator and the network that it leaves behind, came about after `k`
    -- turns of at most `n`.
    abbrev pub Explains : Result FetchError A → Rotator → S → ℕ → ℕ → Type 0
    Explains (ok a) r s k n = (k < n) × ((t : S) × (request (base r <> path) t ≡ (ok a, s)))
    Explains (err no_endpoint) r s k n = ⊥
    Explains (err (final_error e)) r s k n =
        (k < n) × (is_final e ≡ true) × ((t : S) × (request (base r <> path) t ≡ (err e, s)))
    Explains (err (exhausted e)) r s k n = k ≡ n

    abbrev pub IsExplained : Result FetchError A × Rotator × S → Rotator → ℕ → Type 0
    IsExplained (x, r', s') r n = (k : ℕ) × (r' ≡ turn k r) × Explains x r' s' k n

    module _ (cost : S → ℕ) (paid : (u : String) (s : S) → cost (request u s).1 ≤ cost s + 1) where
      loop_cost :
          (n : ℕ) (last : Option HttpError) (r : Rotator) (s : S)
          → cost (fetch_loop request is_final path n last r s).2 ≤ cost s + n
      unfolding fetch_loop
      loop_cost zero last r s = omega arith
      loop_cost (suc n) last r s =
          let next = (request (base r <> path) s).1 in
          elim (Result-cases (request (base r <> path) s).0) [
            | inl (a, e) ↦ rw (e, fetch_loop) (omega (arith, paid (base r <> path) s))
            | inr (f, e) ↦ elim (Bool-cases (is_final f)) [
              | inl final ↦ rw (e, final, fetch_loop) (omega (arith, paid (base r <> path) s))
              | inr more ↦
                  rw (e, more, fetch_loop)
                    (omega (arith, paid (base r <> path) s, loop_cost n (some f) (advance r) next))
            ]
          ]

      -- Where one request costs at most one, a query costs at most three, however it ends.
      pub fetch_cost :
          (r : Rotator) (s : S)
          → cost (fetch_unless request is_final path r s).2 ≤ cost s + max_attempts
      unfolding fetch_unless budget
      fetch_cost r s = ground (arith, loop_cost (budget r) none r s)
