-- ===== src/Client/Fetch.antt =====
-- `fetchJSON`, `fetchJSONUnless` and `statusError` of collector/rotator.go. The network is a state
-- of its own, and `request` is `getJSONOnce`: one GET of one URL, with what it decodes.
use validator_health_collect.Base.{
  ℕ, zero, suc, String, ◌<>◌, Bool, true, false, Option, none, some, ◌==◌, nat_eq, if◌then◌else◌,
}
use validator_health_collect.Base.Results.{Result, ok, err}
use validator_health_collect.Client.Rotator.{Rotator, base, advance, budget}

-- Why one attempt failed. A response with a status other than 200 carries the status and the code
-- of its body, if the body is that of a gRPC gateway.
pub data HttpError : Type 0 where
  transport : HttpError
  status_error : ℕ → Option ℕ → HttpError
  undecodable : HttpError

-- Why a query failed: no endpoint, an answer that is final, or the last of all attempts.
pub data FetchError : Type 0 where
  no_endpoint : FetchError
  final_error : HttpError → FetchError
  exhausted : Option HttpError → FetchError

module _ {A S : Type 0} (request : String → S → Result HttpError A × S) where
  unfoldable pub fetch_loop :
      (HttpError → Bool)
      → String
      → ℕ
      → Option HttpError
      → Rotator
      → S
      → Result FetchError A × Rotator × S
  fetch_loop is_final path zero last r s = (err (exhausted last), r, s)
  fetch_loop is_final path (suc n) last r s =
      let (answer, s') = request (base r <> path) s in
      elim answer [
        | ok a ↦ (ok a, r, s')
        | err e ↦ elim (is_final e) [
          | true ↦ (err (final_error e), r, s')
          | false ↦ fetch_loop is_final path n (some e) (advance r) s'
        ]
      ]

  unfoldable pub fetch_unless :
      (HttpError → Bool) → String → Rotator → S → Result FetchError A × Rotator × S
  fetch_unless is_final path r s =
      if budget r == 0
      then (err no_endpoint, r, s)
      else fetch_loop is_final path (budget r) none r s

  unfoldable pub fetch : String → Rotator → S → Result FetchError A × Rotator × S
  fetch path r s = fetch_unless (λ _. false) path r s
