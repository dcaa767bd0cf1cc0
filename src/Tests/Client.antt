-- ===== src/Tests/Client.antt =====
-- The client's theorems on two endpoints, of which only the second answers.
use validator_health_collect.Base.{
  ℕ, suc, ◌+◌, ◌≤◌, ◌≡◌, ◌≢◌, ◌⊎◌, String, Bool, false, List, [], ◌∷◌, arith, Has, ◌==◌, string_eq,
  if◌then◌else◌,
}
use validator_health_collect.Base.Results.{Result, ok, err}
use validator_health_collect.Client.Rotator.{Rotator, max_attempts, empty, base}
use validator_health_collect.Client.Selection.{Call, sets, advances, run, base-run}
use validator_health_collect.Client.Fetch.{HttpError, transport, fetch_unless}
use validator_health_collect.Client.Retries.{fetch_cost}

abbrev calls : List Call
calls = sets ("https://a/" ∷ " https://b" ∷ []) ∷ advances ∷ []

abbrev two : Rotator
two = record { bases = "https://a" ∷ "https://b" ∷ []; current = 0 }

-- The state of the network is the number of requests so far.
abbrev request : String → ℕ → Result HttpError String × ℕ
request u s = ((if u == "https://b/status" then ok u else err transport), suc s)

abbrev never : HttpError → Bool
never e = false

base-run_example :
    let r = run empty calls in (r.bases ≡ []) ⊎ ((base r ≢ "") × Has (base r) r.bases)
base-run_example = base-run calls

fetch_cost_example : (fetch_unless request never "/status" two 0).2 ≤ 0 + max_attempts
fetch_cost_example = fetch_cost request never "/status" (λ s. s) (λ u s. omega arith) two 0
