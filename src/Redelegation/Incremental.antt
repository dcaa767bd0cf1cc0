-- ===== src/Redelegation/Incremental.antt =====
-- Runs of the scanner of collector/redelegation.go against a transaction index that grows. The abstract
-- view of a run is the index at its last success, from the cutoff of that scan on: what a full search
-- would have found.
use validator_health_collect.Base.{
  ◌-◌, ◌≤◌, ◌<◌, ◌≡◌, refl, inl, inr, String, Option, none, some, List, [], string_eq, Bool-cases,
}
use validator_health_collect.Base.Dict
use validator_health_collect.Base.Dict.{Dict, NodupKeys}
use validator_health_collect.Base.Float.{Float64}
use validator_health_collect.Base.Results.{ok, Result-cases}
use validator_health_collect.Go.Time.{Time}
use validator_health_collect.Redelegation.Event.{RedelegationEvent}
use validator_health_collect.Redelegation.Scanner.{
  Scanner, Settings, Answers, ScanError, since_of, replace_events, scan_locked, scan,
}
use validator_health_collect.Redelegation.Window.{
  from, reported, lookup-replace_events, refresh_monikers-keeps, rolled-NodupKeys,
}

-- The transaction index: the event of a key.
abbrev pub Index : Type 0 → Type 0
Index W = String → Option (RedelegationEvent W)

module _ {W : Type 0} ⦃f : Float64 W⦄ (c : Settings W) where
  -- What the index has to promise to an incremental search at `now`: a search reports exactly what is in
  -- the index from its time on; what is before that time was there at the last success; nothing leaves.
  pub record Promises (s : Scanner W) (now : Time) (past truth : Index W)
      (found : List (RedelegationEvent W)) : Type 0 where
    pub search :
        (k : String) → reported (now - c.window) k found ≡ from (since_of c s now) (truth k)
    pub known :
        (k : String) (e : RedelegationEvent W)
        → truth k ≡ some e
        → e.timestamp < since_of c s now
        → past k ≡ some e
    pub grows : (k : String) (e : RedelegationEvent W) → past k ≡ some e → truth k ≡ some e

  -- A scanner that has come about by scans, the cutoff of its last success, and the index at that time.
  -- At the start the window is empty, and all that the index has is before the cutoff.
  pub data Run : Scanner W → Time → Index W → Type 0 where
    started :
        (s : Scanner W) (old : Time) (past : Index W)
        → s.events ≡ []
        → ((k : String) → from old (past k) ≡ none)
        → Run s old past
    failed :
        (s : Scanner W) (old : Time) (past : Index W) (q : Answers W) (now : Time) (e : ScanError)
        → Run s old past
        → (scan c q s now).1 ≡ some e
        → Run (scan c q s now).0 old past
    scanned :
        (s : Scanner W) (old : Time) (past : Index W) (q : Answers W) (now : Time) (truth : Index W)
        (found : List (RedelegationEvent W))
        → Run s old past
        → (scan c q s now).1 ≡ none
        → q.query_redelegations (since_of c s now) ≡ ok found
        → Promises s now past truth found
        → old ≤ now - c.window
        → Run (scan c q s now).0 (now - c.window) truth

  scan-failed :
      (q : Answers W) (s : Scanner W) (now : Time) (e : ScanError)
      → (scan c q s now).1 ≡ some e
      → (scan c q s now).0.events ≡ s.events
  unfolding scan
  scan-failed q s now e h = elim (Result-cases (scan_locked c q s now)) [
    | inr (x, k) ↦ rw (k, scan) refl
    | inl (s', k) ↦ cc (rw (k, scan) at h)
  ]

  scan-replaced :
      (q : Answers W) (s : Scanner W) (now : Time) (found : List (RedelegationEvent W))
      → (scan c q s now).1 ≡ none
      → q.query_redelegations (since_of c s now) ≡ ok found
      → (bonded : W) × ((scan c q s now).0.events ≡ (replace_events c bonded s found now).events)
  unfolding scan scan_locked replace_events
  scan-replaced q s now found h e = elim (Result-cases q.query_staking_pool) [
    | inr (x, g) ↦ cc (rw (e, g, scan, scan_locked) at h)
    | inl (bonded, g) ↦ elim (Bool-cases (f.le bonded (f.of_nat 0))) [
      | inl b ↦ cc (rw (e, g, b, scan, scan_locked) at h)
      | inr b ↦ (bonded, rw (e, g, b, scan, scan_locked) (rw (refresh_monikers-keeps q s now) refl))
    ]
  ]

  run-NodupKeys :
      (s : Scanner W) (old : Time) (past : Index W) → Run s old past → NodupKeys s.events
  unfolding replace_events
  run-NodupKeys _ _ _ (started s old past empty old_only) = rw empty tt
  run-NodupKeys _ _ _ (failed s old past q now e r h) =
      rw (scan-failed q s now e h) (run-NodupKeys s old past r)
  run-NodupKeys _ _ _ (scanned s old past q now truth found r h e promises le) =
      let (bonded, same) = scan-replaced q s now found h e in
      rw same (rolled-NodupKeys (now - c.window) found s.events (run-NodupKeys s old past r))

  -- After any run of scans, failed ones among them, against an index that keeps its promises, the window
  -- holds exactly what a full search of the index at the last success would have found.
  pub run-Refines :
      (s : Scanner W) (old : Time) (past : Index W) (k : String)
      → Run s old past
      → Dict.lookup k s.events ≡ from old (past k)
  unfolding Dict.lookup
  run-Refines _ _ _ k (started s old past empty old_only) = rw (empty, old_only k) refl
  run-Refines _ _ _ k (failed s old past q now e r h) =
      rw (scan-failed q s now e h) (run-Refines s old past k r)
  run-Refines _ _ _ k (scanned s old past q now truth found r h e promises le) =
      let (bonded, same) = scan-replaced q s now found h e in
      rw same (
        lookup-replace_events c bonded s found now old truth past (run-NodupKeys s old past r)
          (λ j. run-Refines s old past j r) promises.search promises.known promises.grows le k)
