-- ===== src/Redelegation/Window.antt =====
-- What a scan leaves in the rolling window.
use validator_health_collect.Base.{
  ◌-◌, ◌≤◌, ◌<◌, ◌≡◌, refl, ap, ◌∙◌, inl, inr, String, true, false, Option, none, some, List, [],
  ◌∷◌, arith, ◌==◌, string_eq, Bool-cases, Option-cases, if◌then◌else◌,
}
use validator_health_collect.Base.Dict
use validator_health_collect.Base.Dict.{
  Dict, NodupKeys, lookup-insert, insert-NodupKeys, lookup-delete_if, delete_if-NodupKeys,
}
use validator_health_collect.Base.Float.{Float64}
use validator_health_collect.Base.Results.{Result-cases}
use validator_health_collect.Go.Time.{Time, before}
use validator_health_collect.Redelegation.Event.{RedelegationEvent, key}
use validator_health_collect.Redelegation.Scanner.{
  Scanner, Settings, Answers, ScanError, since_of, refresh_monikers, keep_recent, merge,
  replace_events, scan_locked, scan,
}

-- An event that is not before a time.
abbrev pub from : {W : Type 0} → Time → Option (RedelegationEvent W) → Option (RedelegationEvent W)
from cutoff none = none
from cutoff (some e) = if before e.timestamp cutoff then none else some e

abbrev pub newest :
    {W : Type 0}
    → Option (RedelegationEvent W)
    → Option (RedelegationEvent W)
    → Option (RedelegationEvent W)
newest none old = old
newest (some e) old = some e

-- The last event of a list that has a key and is not before the cutoff.
abbrev pub reported :
    {W : Type 0} → Time → String → List (RedelegationEvent W) → Option (RedelegationEvent W)
reported cutoff k [] = none
reported cutoff k (e ∷ es) =
    newest (reported cutoff k es) (if k == key e then from cutoff (some e) else none)

-- Each event stands once, under its own key, and is not before the cutoff.
pub record IsWindow {W : Type 0} (cutoff : Time) (d : Dict String (RedelegationEvent W))
    : Type 0 where
  pub once : NodupKeys d
  pub keyed : (k : String) (e : RedelegationEvent W) → Dict.lookup k d ≡ some e → key e ≡ k
  pub recent :
      (k : String) (e : RedelegationEvent W) → Dict.lookup k d ≡ some e → cutoff ≤ e.timestamp

module _ {W : Type 0} ⦃f : Float64 W⦄ where
  lookup-merge :
      (cutoff : Time) (k : String) (found : List (RedelegationEvent W))
      (d : Dict String (RedelegationEvent W))
      → Dict.lookup k (merge cutoff found d) ≡ newest (reported cutoff k found) (Dict.lookup k d)
  unfolding merge
  lookup-merge cutoff k [] d = refl
  lookup-merge cutoff k (e ∷ es) d = ground (
    arith,
    lookup-merge cutoff k es (if before e.timestamp cutoff then d else Dict.insert (key e) e d),
    lookup-insert k (key e) e d,
  )

  lookup-keep_recent :
      (cutoff : Time) (k : String) (d : Dict String (RedelegationEvent W))
      → NodupKeys d
      → Dict.lookup k (keep_recent cutoff d) ≡ from cutoff (Dict.lookup k d)
  unfolding keep_recent
  lookup-keep_recent cutoff k d u =
      ground (arith, lookup-delete_if (λ k e. before e.timestamp cutoff) k d u)

  merge-NodupKeys :
      (cutoff : Time) (found : List (RedelegationEvent W)) (d : Dict String (RedelegationEvent W))
      → NodupKeys d
      → NodupKeys (merge cutoff found d)
  unfolding merge
  merge-NodupKeys cutoff [] d u = u
  merge-NodupKeys cutoff (e ∷ es) d u = elim (Bool-cases (before e.timestamp cutoff)) [
    | inl b ↦ rw (b, merge) (merge-NodupKeys cutoff es d u)
    | inr b ↦
        rw (b, merge)
          (merge-NodupKeys cutoff es (Dict.insert (key e) e d) (insert-NodupKeys (key e) e d u))
  ]

  keep_recent-NodupKeys :
      (cutoff : Time) (d : Dict String (RedelegationEvent W))
      → NodupKeys d
      → NodupKeys (keep_recent cutoff d)
  unfolding keep_recent
  keep_recent-NodupKeys cutoff d u = delete_if-NodupKeys (λ k e. before e.timestamp cutoff) d u

  reported-from :
      (cutoff : Time) (k : String) (es : List (RedelegationEvent W)) (e : RedelegationEvent W)
      → reported cutoff k es ≡ some e
      → (key e ≡ k) × (cutoff ≤ e.timestamp)
  reported-from cutoff k [] e h = cc
  reported-from cutoff k (x ∷ es) e h = ground (arith, reported-from cutoff k es e)

  -- The window after the events found are put in and the old ones taken out.
  abbrev pub rolled :
      Time
      → List (RedelegationEvent W)
      → Dict String (RedelegationEvent W)
      → Dict String (RedelegationEvent W)
  rolled cutoff found d = merge cutoff found (keep_recent cutoff d)

  lookup-rolled :
      (cutoff : Time) (k : String) (found : List (RedelegationEvent W))
      (d : Dict String (RedelegationEvent W))
      → NodupKeys d
      → Dict.lookup k (rolled cutoff found d)
        ≡ newest (reported cutoff k found) (from cutoff (Dict.lookup k d))
  lookup-rolled cutoff k found d u =
      lookup-merge cutoff k found (keep_recent cutoff d)
      ∙ ap (newest (reported cutoff k found)) (lookup-keep_recent cutoff k d u)

  pub rolled-NodupKeys :
      (cutoff : Time) (found : List (RedelegationEvent W)) (d : Dict String (RedelegationEvent W))
      → NodupKeys d
      → NodupKeys (rolled cutoff found d)
  rolled-NodupKeys cutoff found d u =
      merge-NodupKeys cutoff found _ (keep_recent-NodupKeys cutoff d u)

  rolled-IsWindow :
      (cutoff old : Time) (found : List (RedelegationEvent W))
      (d : Dict String (RedelegationEvent W))
      → IsWindow old d
      → IsWindow cutoff (rolled cutoff found d)
  rolled-IsWindow cutoff old found d w = record {
    once = rolled-NodupKeys cutoff found d w.once;
    keyed = λ k e h.
        ground (
          arith,
          lookup-rolled cutoff k found d w.once,
          reported-from cutoff k found e,
          w.keyed k e,
        );
    recent = λ k e h.
        ground (arith, lookup-rolled cutoff k found d w.once, reported-from cutoff k found e);
  }

  pub refresh_monikers-keeps :
      (q : Answers W) (s : Scanner W) (now : Time) → (refresh_monikers q s now).events ≡ s.events
  unfolding refresh_monikers
  refresh_monikers-keeps q s now = ground arith

  -- What a scan leaves behind: on an error everything but the success gauge, which is cleared, is as it
  -- was; otherwise the events are a window down to the cutoff, and the time of success is now.
  abbrev pub Outcome : Settings W → Scanner W → Time → Scanner W × Option ScanError → Type 0
  Outcome c s now (s', some e) = s' ≡ record s { scan_success = false }
  Outcome c s now (s', none) =
      IsWindow (now - c.window) s'.events × (s'.last_success ≡ now) × (s'.scan_success ≡ true)

  -- A scan of a window either fails, and then changes nothing but the success gauge, which it clears,
  -- or succeeds, and then each event stands once, under its own key, none of them is before the new
  -- cutoff, the time of the last success is now and the success gauge is set.
  pub scan-Outcome :
      (c : Settings W) (q : Answers W) (s : Scanner W) (now old : Time)
      → IsWindow old s.events
      → Outcome c s now (scan c q s now)
  unfolding scan scan_locked replace_events
  scan-Outcome c q s now old w = elim (Result-cases (q.query_redelegations (since_of c s now))) [
    | inr (e, h) ↦ rw (h, scan)
    | inl (found, h) ↦ elim (Result-cases q.query_staking_pool) [
      | inr (e, g) ↦ rw (h, g, scan)
      | inl (bonded, g) ↦ elim (Bool-cases (f.le bonded (f.of_nat 0))) [
        | inl b ↦ rw (h, g, b, scan)
        | inr b ↦
            rw (h, g, b, scan)
              (
                rw (refresh_monikers-keeps q s now)
                    (rolled-IsWindow (now - c.window) old found s.events w),
                refl,
                refl,
              )
      ]
    ]
  ]

  -- The time from which a scan searches is not before its cutoff.
  since_of-le : (c : Settings W) (s : Scanner W) (now : Time) → now - c.window ≤ since_of c s now
  unfolding since_of
  since_of-le c s now = ground arith

  -- `truth` is the transaction index by key, and `past` what it was at the last success. Suppose that
  -- the window held exactly what was in the past index and not before its cutoff, which is not after
  -- the new cutoff; that the search reports exactly what is in the index and not before the time from
  -- which the scan searches; that the index held at the last success, unchanged, all that is before
  -- that time; and that nothing has left it. Then the scan leaves in the window exactly what is in
  -- the index and not before the new cutoff, as a full search would.
  pub lookup-replace_events :
      (c : Settings W) (bonded : W) (s : Scanner W) (found : List (RedelegationEvent W))
      (now old : Time) (truth past : String → Option (RedelegationEvent W))
      → NodupKeys s.events
      → ((k : String) → Dict.lookup k s.events ≡ from old (past k))
      → ((k : String) → reported (now - c.window) k found ≡ from (since_of c s now) (truth k))
      → ((k : String) (e : RedelegationEvent W)
          → truth k ≡ some e
          → e.timestamp < since_of c s now
          → past k ≡ some e)
      → ((k : String) (e : RedelegationEvent W) → past k ≡ some e → truth k ≡ some e)
      → old ≤ now - c.window
      → (k : String)
      → Dict.lookup k (replace_events c bonded s found now).events ≡ from (now - c.window) (truth k)
  unfolding replace_events
  lookup-replace_events c bonded s found now old truth past u window search known grows le k =
      let cutoff = now - c.window in
      let e = lookup-rolled cutoff k found s.events u in
      let le' = since_of-le c s now in
      elim (Option-cases (truth k)) [
        | inl gone ↦ elim (Option-cases (past k)) [
          | inl p ↦ ground (arith, e, gone, p, search k, window k)
          | inr (y, p) ↦ cc (grows k y p, gone)
        ]
        | inr (x, there) ↦ elim (Bool-cases (before x.timestamp (since_of c s now))) [
          | inl b ↦ ground (arith, e, there, known k x there, search k, window k)
          | inr b ↦ ground (arith, e, there, search k)
        ]
      ]
