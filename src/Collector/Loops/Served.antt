-- ===== src/Collector/Loops/Served.antt =====
-- A scan loop has its endpoints when it scans.
use validator_health_collect.Base.{
  ℕ, ◌≡◌, refl, inl, inr, Bool, true, false, Option, String, List, [], ◌∷◌, All, ltb, ◌&&◌,
  if◌then◌else◌, arith,
}
use validator_health_collect.Base.Trace.{states, Each}
use validator_health_collect.Endpoints.Resolver.{Resolver, Resolution, resolve}
use validator_health_collect.Collector.Resolving.{Pair, Clients}
use validator_health_collect.Collector.New.{new_clients}
use validator_health_collect.Collector.Loops.Ready.{
  IsPointed, IsSafe, AreSafe, RedelegationClosed, ManagedClosed, resolve_writes-Keeps,
  resolve_writes-closed,
}
use validator_health_collect.Collector.Loops.{
  Write, Loop, returned, waiting, scanning, Scan, first, tick, Reach, start, resolved, write,
  redelegation_scan, managed_scan, run_redelegation, run_managed_delegations,
}

-- What a loop that has begun to scan says of the channel, and of its scanner.
abbrev HasOpened : Loop → Bool → Type 0
HasOpened returned ready = Unit
HasOpened waiting ready = Unit
HasOpened (scanning t) ready = ready ≡ true

abbrev pub IsServed : (Resolution → List String) → Loop → Option Pair → Type 0
IsServed pick returned o = Unit
IsServed pick waiting o = Unit
IsServed pick (scanning t) o = IsPointed pick o

served :
    (pick : Resolution → List String) (x : Loop) (o : Option Pair) (ready : Bool)
    → IsSafe pick o ready
    → HasOpened x ready
    → IsServed pick x o
served pick returned o ready h e = tt
served pick waiting o ready h e = tt
served pick (scanning t) o ready (inl unready) e = ground arith
served pick (scanning t) o ready (inr p) e = p

HasOpened-keeps :
    (x : Loop) (old new : Bool) → (old ≡ true → new ≡ true) → HasOpened x old → HasOpened x new
HasOpened-keeps returned old new k h = tt
HasOpened-keeps waiting old new k h = tt
HasOpened-keeps (scanning t) old new k h = k h

Scan-HasOpened :
    (ready : Bool) (x x' : Loop) → Scan ready x x' → HasOpened x ready → HasOpened x' ready
Scan-HasOpened ready x x' (first now) h = refl
Scan-HasOpened ready x x' (tick t now le) h = h

abbrev Inv : Clients → List Write → Loop → Loop → Type 0
Inv c ws x y =
    All AreSafe (states ws c)
    × (Each RedelegationClosed ws × Each ManagedClosed ws)
    × HasOpened x c.redelegation_ready
    × HasOpened y c.managed_delegation_ready

states-AreSafe : (ws : List Write) (c : Clients) → All AreSafe (states ws c) → AreSafe c
states-AreSafe [] c h = h.0
states-AreSafe (w ∷ ws) c h = h.0

module _ (resolver : Resolver) (redelegation_interval managed_interval accounts : ℕ) where
  begun-HasOpened : (b : Bool) → HasOpened (if b then waiting else returned) false
  begun-HasOpened true = tt
  begun-HasOpened false = tt

  Reach-Inv :
      (c : Clients) (ws : List Write) (x y : Loop)
      → Reach (new_clients resolver) redelegation_interval managed_interval accounts c ws x y
      → Inv c ws x y
  unfolding new_clients run_redelegation run_managed_delegations
  Reach-Inv c ws x y start = (
    ((inl refl, inl refl), tt),
    (tt, tt),
    begun-HasOpened (ltb 0 redelegation_interval),
    begun-HasOpened (ltb 0 managed_interval && ltb 0 accounts),
  )
  Reach-Inv c ws x y (resolved {c = b} q fetched now h) =
      let (safe, _, opened, opened') = Reach-Inv b [] x y h in
      (
        resolve_writes-Keeps q fetched b.resolver now c safe.0,
        resolve_writes-closed (resolve q fetched b.resolver now).0,
        opened,
        opened',
      )
  Reach-Inv c ws x y (write {c = b} {w = w} h) =
      let (safe, (closed, closed'), opened, opened') = Reach-Inv b (w ∷ ws) x y h in
      (
        safe.1,
        (closed.1, closed'.1),
        HasOpened-keeps x _ _ (closed.0 b) opened,
        HasOpened-keeps y _ _ (closed'.0 b) opened',
      )
  Reach-Inv c ws x y (redelegation_scan {x = x0} h scan) =
      let (safe, closed, opened, opened') = Reach-Inv c ws x0 y h in
      (safe, closed, Scan-HasOpened c.redelegation_ready x0 x scan opened, opened')
  Reach-Inv c ws x y (managed_scan {y = y0} h scan) =
      let (safe, closed, opened, opened') = Reach-Inv c ws x y0 h in
      (safe, closed, opened, Scan-HasOpened c.managed_delegation_ready y0 y scan opened')

  -- However the writes of the resolve passes and the scans of the two loops are interleaved, a loop
  -- that has begun to scan has a scanner both of whose clients have been given, by resolve passes that
  -- found a healthy REST and a healthy RPC endpoint, the candidates that these passes offer: those of
  -- REST to the first, and those of the transaction search or of RPC to the second.
  pub scan-IsServed :
      (c : Clients) (ws : List Write) (x y : Loop)
      → Reach (new_clients resolver) redelegation_interval managed_interval accounts c ws x y
      → IsServed (λ res. res.tx_search_addresses) x c.redelegation
        × IsServed (λ res. res.rpc_addresses) y c.managed_delegations
  scan-IsServed c ws x y h =
      let (safe, _, opened, opened') = Reach-Inv c ws x y h in
      let (one, two) = states-AreSafe ws c safe in
      (
        served _ x c.redelegation c.redelegation_ready one opened,
        served _ y c.managed_delegations c.managed_delegation_ready two opened',
      )
