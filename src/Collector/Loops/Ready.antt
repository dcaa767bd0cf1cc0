-- ===== src/Collector/Loops/Ready.antt =====
-- Between any two writes of a resolve pass, a closed channel has a scanner with candidates behind it.
use validator_health_collect.Base.{
  All-append, ◌≡◌, refl, ◌≢◌, ◌⊎◌, inl, inr, Bool, true, false, Option, none, some, String, List,
  [], Bool-cases, if◌then◌else◌, arith,
}
use validator_health_collect.Base.Trace.{Keeps, Keeps-append, Each}
use validator_health_collect.Go.Time.{Time}
use validator_health_collect.Client.Rotator.{Rotator, clean, set}
use validator_health_collect.Endpoints.Registry.{ChainApis}
use validator_health_collect.Endpoints.Probe.{Servers}
use validator_health_collect.Endpoints.Resolver.{Resolver, Resolution, resolve}
use validator_health_collect.Collector.Resolving.{Pair, Clients, is_set, is_nil}
use validator_health_collect.Collector.Loops.{
  set_first, set_second, client_writes, redelegation_writes, managed_writes, info_writes,
  point_writes, resolve_writes,
}

-- The resolution of a pass that found a healthy endpoint of both kinds.
abbrev pub Passed : Resolution → Type 0
Passed res =
    ((q : Servers) × (fetched : Option ChainApis) × (r : Resolver) × (now : Time) × (res
        ≡ (resolve q fetched r now).0))
    × (res.rest_addresses ≢ [])
    × (res.rpc_addresses ≢ [])

-- The candidates of a client are what such a pass offers.
abbrev pub IsOffered : (Resolution → List String) → Rotator → Type 0
IsOffered pick r = (res : Resolution) × Passed res × (r.bases ≡ clean (pick res))

abbrev rest_of : Resolution → List String
rest_of res = res.rest_addresses

-- A scanner that is configured, and both of whose clients have been given candidates.
pub data IsPointed (pick : Resolution → List String) : Option Pair → Type 0 where
  pointed :
      {p : Pair} → IsOffered rest_of p.first → IsOffered pick p.second → IsPointed pick (some p)

-- A channel is closed only for a scanner that has its candidates.
abbrev pub IsSafe : (Resolution → List String) → Option Pair → Bool → Type 0
IsSafe pick o ready = (ready ≡ false) ⊎ IsPointed pick o

module _ (pick : Resolution → List String) (res : Resolution) (passed : Passed res)
    (ready : Bool) where
  set_first-IsSafe :
      (o : Option Pair) → IsSafe pick o ready → IsSafe pick (set_first res.rest_addresses o) ready
  unfolding set_first set
  set_first-IsSafe o (inl e) = inl e
  set_first-IsSafe none (inr p) = elim p [ ]
  set_first-IsSafe (some p) (inr (pointed a b)) = inr (pointed (res, passed, refl) b)

  set_second-IsSafe :
      (o : Option Pair) → IsSafe pick o ready → IsSafe pick (set_second (pick res) o) ready
  unfolding set_second set
  set_second-IsSafe o (inl e) = inl e
  set_second-IsSafe none (inr p) = elim p [ ]
  set_second-IsSafe (some p) (inr (pointed a b)) = inr (pointed a (res, passed, refl))

  abbrev both : Option Pair → Option Pair
  both o = set_second (pick res) (set_first res.rest_addresses o)

  close-IsSafe :
      (o : Option Pair)
      → IsSafe pick o ready
      → IsSafe pick (both o) (if is_set (both o) then true else ready)
  unfolding set_first set_second set
  close-IsSafe none (inl e) = inl e
  close-IsSafe none (inr p) = elim p [ ]
  close-IsSafe (some p) h = inr (pointed (res, passed, refl) (res, passed, refl))

-- Both channels.
abbrev pub AreSafe : Clients → Type 0
AreSafe c =
    IsSafe (λ res. res.tx_search_addresses) c.redelegation c.redelegation_ready
    × IsSafe (λ res. res.rpc_addresses) c.managed_delegations c.managed_delegation_ready

module _ (res : Resolution) (passed : Passed res) where
  redelegation_writes-Keeps : Keeps AreSafe (redelegation_writes res)
  unfolding redelegation_writes
  redelegation_writes-Keeps c (h, k) =
      let pick : Resolution → List String = λ r. r.tx_search_addresses in
      let ready = c.redelegation_ready in
      let h' = set_first-IsSafe pick res passed ready c.redelegation h in
      (
        (h, k),
        (
          (h', k),
          (
            (
              set_second-IsSafe pick res passed ready (set_first res.rest_addresses c.redelegation)
                  h',
              k,
            ),
            ((close-IsSafe pick res passed ready c.redelegation h, k), tt),
          ),
        ),
      )

  managed_writes-Keeps : Keeps AreSafe (managed_writes res)
  unfolding managed_writes
  managed_writes-Keeps c (k, h) =
      let pick : Resolution → List String = λ r. r.rpc_addresses in
      let ready = c.managed_delegation_ready in
      let o = c.managed_delegations in
      let h' = set_first-IsSafe pick res passed ready o h in
      (
        (k, h),
        (
          (k, h'),
          (
            (k, set_second-IsSafe pick res passed ready (set_first res.rest_addresses o) h'),
            ((k, close-IsSafe pick res passed ready o h), tt),
          ),
        ),
      )

  client_writes-Keeps : Keeps AreSafe (client_writes res)
  unfolding client_writes
  client_writes-Keeps c h = (h, (h, (h, tt)))

  info_writes-Keeps : Keeps AreSafe (info_writes res)
  unfolding info_writes
  info_writes-Keeps c h = (h, (h, (h, (h, (h, tt)))))

  point_writes-Keeps : Keeps AreSafe (point_writes res)
  unfolding point_writes
  point_writes-Keeps = Keeps-append AreSafe (client_writes res) _ client_writes-Keeps (
      Keeps-append AreSafe (redelegation_writes res) _ redelegation_writes-Keeps (
        Keeps-append AreSafe (managed_writes res) (info_writes res) managed_writes-Keeps
          info_writes-Keeps))

pub resolve_writes-Keeps :
    (q : Servers) (fetched : Option ChainApis) (r : Resolver) (now : Time)
    → Keeps AreSafe (resolve_writes (resolve q fetched r now).0)
unfolding resolve_writes
resolve_writes-Keeps q fetched r now c h =
    let res = (resolve q fetched r now).0 in
    elim (Bool-cases (is_nil res.rest_addresses)) [
      | inl e ↦ rw (e, resolve_writes) (h, (h, tt))
      | inr e ↦ elim (Bool-cases (is_nil res.rpc_addresses)) [
        | inl g ↦ rw (e, g, resolve_writes) (h, (h, tt))
        | inr g ↦
            rw (e, g, resolve_writes)
              (point_writes-Keeps res ((q, fetched, r, now, refl), ground arith, ground arith) c h)
      ]
    ]

stays_closed : (b ready : Bool) → ready ≡ true → (if b then true else ready) ≡ true
stays_closed true ready e = refl
stays_closed false ready e = e

-- No write opens a channel that is closed.
abbrev pub RedelegationClosed : Clients → Type 0
RedelegationClosed c = c.redelegation_ready ≡ true

abbrev pub ManagedClosed : Clients → Type 0
ManagedClosed c = c.managed_delegation_ready ≡ true

Each-point_writes :
    (P : Clients → Type 0) (res : Resolution)
    → Each P (client_writes res)
    → Each P (redelegation_writes res)
    → Each P (managed_writes res)
    → Each P (info_writes res)
    → Each P (point_writes res)
unfolding point_writes
Each-point_writes P res a b c d =
    let join = All-append (λ w. (s : Clients) → P s → P (w s)) in
    join (client_writes res) _ a
      (join (redelegation_writes res) _ b (join (managed_writes res) (info_writes res) c d))

point_writes-closed :
    (res : Resolution)
    → Each RedelegationClosed (point_writes res) × Each ManagedClosed (point_writes res)
unfolding client_writes redelegation_writes managed_writes info_writes
point_writes-closed res = (
  Each-point_writes RedelegationClosed res ((λ c h. h), ((λ c h. h), tt))
      (
        (λ c h. h),
        ((λ c h. h), ((λ c h. stays_closed (is_set c.redelegation) c.redelegation_ready h), tt)),
      )
      ((λ c h. h), ((λ c h. h), ((λ c h. h), tt)))
      ((λ c h. h), ((λ c h. h), ((λ c h. h), ((λ c h. h), tt)))),
  Each-point_writes ManagedClosed res ((λ c h. h), ((λ c h. h), tt))
      ((λ c h. h), ((λ c h. h), ((λ c h. h), tt)))
      (
        (λ c h. h),
        (
          (λ c h. h),
          ((λ c h. stays_closed (is_set c.managed_delegations) c.managed_delegation_ready h), tt),
        ),
      )
      ((λ c h. h), ((λ c h. h), ((λ c h. h), ((λ c h. h), tt)))),
)

pub resolve_writes-closed :
    (res : Resolution)
    → Each RedelegationClosed (resolve_writes res) × Each ManagedClosed (resolve_writes res)
unfolding resolve_writes
resolve_writes-closed res = elim (Bool-cases (is_nil res.rest_addresses)) [
  | inl e ↦ rw (e, resolve_writes) (((λ c h. h), tt), ((λ c h. h), tt))
  | inr e ↦ elim (Bool-cases (is_nil res.rpc_addresses)) [
    | inl g ↦ rw (e, g, resolve_writes) (((λ c h. h), tt), ((λ c h. h), tt))
    | inr g ↦ rw (e, g, resolve_writes) (point_writes-closed res)
  ]
]
