-- ===== src/Endpoints/Choice.antt =====
-- Which endpoints a resolve pass probes, and which it offers.
use validator_health_collect.Base.{
  ◌≡◌, refl, sym, ap, ◌∙◌, ◌⊎◌, ◌↔◌, inl, inr, String, true, false, Option, some, List, [], ◌∷◌,
  map, arith, Has, string_eq, nat_eq, Bool-cases,
}
use validator_health_collect.Base.Sort.{
  sort_by, Has-sort_by, sort_by-Has, IsSorted, sort_by-IsSorted,
}
use validator_health_collect.Go.Time.{Time}
use validator_health_collect.Endpoints.Registry.{Endpoint, ChainApis, fallback}
use validator_health_collect.Endpoints.Probe.{
  Candidate, Servers, healthier, addresses, probe_tx_search_of, probe_rest_of, probe_rest,
}
use validator_health_collect.Endpoints.Resolver.{
  Resolver, some_of, have_cache, cached, keep_or_fall_back, candidates, resolve_rest, resolve,
}

-- Where the lists of a pass come from.
abbrev pub Origin : Option ChainApis → Resolver → Time → ChainApis × Resolver → Type 0
Origin fetched r now (apis, r') =
    ((apis ≡ cached r) × (r' ≡ r) × (have_cache r ≡ true))
    ⊎ ((fetched ≡ some apis) × (cached r' ≡ apis) × (r'.cached_at ≡ now))
    ⊎ ((apis ≡ fallback) × (have_cache r ≡ false) × (cached r' ≡ cached r))

-- A pass always has REST and RPC endpoints to probe. They are those of an earlier registry entry,
-- which is then kept as it is, or those of the entry just fetched, which is then remembered with its
-- time, or the compiled-in ones, and these only while no entry has been remembered.
pub candidates-Origin :
    (fetched : Option ChainApis) (r : Resolver) (now : Time)
    → (some_of (candidates fetched r now).0.rest ≡ true)
      × (some_of (candidates fetched r now).0.rpc ≡ true)
      × Origin fetched r now (candidates fetched r now)
unfolding candidates keep_or_fall_back have_cache
candidates-Origin fetched r now = ground arith

healthier_asym : (a b : Candidate) → healthier a b ≡ true → healthier b a ≡ false
unfolding healthier
healthier_asym a b e = ground arith

healthier_trans :
    (a b c : Candidate) → healthier b a ≡ false → healthier c b ≡ false → healthier c a ≡ false
unfolding healthier
healthier_trans a b c e f = ground arith

-- The REST candidates are ranked: the healthy ones go first, and among those of one kind none goes
-- before one that answered in less time.
pub probe_rest-IsSorted :
    (q : Servers) (eps : List Endpoint) → IsSorted healthier (probe_rest q eps)
unfolding probe_rest
probe_rest-IsSorted q eps =
    sort_by-IsSorted healthier healthier_asym healthier_trans (map (probe_rest_of q) eps)

Has-addresses :
    (a : String) (cs : List Candidate)
    → Has a (addresses cs)
      ↔ ((c : Candidate) × Has c cs × (c.healthy ≡ true) × (a ≡ c.endpoint.address))
unfolding addresses
Has-addresses a [] = (λ h. elim h [ ], λ (c, h, k, e). elim h [ ])
Has-addresses a (c ∷ cs) = elim (Bool-cases c.healthy) [
  | inl e ↦ (
    λ h.
        let h' : (a ≡ c.endpoint.address) ⊎ Has a (addresses cs) = rw (addresses, e) at h in
        elim h' [
          | inl same ↦ (c, inl refl, e, same)
          | inr later ↦ let (d, m, k, s) = (Has-addresses a cs).0 later in (d, inr m, k, s)
        ],
    λ (d, m, k, s).
        rw (addresses, e)
          (elim m [
            | inl same ↦ inl (s ∙ ap (λ (x : Candidate). x.endpoint.address) same)
            | inr later ↦ inr ((Has-addresses a cs).1 (d, later, k, s))
          ]),
  )
  | inr e ↦ (
    λ h. let (d, m, k, s) = (Has-addresses a cs).0 (rw (addresses, e) at h) in (d, inr m, k, s),
    λ (d, m, k, s).
        rw (addresses, e)
          (elim m [
            | inl same ↦ absurd (ground (arith, ap (λ (x : Candidate). x.healthy) same))
            | inr later ↦ (Has-addresses a cs).1 (d, later, k, s)
          ]),
  )
]

Has-map :
    {A B : Type 0} (f : A → B) (b : B) (xs : List A)
    → Has b (map f xs) ↔ ((a : A) × Has a xs × (b ≡ f a))
Has-map f b [] = (λ h. elim h [ ], λ (a, h, e). elim h [ ])
Has-map f b (x ∷ xs) = (
  λ h. elim h [
    | inl same ↦ (x, inl refl, same)
    | inr later ↦ let (a, m, e) = (Has-map f b xs).0 later in (a, inr m, e)
  ],
  λ (a, m, e). elim m [
    | inl same ↦ inl (e ∙ ap f same)
    | inr later ↦ inr ((Has-map f b xs).1 (a, later, e))
  ],
)

endpoint-probe_rest_of : (q : Servers) (ep : Endpoint) → (probe_rest_of q ep).endpoint ≡ ep
unfolding probe_rest_of probe_tx_search_of
endpoint-probe_rest_of q ep = ground arith

rest_addresses-resolve :
    (q : Servers) (fetched : Option ChainApis) (r : Resolver) (now : Time)
    → r.opts.rest_override ≡ ""
    → (resolve q fetched r now).0.rest_addresses
      ≡ addresses (probe_rest q (candidates fetched r now).0.rest)
unfolding resolve resolve_rest
rest_addresses-resolve q fetched r now discover = ground (arith, discover)

Has-offered :
    (q : Servers) (eps : List Endpoint) (a : String)
    → Has a (addresses (probe_rest q eps))
      ↔ ((ep : Endpoint) × Has ep eps × ((probe_rest_of q ep).healthy ≡ true) × (a ≡ ep.address))
unfolding probe_rest
Has-offered q eps a =
    let probed = map (probe_rest_of q) eps in
    let at_ep = λ (ep : Endpoint). ap (λ (e : Endpoint). e.address) (endpoint-probe_rest_of q ep) in
    (
      λ h.
          let (c, m, k, s) = (Has-addresses a (sort_by healthier probed)).0 h in
          let (ep, n, e) = (Has-map (probe_rest_of q) c eps).0 (sort_by-Has healthier c probed m) in
          (
            ep,
            n,
            sym (ap (λ (x : Candidate). x.healthy) e) ∙ k,
            s ∙ ap (λ (x : Candidate). x.endpoint.address) e ∙ at_ep ep,
          ),
      λ (ep, n, k, s).
          let m = (Has-map (probe_rest_of q) (probe_rest_of q ep) eps).1 (ep, n, refl) in
          (Has-addresses a (sort_by healthier probed)).1
            (probe_rest_of q ep, Has-sort_by healthier _ probed m, k, s ∙ sym (at_ep ep)),
    )

-- Without an override, the addresses that a resolve pass offers for REST queries are exactly those of
-- the endpoints it probes whose probe finds them healthy.
pub resolve-Has :
    (q : Servers) (fetched : Option ChainApis) (r : Resolver) (now : Time) (a : String)
    → r.opts.rest_override ≡ ""
    → Has a (resolve q fetched r now).0.rest_addresses ↔ (
        (ep : Endpoint) × Has ep (candidates fetched r now).0.rest
        × ((probe_rest_of q ep).healthy ≡ true)
        × (a ≡ ep.address))
resolve-Has q fetched r now a discover =
    rw (rest_addresses-resolve q fetched r now discover)
      (Has-offered q (candidates fetched r now).0.rest a)
