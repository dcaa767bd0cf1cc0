-- ===== src/Governance/Listing.antt =====
-- What a scan of the proposal list finds, against the list as a whole.
use mathlib.Core.List.{append_assoc, append-nil}
use validator_health_collect.Base.{
  ℕ, zero, suc, ◌<◌, ◌≡◌, refl, sym, ◌∙◌, inl, inr, String, Bool, true, false, not, ◌||◌, some,
  List, [], ◌∷◌, ◌++◌, arith, length, select, All, All-map, ◌==◌, string_eq, nat_eq, Bool-cases,
  if◌then◌else◌,
}
use validator_health_collect.Base.Results.{ok}
use validator_health_collect.Go.Time.{Time}
use validator_health_collect.Governance.Proposal.{Proposal, null_next_key, proposal_scan_floor}
use validator_health_collect.Governance.Scan.{ProposalScan, new_scan, too_old, add, add_page}
use validator_health_collect.Governance.Adding.{is_open, is_recent, one, add-Adds, add_done}
use validator_health_collect.Governance.Walk.{
  Node, list_from, query_relevant_proposals, proposal_page_size,
}

-- The proposals up to the first that is too old, that one included.
abbrev pub reached : Time → List Proposal → List Proposal
reached floor [] = []
reached floor (p ∷ ps) = let rest = reached floor ps in p ∷ (if too_old p floor then [] else rest)

-- What is told of `p` goes before what the rest of the list holds.
one-append :
    (b : Bool) (p : Proposal) (xs zs : List Proposal)
    → (xs ++ one b p) ++ zs ≡ xs ++ (if b then p ∷ zs else zs)
one-append true p xs zs = append_assoc xs (p ∷ []) zs
one-append false p xs zs = rw append-nil

module _ (cutoff floor : Time) where
  -- A page adds what the proposals that it reaches hold, and is done if it reaches one that is too old.
  abbrev Reaches : List Proposal → ProposalScan → ProposalScan → Type 0
  Reaches ps s s' =
      (s'.active ≡ s.active ++ select is_open (reached floor ps))
      × (s'.recent_closed ≡ s.recent_closed ++ select (is_recent cutoff) (reached floor ps))
      × (s'.seen ≡ s.seen ++ select (λ p. not (too_old p floor)) (reached floor ps))
      × (s'.unreadable ≡ s.unreadable)

  add_page-Reaches :
      (ps : List Proposal) (s : ProposalScan) → Reaches ps s (add_page s ps cutoff floor).0
  unfolding add_page
  add_page-Reaches [] s = (sym (append-nil _), sym (append-nil _), sym (append-nil _), refl)
  add_page-Reaches (p ∷ ps) s =
      let a = add-Adds cutoff floor p s in
      let d = add_done cutoff floor p s in
      let s1 = (add s p cutoff floor).0 in
      let (h1, h2, h3, h4) = add_page-Reaches ps s1 in
      let rest = reached floor ps in
      elim (Bool-cases (too_old p floor)) [
        | inl e ↦ ground (arith, a.opened, a.closed, a.kept, a.unread)
        | inr e ↦ ground (
          arith,
          a.opened,
          a.closed,
          a.kept,
          a.unread,
          one-append (is_open p) p s.active (select is_open rest),
          one-append (is_recent cutoff p) p s.recent_closed (select (is_recent cutoff) rest),
          one-append (not (too_old p floor)) p s.seen (select (λ q. not (too_old q floor)) rest),
        )
      ]

  add_page-append :
      (ps qs : List Proposal) (s : ProposalScan)
      → add_page s (ps ++ qs) cutoff floor ≡ (
          let (s', done) = add_page s ps cutoff floor in
          elim done [ true ↦ (s', true) | false ↦ add_page s' qs cutoff floor ])
  unfolding add_page
  add_page-append [] qs s = refl
  add_page-append (p ∷ ps) qs s = ground (arith, add_page-append ps qs (add s p cutoff floor).0)

  -- Nothing that stands behind a proposal that is too old is open or recently closed.
  abbrev pub IsSettled : List Proposal → Type 0
  IsSettled [] = Unit
  IsSettled (p ∷ ps) =
      (too_old p floor ≡ true → All (λ q. (is_open q ≡ false) × (is_recent cutoff q ≡ false)) ps)
      × IsSettled ps

  select-none :
      (test : Proposal → Bool) (ps : List Proposal)
      → All (λ q. test q ≡ false) ps
      → select test ps ≡ []
  select-none test [] a = refl
  select-none test (p ∷ ps) a = ground (arith, select-none test ps)

  select-reached :
      (ps : List Proposal)
      → IsSettled ps
      → (select is_open (reached floor ps) ≡ select is_open ps)
        × (select (is_recent cutoff) (reached floor ps) ≡ select (is_recent cutoff) ps)
  select-reached [] h = (refl, refl)
  select-reached (p ∷ ps) (h, hs) = elim (Bool-cases (too_old p floor)) [
    | inl e ↦
        let open_none = select-none is_open ps (All-map (λ q r. r.0) ps (h e)) in
        let recent_none = select-none (is_recent cutoff) ps (All-map (λ q r. r.1) ps (h e)) in
        ground (arith, open_none, recent_none)
    | inr e ↦ ground (arith, select-reached ps hs)
  ]

abbrev pub is_last_key : String → Bool
is_last_key next = next == "" || next == null_next_key

abbrev pub join : List (List Proposal) → List Proposal
join [] = []
join (page ∷ pages) = page ++ join pages

-- The list is served in these pages, the first under `key`, and the last key ends it.
abbrev pub Serves : Node → String → List Proposal → List (List Proposal) → Type 0
Serves n key page [] =
    (next : String) × (n.list_proposals key proposal_page_size ≡ ok (page, next))
    × (is_last_key next ≡ true)
Serves n key page (page' ∷ pages) =
    (next : String) × (n.list_proposals key proposal_page_size ≡ ok (page, next))
    × (is_last_key next ≡ false)
    × Serves n next page' pages

module _ (n : Node) (cutoff floor : Time) where
  list_from-Serves :
      (fuel known : ℕ) (key : String) (page : List Proposal) (pages : List (List Proposal))
      (s : ProposalScan)
      → Serves n key page pages
      → length pages < fuel
      → list_from n cutoff floor fuel known key s
        ≡ some ((add_page s (page ++ join pages) cutoff floor).0, ok tt)
  unfolding list_from
  list_from-Serves zero known key page pages s h lt = elim lt [ ]
  list_from-Serves (suc fuel) known key page [] s (next, answer, end) lt =
      rw (append-nil, answer, list_from) (ground (arith, end))
  list_from-Serves (suc fuel) known key page (page' ∷ pages) s (next, answer, more, rest) lt =
      rw (answer, list_from)
        (ground (
          arith,
          more,
          add_page-append cutoff floor page (page' ++ join pages) s,
          list_from-Serves fuel known next page' pages (add_page s page cutoff floor).0 rest,
        ))

-- What a scan found: its lists are what two tests select from the whole list, in order.
pub record Finds (cutoff : Time) (ps : List Proposal) (s : ProposalScan) : Type 0 where
  pub opened : s.active ≡ select is_open ps
  pub closed : s.recent_closed ≡ select (is_recent cutoff) ps
  pub unread : s.unreadable ≡ []

-- If the node serves its proposals in pages, and nothing behind a proposal submitted before the scan
-- floor is open or recently closed, then a scan with fuel for every page succeeds, and reports as
-- active exactly the open proposals of the whole list and as closed exactly those that are neither
-- open nor before their vote and whose vote ended at the cutoff or later, in the order of the list.
pub query-Finds :
    (n : Node) (fuel : ℕ) (cutoff : Time) (lifespan known : ℕ) (page : List Proposal)
    (pages : List (List Proposal))
    → Serves n "" page pages
    → length pages < fuel
    → IsSettled cutoff (proposal_scan_floor cutoff lifespan) (page ++ join pages)
    → (s : ProposalScan) × (query_relevant_proposals n fuel cutoff lifespan known ≡ some (s, ok tt))
      × Finds cutoff (page ++ join pages) s
unfolding query_relevant_proposals
query-Finds n fuel cutoff lifespan known page pages served enough settled =
    let floor = proposal_scan_floor cutoff lifespan in
    let ps = page ++ join pages in
    let (h1, h2, h3, h4) = add_page-Reaches cutoff floor ps new_scan in
    let (k1, k2) = select-reached cutoff floor ps settled in
    (
      (add_page new_scan ps cutoff floor).0,
      list_from-Serves n cutoff floor fuel known "" page pages new_scan served enough,
      record { opened = h1 ∙ k1; closed = h2 ∙ k2; unread = h4 },
    )
