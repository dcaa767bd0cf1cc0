-- ===== src/Governance/Capability.antt =====
-- Which entities a proposal's analysis names as able to veto.
use validator_health_collect.Base.{
  subst, ◌≡◌, refl, sym, ap, ◌∙◌, ◌⊎◌, ◌↔◌, inl, inr, String, true, none, some, [], ◌∷◌, arith, Has,
  string_eq, ◌++◌, false, Bool-cases, Option-cases,
}
use validator_health_collect.Base.Dict
use validator_health_collect.Base.Dict.{Dict, NodupKeys, insert-NodupKeys, lookup-insert}
use validator_health_collect.Base.Float.{Float64}
use validator_health_collect.Governance.Vote.{vote_weights, GovVote, Aggregate, ProposalAnalysis}
use validator_health_collect.Governance.Veto.{
  actual, EntityVetoCapability, power_by_entity, veto_power, zero_w, at_least_zero, total_votes,
  quorum_met, hypothetical_turnout, actual_ratio, potential, capability_of, capabilities_of,
  attributable, total_by_entity, capabilities,
}
use validator_health_collect.Governance.Sums.{
  sum_of, occurs, power_by_entity-NodupKeys, lookup_or-power_by_entity, power_by_entity-append,
  lookup-power_by_entity,
}

module _ {W : Type 0} ⦃f : Float64 W⦄ where
  total_by_entity-NodupKeys : (x : ProposalAnalysis W) → NodupKeys (total_by_entity x)
  unfolding total_by_entity
  total_by_entity-NodupKeys x =
      power_by_entity-NodupKeys _ x.non_voters _ (power_by_entity-NodupKeys _ x.voted [] tt)

  module _ (a : Aggregate W) (threshold : W) (participating veto : Dict String W) where
    entity-capability_of :
        (entity : String) (power : W) (row : EntityVetoCapability W)
        → capability_of a threshold participating veto entity power ≡ some row
        → row.entity ≡ entity
    unfolding capability_of
    entity-capability_of entity power row e = ground arith

    abbrev Shown : Dict String W → EntityVetoCapability W → Type 0
    Shown total row =
        (power : W) × (Dict.lookup row.entity total ≡ some power)
        × (capability_of a threshold participating veto row.entity power ≡ some row)

    Shown-cons :
        (entity : String) (power : W) (total : Dict String W) (row : EntityVetoCapability W)
        → Dict.lookup entity total ≡ none
        → Shown total row
        → Shown ((entity, power) ∷ total) row
    unfolding Dict.lookup
    Shown-cons entity power total row fresh (p, l, c) = (p, ground arith, c)

    Has-Shown :
        (total : Dict String W) (row : EntityVetoCapability W)
        → NodupKeys total
        → Has row (capabilities_of a threshold participating veto total)
        → Shown total row
    unfolding capabilities_of Dict.lookup
    Has-Shown [] row u h = elim h [ ]
    Has-Shown ((entity, power) ∷ total) row (fresh, u) h =
        let cap = capability_of a threshold participating veto entity power in
        elim (Option-cases cap) [
          | inl e ↦ Shown-cons entity power total row fresh (Has-Shown total row u (rw e at h))
          | inr (r, e) ↦
              let both : (row ≡ r)
                  ⊎ Has row (capabilities_of a threshold participating veto total) =
                rw e at h in
              elim both [
                | inl same ↦
                    let of_row : cap ≡ some row = e ∙ ap some (sym same) in
                    let name = entity-capability_of entity power row of_row in
                    (
                      power,
                      ground arith,
                      ap (λ k. capability_of a threshold participating veto k power) name ∙ of_row,
                    )
                | inr later ↦ Shown-cons entity power total row fresh (Has-Shown total row u later)
              ]
        ]

    Shown-Has :
        (total : Dict String W) (row : EntityVetoCapability W) (power : W)
        → Dict.lookup row.entity total ≡ some power
        → capability_of a threshold participating veto row.entity power ≡ some row
        → Has row (capabilities_of a threshold participating veto total)
    unfolding capabilities_of Dict.lookup
    Shown-Has [] row power l c = cc
    Shown-Has ((entity, p) ∷ total) row power l c =
        let ih =
          λ (l' : Dict.lookup row.entity total ≡ some power). Shown-Has total row power l' c in
        elim (string_eq.dec row.entity entity) [
          | yes same ↦
              let cap : capability_of a threshold participating veto entity p ≡ some row =
                ground arith in
              rw cap (inl refl)
          | no differ ↦
              elim (Option-cases (capability_of a threshold participating veto entity p)) [
                | inl e ↦ rw e (ih (ground arith))
                | inr (r, e) ↦ rw e (inr (ih (ground arith)))
              ]
        ]

  -- What the row of an entity says, from the votes cast, its power, its power that has voted, and its
  -- power for a veto: it has vetoed already, with its share of the votes cast, or could still, with the
  -- share that it would have if all of its power had voted.
  abbrev pub Says : Aggregate W → W → W → W → W → EntityVetoCapability W → Type 0
  Says a threshold power voted veto row =
      let cast = f.add (f.add (f.add a.yes a.against) a.abstain) a.veto in
      let turnout = f.add cast (at_least_zero (f.sub power voted)) in
      ((row.kind ≡ actual)
        × (row.ratio ≡ f.div veto cast)
        × (f.lt threshold (f.div veto cast) ≡ true))
      ⊎ ((row.kind ≡ potential)
          × (row.ratio ≡ f.div power turnout)
          × (f.lt threshold (f.div veto cast) ≡ false)
          × (a.is_live ≡ true)
          × (f.le turnout zero_w ≡ false)
          × (f.lt threshold (f.div power turnout) ≡ true))

  module _ (a : Aggregate W) (threshold : W) (participating veto : Dict String W) (entity : String)
      (power : W) (row : EntityVetoCapability W) where
    abbrev OfEntity : Type 0
    OfEntity =
        (row.entity ≡ entity)
        × Says a threshold power (Dict.lookup_or zero_w entity participating)
            (Dict.lookup_or zero_w entity veto) row

    capability_of-Says :
        capability_of a threshold participating veto entity power ≡ some row → OfEntity
    unfolding capability_of actual_ratio hypothetical_turnout total_votes
    capability_of-Says e = ground arith

    Says-capability_of :
        OfEntity → capability_of a threshold participating veto entity power ≡ some row
    unfolding capability_of actual_ratio hypothetical_turnout total_votes
    Says-capability_of h = ground arith

  abbrev pub power_of : GovVote W → W
  power_of v = v.voting_power

  -- `vote.VotingPower * voteWeights(vote)["NO_WITH_VETO"]`
  abbrev pub veto_of : GovVote W → W
  veto_of v = f.mul v.voting_power (Dict.lookup_or zero_w "NO_WITH_VETO" (vote_weights v))

  -- What makes a row one of the proposal's, in terms of its votes.
  abbrev pub IsCapable : ProposalAnalysis W → W → EntityVetoCapability W → Type 0
  IsCapable x threshold row =
      let a = x.aggregate in
      let all = x.voted ++ x.non_voters in
      (f.le a.quorum a.final_turnout ≡ true)
      × (x.attribution_complete ≡ true)
      × (f.le (f.add (f.add (f.add a.yes a.against) a.abstain) a.veto) zero_w ≡ false)
      × (f.le threshold zero_w ≡ false)
      × (occurs row.entity all ≡ true)
      × Says a threshold (sum_of power_of row.entity zero_w all)
          (sum_of power_of row.entity zero_w x.voted) (sum_of veto_of row.entity zero_w x.voted) row

  attributable_iff :
      (x : ProposalAnalysis W) (threshold : W)
      → attributable x threshold ≡ true ↔ (
          (f.le x.aggregate.quorum x.aggregate.final_turnout ≡ true)
          × (x.attribution_complete ≡ true)
          × (f.le (total_votes x.aggregate) zero_w ≡ false)
          × (f.le threshold zero_w ≡ false))
  unfolding attributable quorum_met
  attributable_iff x threshold = (λ h. ground arith, λ h. ground arith)

  total_of :
      (x : ProposalAnalysis W)
      → total_by_entity x ≡ power_by_entity power_of (x.voted ++ x.non_voters) []
  unfolding total_by_entity
  total_of x = sym (power_by_entity-append power_of x.voted x.non_voters [])

  Says-sums :
      (x : ProposalAnalysis W) (threshold : W) (row : EntityVetoCapability W) (power : W)
      → Says x.aggregate threshold power
          (Dict.lookup_or zero_w row.entity (power_by_entity power_of x.voted []))
          (Dict.lookup_or zero_w row.entity (power_by_entity veto_power x.voted []))
          row
        ≡ Says x.aggregate threshold power
            (sum_of power_of row.entity zero_w x.voted)
            (sum_of veto_of row.entity zero_w x.voted)
            row
  unfolding veto_power Dict.lookup_or Dict.lookup
  Says-sums x threshold row power =
      rw
        (
          lookup_or-power_by_entity power_of row.entity x.voted [],
          lookup_or-power_by_entity veto_of row.entity x.voted [],
        )
        refl

  -- A row is listed exactly if the proposal has met its quorum, has its votes attributed, and has votes
  -- cast and a threshold above zero, the row names an entity of a voter or a non-voter, and one of two
  -- cases holds. The entity's weight for a veto among its votes, as a share of the votes cast, is above
  -- the threshold, and the row is an actual veto with that share. Or it is not, the vote is open, and all
  -- of the entity's power, of voters and non-voters together, as a share of the votes cast with its missing
  -- power added, a sum above zero, is above the threshold, and the row is a potential veto with that share.
  pub capabilities_iff :
      (x : ProposalAnalysis W) (threshold : W) (row : EntityVetoCapability W)
      → Has row (capabilities x threshold) ↔ IsCapable x threshold row
  unfolding capabilities total_votes
  capabilities_iff x threshold row =
      let parts = power_by_entity power_of x.voted [] in
      let vetoes = power_by_entity veto_power x.voted [] in
      let all = x.voted ++ x.non_voters in
      (
        λ h. elim (Bool-cases (attributable x threshold)) [
          | inr e ↦ absurd (rw (capabilities, e) at h)
          | inl e ↦
              let (power, l, c) : Shown x.aggregate threshold parts vetoes (total_by_entity x) row =
                Has-Shown x.aggregate threshold parts vetoes (total_by_entity x) row
                  (total_by_entity-NodupKeys x) (rw (capabilities, e) at h) in
              let (quorum, complete, cast, positive) = (attributable_iff x threshold).0 e in
              let (occur, sum) =
                (lookup-power_by_entity power_of row.entity all power).0
                  (subst (λ d. Dict.lookup row.entity d ≡ some power) (total_of x) l) in
              let (_, says) =
                capability_of-Says x.aggregate threshold parts vetoes row.entity power row c in
              (
                quorum,
                complete,
                cast,
                positive,
                occur,
                rw (← sum, ← Says-sums x threshold row power) says,
              )
        ],
        λ (quorum, complete, cast, positive, occur, says).
            let power = sum_of power_of row.entity zero_w all in
            let e = (attributable_iff x threshold).1 (quorum, complete, cast, positive) in
            let l : Dict.lookup row.entity (total_by_entity x) ≡ some power =
              rw (total_of x)
                ((lookup-power_by_entity power_of row.entity all power).1 (occur, refl)) in
            let c =
              Says-capability_of x.aggregate threshold parts vetoes row.entity power row
                (refl, rw (Says-sums x threshold row power) says) in
            rw (capabilities, e)
              (Shown-Has x.aggregate threshold parts vetoes (total_by_entity x) row power l c),
      )
