-- ===== src/Governance/Veto.antt =====
-- `analyzeProposalVeto` of collector/proposal_veto.go.
use validator_health_collect.Base.{
  String, Bool, not, ◌&&◌, ◌||◌, Option, none, some, List, [], ◌∷◌, string_eq, if◌then◌else◌,
}
use validator_health_collect.Base.Dict
use validator_health_collect.Base.Dict.{Dict}
use validator_health_collect.Base.Float.{Float64}
use validator_health_collect.Governance.Vote.{GovVote, Aggregate, ProposalAnalysis, vote_weights}

pub data VetoKind : Type 0 where
  -- "Already voting NoWithVeto" and "Could veto if changed now"
  actual potential : VetoKind

pub record EntityVetoCapability (W : Type 0) : Type 0 where
  pub entity : String
  pub kind : VetoKind
  pub ratio : W

-- The state of the veto: -1, 0 and 1 in the metric.
pub data VetoState : Type 0 where
  no_quorum not_vetoed vetoed : VetoState

module _ {W : Type 0} ⦃f : Float64 W⦄ where
  abbrev pub zero_w : W
  zero_w = f.of_nat 0

  abbrev pub gt : W → W → Bool
  gt a b = f.lt b a

  unfoldable pub total_votes : Aggregate W → W
  total_votes a = f.add (f.add (f.add a.yes a.against) a.abstain) a.veto

  unfoldable pub veto_ratio : Aggregate W → W
  veto_ratio a = if gt (total_votes a) zero_w then f.div a.veto (total_votes a) else zero_w

  unfoldable pub quorum_met : Aggregate W → Bool
  quorum_met a = f.le a.quorum a.final_turnout

  unfoldable pub veto_state : Aggregate W → W → VetoState
  veto_state a threshold =
      if quorum_met a
      then (if gt threshold zero_w && gt (veto_ratio a) threshold then vetoed else not_vetoed)
      else no_quorum

  -- `m[k] += x`
  unfoldable pub add_at : String → W → Dict String W → Dict String W
  add_at k x d = Dict.insert k (f.add (Dict.lookup_or zero_w k d) x) d

  -- One of the sums over votes, by entity.
  unfoldable pub power_by_entity :
      (GovVote W → W) → List (GovVote W) → Dict String W → Dict String W
  power_by_entity amount [] d = d
  power_by_entity amount (v ∷ vs) d = power_by_entity amount vs (add_at v.entity (amount v) d)

  unfoldable pub veto_power : GovVote W → W
  veto_power v = f.mul v.voting_power (Dict.lookup_or zero_w "NO_WITH_VETO" (vote_weights v))

  -- math.Max(x, 0), for an x that is no NaN
  unfoldable pub at_least_zero : W → W
  at_least_zero x = if gt zero_w x then zero_w else x

  unfoldable pub actual_ratio : Aggregate W → Dict String W → String → W
  actual_ratio a veto entity = f.div (Dict.lookup_or zero_w entity veto) (total_votes a)

  unfoldable pub hypothetical_turnout : Aggregate W → Dict String W → String → W → W
  hypothetical_turnout a participating entity power =
      f.add (total_votes a)
        (at_least_zero (f.sub power (Dict.lookup_or zero_w entity participating)))

  -- The body of the loop over the entities: the row of one, if it has one.
  unfoldable pub capability_of :
      Aggregate W → W → Dict String W → Dict String W → String → W → Option (EntityVetoCapability W)
  capability_of a threshold participating veto entity power =
      if gt (actual_ratio a veto entity) threshold
      then some (record { entity = entity; kind = actual; ratio = actual_ratio a veto entity })
      else (if not a.is_live
          then none
          else (if f.le (hypothetical_turnout a participating entity power) zero_w
              then none
              else (if gt (f.div power (hypothetical_turnout a participating entity power))
                    threshold
                  then some (record {
                    entity = entity;
                    kind = potential;
                    ratio = f.div power (hypothetical_turnout a participating entity power);
                  })
                  else none)))

  abbrev pub cons_some :
      Option (EntityVetoCapability W)
      → List (EntityVetoCapability W)
      → List (EntityVetoCapability W)
  cons_some none rows = rows
  cons_some (some row) rows = row ∷ rows

  unfoldable pub capabilities_of :
      Aggregate W
      → W
      → Dict String W
      → Dict String W
      → Dict String W
      → List (EntityVetoCapability W)
  capabilities_of a threshold participating veto [] = []
  capabilities_of a threshold participating veto ((entity, power) ∷ total) =
      cons_some (capability_of a threshold participating veto entity power)
        (capabilities_of a threshold participating veto total)

  -- No entity can be told apart without a quorum, the votes, a turnout and a threshold.
  unfoldable pub attributable : ProposalAnalysis W → W → Bool
  attributable x threshold = not (
      not (quorum_met x.aggregate)
      || not x.attribution_complete
      || f.le (total_votes x.aggregate) zero_w
      || f.le threshold zero_w)

  unfoldable pub total_by_entity : ProposalAnalysis W → Dict String W
  total_by_entity x =
      power_by_entity (λ v. v.voting_power) x.non_voters
        (power_by_entity (λ v. v.voting_power) x.voted [])

  unfoldable pub capabilities : ProposalAnalysis W → W → List (EntityVetoCapability W)
  capabilities x threshold =
      if attributable x threshold
      then capabilities_of x.aggregate threshold (power_by_entity (λ v. v.voting_power) x.voted [])
          (power_by_entity veto_power x.voted []) (total_by_entity x)
      else []

  unfoldable pub analyze_proposal_veto :
      ProposalAnalysis W → W → W × Bool × VetoState × List (EntityVetoCapability W)
  analyze_proposal_veto x threshold = (
    veto_ratio x.aggregate,
    quorum_met x.aggregate,
    veto_state x.aggregate threshold,
    capabilities x threshold,
  )
