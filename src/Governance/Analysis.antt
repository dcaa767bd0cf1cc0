-- ===== src/Governance/Analysis.antt =====
-- `analyzeProposal` of collector/governance.go. The votes are visited in the order of their map.
use validator_health_collect.Base.{
  String, Bool, true, false, not, ◌&&◌, ◌||◌, Option, none, some, List, [], ◌∷◌, ◌==◌, string_eq,
  if◌then◌else◌,
}
use validator_health_collect.Base.Dict
use validator_health_collect.Base.Dict.{Dict}
use validator_health_collect.Base.Float.{Float64}
use validator_health_collect.Base.Results.{Result, ok, err, ◌>>=◌, or_fail}
use validator_health_collect.Base.Sort.{sort_by}
use validator_health_collect.Go.Text.{trim_prefix}
use validator_health_collect.Go.Time.{Time, parse_time}
use validator_health_collect.Address.{Codec, AddressError, reprefix}
use validator_health_collect.Validators.{Validator}
use validator_health_collect.Governance.Proposal.{Proposal, status_voting_period}
use validator_health_collect.Governance.Vote.{
  GovVote, Aggregate, ProposalAnalysis, AnalysisError, voting_start_error, voting_end_error, Tally,
  tally_of,
}
use validator_health_collect.Governance.Veto.{gt, zero_w}

unfoldable pub acc_to_valoper : Codec → String → Result AddressError String
acc_to_valoper c acc = reprefix c acc "cosmosvaloper"

-- The name in the entity map, or the moniker where that is missing or empty.
unfoldable pub entity_or_moniker : Dict String String → String → String → String
entity_or_moniker entity_map address moniker =
    let entity = Dict.lookup_or "" address entity_map in if entity == "" then moniker else entity

-- A set as a map to true, or to the last entry, by a key.
unfoldable pub by_operator : List Validator → Dict String Validator → Dict String Validator
by_operator [] d = d
by_operator (v ∷ vs) d = by_operator vs (Dict.insert v.operator_address v d)

abbrev pub contains : String → List String → Bool
contains a [] = false
contains a (x ∷ xs) = a == x || contains a xs

module _ {W : Type 0} ⦃f : Float64 W⦄ where
  -- A vote of an account, told by the validator that the account is.
  unfoldable pub attribute_to :
      Dict String String → Dict String Validator → GovVote W → String → Option (GovVote W)
  attribute_to entity_map info vote valoper = elim (Dict.lookup valoper info) [
    | none ↦ none
    | some v ↦ some (record vote {
      valoper_address = valoper;
      moniker = v.moniker;
      entity = entity_or_moniker entity_map valoper v.moniker;
      voting_power = f.parse_value v.tokens;
    })
  ]

  unfoldable pub attributed :
      Codec
      → Dict String String
      → Dict String Validator
      → Dict String (GovVote W)
      → List (GovVote W)
  attributed c entity_map info [] = []
  attributed c entity_map info ((acc, vote) ∷ raw) =
      let rest = attributed c entity_map info raw in
      elim (acc_to_valoper c acc) [
        | err e ↦ rest
        | ok valoper ↦ elim (attribute_to entity_map info vote valoper) [
          | none ↦ rest
          | some v ↦ v ∷ rest
        ]
      ]

  abbrev pub valopers : List (GovVote W) → List String
  valopers [] = []
  valopers (v ∷ vs) = v.valoper_address ∷ valopers vs

  unfoldable pub non_voter : Dict String String → Validator → GovVote W
  non_voter entity_map v = record {
    valoper_address = v.operator_address;
    moniker = v.moniker;
    entity = entity_or_moniker entity_map v.operator_address v.moniker;
    option = "DID_NOT_VOTE";
    options = [];
    voting_power = f.parse_value v.tokens;
  }

  unfoldable pub non_voters_of :
      Dict String String → List String → List Validator → List (GovVote W)
  non_voters_of entity_map voted [] = []
  non_voters_of entity_map voted (v ∷ vs) =
      let rest = non_voters_of entity_map voted vs in
      if contains v.operator_address voted then rest else non_voter entity_map v ∷ rest

  abbrev pub by_power : GovVote W → GovVote W → Bool
  by_power a b = gt a.voting_power b.voting_power

  -- The attribution of the votes of a live proposal.
  unfoldable pub attribute :
      Codec
      → Dict String String
      → List Validator
      → Aggregate W
      → Dict String (GovVote W)
      → ProposalAnalysis W
  attribute c entity_map validators a raw =
      let voted = attributed c entity_map (by_operator validators []) raw in
      record {
        aggregate = a;
        voted = sort_by by_power voted;
        non_voters = sort_by by_power (non_voters_of entity_map (valopers voted) validators);
        attribution_complete = true;
      }

  unfoldable pub unattributed : Aggregate W → ProposalAnalysis W
  unattributed a = record {
    aggregate = a;
    voted = [];
    non_voters = [];
    attribution_complete = false;
  }

  unfoldable pub aggregate_of : Proposal → Time → Time → W → W → Tally W → Aggregate W
  aggregate_of p start end bonded quorum (in_favour, against, abstain, veto) = record {
    id = p.id;
    title = p.title;
    status = trim_prefix p.status "PROPOSAL_STATUS_";
    voting_start = start;
    voting_end = end;
    quorum = quorum;
    final_turnout =
        if gt bonded zero_w
        then f.div (f.add (f.add (f.add in_favour against) abstain) veto) bonded
        else zero_w;
    total_bonded = bonded;
    yes = in_favour;
    against = against;
    abstain = abstain;
    veto = veto;
    is_live = p.status == status_voting_period;
  }

  unfoldable pub is_empty : Dict String (GovVote W) → Bool
  is_empty [] = true
  is_empty (v ∷ vs) = false

  -- The current votes are asked for only while the vote is open. A missing query, a failed one, and
  -- no votes under a tally that is not zero leave the proposal without attribution.
  unfoldable pub with_votes :
      Codec
      → Dict String String
      → List Validator
      → Aggregate W
      → Option (String → Option (Dict String (GovVote W)))
      → ProposalAnalysis W
  with_votes c entity_map validators a current_votes =
      if not a.is_live then unattributed a else elim current_votes [
        | none ↦ unattributed a
        | some query ↦ elim (query a.id) [
          | none ↦ unattributed a
          | some raw ↦
              if gt (f.add (f.add (f.add a.yes a.against) a.abstain) a.veto) zero_w && is_empty raw
              then unattributed a
              else attribute c entity_map validators a raw
        ]
      ]

  unfoldable pub analyze_proposal :
      Codec
      → Proposal
      → List Validator
      → Dict String String
      → W
      → W
      → Option (String → Result AnalysisError (Tally W))
      → Option (String → Option (Dict String (GovVote W)))
      → Result AnalysisError (ProposalAnalysis W)
  analyze_proposal c p validators entity_map bonded quorum live_tally current_votes = do
    start ← or_fail (parse_time p.voting_start_time) voting_start_error
    end ← or_fail (parse_time p.voting_end_time) voting_end_error
    tally ← tally_of p live_tally
    ok (
        with_votes c entity_map validators (aggregate_of p start end bonded quorum tally)
          current_votes)
