-- ===== src/Queries/Votes.antt =====
-- `QueryProposalVotes` of collector/queries.go: the current votes on a proposal, by account.
use validator_health_collect.Base.{
  ℕ, zero, suc, String, true, false, Option, none, some, List, [], ◌∷◌, ◌==◌, string_eq,
  if◌then◌else◌,
}
use validator_health_collect.Base.Dict
use validator_health_collect.Base.Dict.{Dict}
use validator_health_collect.Base.Float.{Float64}
use validator_health_collect.Base.Results.{Result, ok, err}
use validator_health_collect.Client.Fetch.{FetchError}
use validator_health_collect.Governance.Vote.{GovVote, normalize_vote_option}
use validator_health_collect.Queries.{QueryError, page_failed, is_last}

pub record ProposalVoteOption : Type 0 where
  pub option : String
  pub weight : String

pub record ProposalVote : Type 0 where
  pub voter : String
  pub options : List ProposalVoteOption

-- Of the option alone, if there is just one.
abbrev pub primary_of : {W : Type 0} → Dict String W → String
primary_of ((option, w) ∷ []) = option
primary_of weights = "WEIGHTED"

module _ {W : Type 0} ⦃f : Float64 W⦄ where
  -- A weight that is no number, or not above zero, is skipped; options that are the same add up.
  unfoldable pub weights_of : List ProposalVoteOption → Dict String W → Dict String W
  weights_of [] weights = weights
  weights_of (o ∷ os) weights = weights_of os (elim (f.parse o.weight) [
    | none ↦ weights
    | some weight ↦
        if f.le weight (f.of_nat 0)
        then weights
        else (let k = normalize_vote_option o.option in
            Dict.insert k (f.add (Dict.lookup_or (f.of_nat 0) k weights) weight) weights)
  ])

  abbrev pub vote_of : Dict String W → GovVote W
  vote_of weights = record {
    valoper_address = "";
    moniker = "";
    entity = "";
    option = primary_of weights;
    options = weights;
    voting_power = f.of_nat 0;
  }

  abbrev pub put_vote : String → Dict String W → Dict String (GovVote W) → Dict String (GovVote W)
  put_vote voter [] votes = votes
  put_vote voter (w ∷ ws) votes =
      if voter == "" then votes else Dict.insert voter (vote_of (w ∷ ws)) votes

  unfoldable pub add_votes : List ProposalVote → Dict String (GovVote W) → Dict String (GovVote W)
  add_votes [] votes = votes
  add_votes (v ∷ vs) votes = add_votes vs (put_vote v.voter (weights_of v.options []) votes)

  module _ (get : String → Result FetchError (List ProposalVote × String)) where
    unfoldable pub votes_from :
        ℕ → String → Dict String (GovVote W) → Option (Result QueryError (Dict String (GovVote W)))
    votes_from zero key votes = none
    votes_from (suc fuel) key votes = elim (get key) [
      | err e ↦ some (err (page_failed e))
      | ok (page, next) ↦ elim (is_last next) [
        | true ↦ some (ok (add_votes page votes))
        | false ↦ votes_from fuel next (add_votes page votes)
      ]
    ]

    unfoldable pub query_proposal_votes : ℕ → Option (Result QueryError (Dict String (GovVote W)))
    query_proposal_votes fuel = votes_from fuel "" []
