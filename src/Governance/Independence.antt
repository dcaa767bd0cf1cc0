-- ===== src/Governance/Independence.antt =====
-- That the queries of the live tally and of the current votes are outside the rest of the analysis
-- of a proposal.
use validator_health_collect.Base.{
  ◌≡◌, sym, ap, ◌∙◌, ◌≢◌, inl, inr, String, false, Option, List, arith, ◌==◌, string_eq,
}
use validator_health_collect.Base.Dict.{Dict}
use validator_health_collect.Base.Float.{Float64}
use validator_health_collect.Base.Results.{Result, ok, err, Result-cases}
use validator_health_collect.Address.{Codec}
use validator_health_collect.Validators.{Validator}
use validator_health_collect.Governance.Proposal.{Proposal, status_voting_period}
use validator_health_collect.Governance.Vote.{
  GovVote, Aggregate, ProposalAnalysis, AnalysisError, Tally, tally_of,
}
use validator_health_collect.Governance.Analysis.{
  attribute, unattributed, aggregate_of, with_votes, analyze_proposal,
}
use validator_health_collect.Governance.Attribution.{head, analyze_proposal-head}

module _ (W : Type 0) ⦃f : Float64 W⦄ (c : Codec) (entity_map : Dict String String) where
  abbrev pub aggregate_result :
      Result AnalysisError (ProposalAnalysis W) → Result AnalysisError (Aggregate W)
  aggregate_result (ok x) = ok x.aggregate
  aggregate_result (err e) = err e

  with_votes-aggregate :
      (validators : List Validator) (a : Aggregate W)
      (q : Option (String → Option (Dict String (GovVote W))))
      → (with_votes c entity_map validators a q).aggregate ≡ a
  unfolding with_votes unattributed attribute
  with_votes-aggregate validators a q = ground arith

  -- Whatever the query of the current votes answers, or if there is none, the aggregate of a proposal
  -- and the error of its analysis are the same.
  pub analyze_proposal-aggregate :
      (p : Proposal) (validators : List Validator) (bonded quorum : W)
      (t : Option (String → Result AnalysisError (Tally W)))
      (q q' : Option (String → Option (Dict String (GovVote W))))
      → aggregate_result (analyze_proposal c p validators entity_map bonded quorum t q)
        ≡ aggregate_result (analyze_proposal c p validators entity_map bonded quorum t q')
  analyze_proposal-aggregate p validators bonded quorum t q q' =
      rw
        (
          analyze_proposal-head W c entity_map p validators bonded quorum t q,
          analyze_proposal-head W c entity_map p validators bonded quorum t q',
        )
        (elim (Result-cases (head W c entity_map p bonded quorum t)) [
          | inl (a, h) ↦ rw h (
              ap ok
                (with_votes-aggregate validators a q ∙ sym (with_votes-aggregate validators a q')))
          | inr (g, h) ↦ rw h
        ])

  head-closed :
      (p : Proposal) (bonded quorum : W) (t t' : Option (String → Result AnalysisError (Tally W)))
      → p.status ≢ status_voting_period
      → head W c entity_map p bonded quorum t ≡ head W c entity_map p bonded quorum t'
  unfolding tally_of
  head-closed p bonded quorum t t' closed = ground arith

  head-live :
      (p : Proposal) (bonded quorum : W) (t : Option (String → Result AnalysisError (Tally W)))
      (a : Aggregate W)
      → head W c entity_map p bonded quorum t ≡ ok a
      → a.is_live ≡ (p.status == status_voting_period)
  unfolding aggregate_of
  head-live p bonded quorum t a h = ground arith

  with_votes-closed :
      (validators : List Validator) (a : Aggregate W)
      (q : Option (String → Option (Dict String (GovVote W))))
      → a.is_live ≡ false
      → with_votes c entity_map validators a q ≡ unattributed a
  unfolding with_votes
  with_votes-closed validators a q h = ground arith

  -- Of a proposal whose vote is not open the whole analysis is the same, whatever the queries of the
  -- live tally and of the current votes answer, or if there are none.
  pub analyze_proposal_closed :
      (p : Proposal) (validators : List Validator) (bonded quorum : W)
      (t t' : Option (String → Result AnalysisError (Tally W)))
      (q q' : Option (String → Option (Dict String (GovVote W))))
      → p.status ≢ status_voting_period
      → analyze_proposal c p validators entity_map bonded quorum t q
        ≡ analyze_proposal c p validators entity_map bonded quorum t' q'
  analyze_proposal_closed p validators bonded quorum t t' q q' closed =
      rw
        (
          analyze_proposal-head W c entity_map p validators bonded quorum t q,
          analyze_proposal-head W c entity_map p validators bonded quorum t' q',
          head-closed p bonded quorum t t' closed,
        )
        (elim (Result-cases (head W c entity_map p bonded quorum t')) [
          | inl (a, h) ↦
              let dead : a.is_live ≡ false = ground (arith, head-live p bonded quorum t' a h) in
              rw h (
                ap ok (
                  with_votes-closed validators a q dead
                  ∙ sym (with_votes-closed validators a q' dead)))
          | inr (g, h) ↦ rw h
        ])
