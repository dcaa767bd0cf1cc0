-- ===== src/Governance/Attribution.antt =====
-- Who voted and who did not, in the analysis of a proposal.
use validator_health_collect.Base.{
  ◌≡◌, refl, sym, ap, subst, ◌∙◌, ◌≢◌, ◌⊎◌, inl, inr, String, true, false, ◌&&◌, Option, none, some,
  List, [], ◌∷◌, arith, Has, string_eq, Bool-cases, Option-cases,
}
use validator_health_collect.Base.Dict.{Dict}
use validator_health_collect.Base.Float.{Float64}
use validator_health_collect.Base.Results.{Result, ok, ◌>>=◌, or_fail, Result-cases, ok-injective}
use validator_health_collect.Base.Sort.{Has-sort_by, sort_by-Has}
use validator_health_collect.Go.Time.{parse_time}
use validator_health_collect.Address.{Codec}
use validator_health_collect.Validators.{Validator}
use validator_health_collect.Governance.Proposal.{Proposal}
use validator_health_collect.Governance.Vote.{
  GovVote, Aggregate, ProposalAnalysis, AnalysisError, voting_start_error, voting_end_error, Tally,
  tally_of,
}
use validator_health_collect.Governance.Veto.{gt, zero_w}
use validator_health_collect.Governance.Analysis.{
  contains, by_operator, attributed, valopers, non_voter, non_voters_of, by_power, attribute,
  unattributed, is_empty, aggregate_of, with_votes, analyze_proposal,
}

module _ (W : Type 0) ⦃f : Float64 W⦄ (c : Codec) (entity_map : Dict String String) where
  contains-Has :
      (a : String) (vs : List (GovVote W))
      → contains a (valopers vs) ≡ true
      → (v : GovVote W) × Has v vs × (v.valoper_address ≡ a)
  contains-Has a [] e = cc
  contains-Has a (v ∷ vs) e = elim (string_eq.dec a v.valoper_address) [
    | yes same ↦ (v, inl refl, sym same)
    | no differ ↦ let (w, h, q) = contains-Has a vs (ground arith) in (w, inr h, q)
  ]

  Has-contains :
      (v : GovVote W) (vs : List (GovVote W))
      → Has v vs
      → contains v.valoper_address (valopers vs) ≡ true
  Has-contains v [] h = elim h [ ]
  Has-contains v (w ∷ vs) (inl e) = ground arith
  Has-contains v (w ∷ vs) (inr h) = ground (arith, Has-contains v vs h)

  Has-non_voters :
      (v : Validator) (voted : List String) (vs : List Validator)
      → Has v vs
      → contains v.operator_address voted ≡ false
      → Has (non_voter {W = W} entity_map v) (non_voters_of entity_map voted vs)
  unfolding non_voters_of
  Has-non_voters v voted [] h e = elim h [ ]
  Has-non_voters v voted (u ∷ us) (inl same) e = rw (← same, e) (inl refl)
  Has-non_voters v voted (u ∷ us) (inr h) e =
      elim (Bool-cases (contains u.operator_address voted)) [
        | inl q ↦ rw q (Has-non_voters v voted us h e)
        | inr q ↦ rw q (inr (Has-non_voters v voted us h e))
      ]

  non_voters-absent :
      (g : GovVote W) (voted : List String) (vs : List Validator)
      → Has g (non_voters_of entity_map voted vs)
      → contains g.valoper_address voted ≡ false
  unfolding non_voters_of non_voter
  non_voters-absent g voted [] h = elim h [ ]
  non_voters-absent g voted (u ∷ us) h = elim (Bool-cases (contains u.operator_address voted)) [
    | inl q ↦ non_voters-absent g voted us (rw q at h)
    | inr q ↦
        let split : (g ≡ non_voter entity_map u) ⊎ Has g (non_voters_of entity_map voted us) =
          rw q at h in
        elim split [
          | inl same ↦ ap (λ (k : GovVote W). contains k.valoper_address voted) same ∙ q
          | inr later ↦ non_voters-absent g voted us later
        ]
  ]

  -- Each validator of the active set is in exactly one list of a proposal with attribution.
  pub record Splits (validators : List Validator) (x : ProposalAnalysis W) : Type 0 where
    pub covers :
        (v : Validator)
        → Has v validators
        → ((g : GovVote W) × Has g x.voted × (g.valoper_address ≡ v.operator_address))
          ⊎ Has (non_voter entity_map v) x.non_voters
    pub disjoint :
        (g h : GovVote W)
        → Has g x.voted
        → Has h x.non_voters
        → g.valoper_address ≢ h.valoper_address

  attribute-Splits :
      (validators : List Validator) (a : Aggregate W) (raw : Dict String (GovVote W))
      → Splits validators (attribute c entity_map validators a raw)
  unfolding attribute
  attribute-Splits validators a raw =
      let voted = attributed c entity_map (by_operator validators []) raw in
      let absent = non_voters_of {W = W} entity_map (valopers voted) validators in
      record {
        covers = λ v h. elim (Bool-cases (contains v.operator_address (valopers voted))) [
          | inl e ↦
              let (g, m, q) = contains-Has v.operator_address voted e in
              inl (g, Has-sort_by by_power g voted m, q)
          | inr e ↦
              inr (Has-sort_by by_power _ absent (Has-non_voters v (valopers voted) validators h e))
        ];
        disjoint = λ g h m k same.
            let there = Has-contains g voted (sort_by-Has by_power g voted m) in
            let gone =
              non_voters-absent h (valopers voted) validators (sort_by-Has by_power h absent k) in
            cc (ap (λ s. contains s (valopers voted)) same, there, gone);
      }

  with_votes-cases :
      (validators : List Validator) (a : Aggregate W)
      (q : Option (String → Option (Dict String (GovVote W))))
      → (with_votes c entity_map validators a q ≡ unattributed a)
        ⊎ ((raw : Dict String (GovVote W)) × (with_votes c entity_map validators a q
              ≡ attribute c entity_map validators a raw))
  unfolding with_votes
  with_votes-cases validators a none = inl (ground arith)
  with_votes-cases validators a (some query) = elim (Option-cases (query a.id)) [
    | inl e ↦ inl (ground arith)
    | inr (raw, e) ↦ elim (Bool-cases a.is_live) [
      | inr closed ↦ inl (ground arith)
      | inl live ↦
          elim (Bool-cases
            (gt (f.add (f.add (f.add a.yes a.against) a.abstain) a.veto) zero_w && is_empty raw)) [
              | inl b ↦ inl (ground arith)
              | inr b ↦ inr (raw, ground arith)
            ]
    ]
  ]

  with_votes-Splits :
      (validators : List Validator) (a : Aggregate W)
      (q : Option (String → Option (Dict String (GovVote W))))
      → (with_votes c entity_map validators a q).attribution_complete ≡ true
      → Splits validators (with_votes c entity_map validators a q)
  unfolding unattributed
  with_votes-Splits validators a q e = elim (with_votes-cases validators a q) [
    | inl none_told ↦ cc (ap (λ (x : ProposalAnalysis W). x.attribution_complete) none_told, e)
    | inr (raw, told) ↦ rw told (attribute-Splits validators a raw)
  ]

  -- The part of the analysis that no vote enters.
  abbrev pub head :
      Proposal
      → W
      → W
      → Option (String → Result AnalysisError (Tally W))
      → Result AnalysisError (Aggregate W)
  head p bonded quorum t = do
    start ← or_fail (parse_time p.voting_start_time) voting_start_error
    end ← or_fail (parse_time p.voting_end_time) voting_end_error
    tally ← tally_of p t
    ok (aggregate_of p start end bonded quorum tally)

  pub analyze_proposal-head :
      (p : Proposal) (validators : List Validator) (bonded quorum : W)
      (t : Option (String → Result AnalysisError (Tally W)))
      (q : Option (String → Option (Dict String (GovVote W))))
      → analyze_proposal c p validators entity_map bonded quorum t q
        ≡ (head p bonded quorum t >>= λ a. ok (with_votes c entity_map validators a q))
  unfolding analyze_proposal
  analyze_proposal-head p validators bonded quorum t q = ground arith

  -- In an analysis with complete attribution, each validator is in exactly one of the two lists: one
  -- that voted has a vote under its address, one that did not has its entry among the non-voters, and
  -- no address is in both.
  pub analyze_proposal-Splits :
      (p : Proposal) (validators : List Validator) (bonded quorum : W)
      (t : Option (String → Result AnalysisError (Tally W)))
      (q : Option (String → Option (Dict String (GovVote W)))) (x : ProposalAnalysis W)
      → analyze_proposal c p validators entity_map bonded quorum t q ≡ ok x
      → x.attribution_complete ≡ true
      → Splits validators x
  analyze_proposal-Splits p validators bonded quorum t q x e complete =
      let e' = sym (analyze_proposal-head p validators bonded quorum t q) ∙ e in
      elim (Result-cases (head p bonded quorum t)) [
        | inl (a, h) ↦
            let same = ok-injective (with_votes c entity_map validators a q) x (rw h at e') in
            subst (Splits validators) same (with_votes-Splits validators a q (rw same complete))
        | inr (g, h) ↦ cc (rw h at e')
      ]
