-- ===== src/Collector/Scraped.antt =====
-- The governance gauges between two calls of `Set` and `Reset` while `CollectSnapshot` of collector/collector.go runs. A
-- scrape takes no lock and reads one gauge after another, so it may combine several of these states.
pub mod Played
use validator_health_collect.Base.{
  All-map, ◌≡◌, refl, ◌⊎◌, inl, inr, String, Option, none, some, List, [], ◌∷◌, ◌++◌, All,
  Option-cases, if◌then◌else◌, string_eq,
}
use validator_health_collect.Base.Dict
use validator_health_collect.Base.Dict.{Dict}
use validator_health_collect.Base.Float.{Float64}
use validator_health_collect.Base.Results.{Result}
use validator_health_collect.Base.Trace.{
  All-states_append, play, states, play-append, Keeps, Keeps-append, Each, Each-Keeps,
}
use validator_health_collect.Go.Time.{Time, parse_time}
use validator_health_collect.Address.{Codec}
use validator_health_collect.Validators.{Validator}
use validator_health_collect.Governance.Gauges.{GovernanceGauges, retire_live_proposal_series}
use validator_health_collect.Governance.Proposal.{Proposal}
use validator_health_collect.Governance.Vote.{GovVote, AnalysisError, Tally}
use validator_health_collect.Governance.Publish.{targets, analyze_proposals}
use validator_health_collect.Governance.Publish.Writes.{
  Write, retire_writes, reset_writes, analyze_writes,
}
use validator_health_collect.Governance.Publish.Played.{play-retire_writes, play-analyze_writes}
use validator_health_collect.Governance.Publish.Scraped.{Whole, target_writes-Keeps}
use validator_health_collect.Queries.Consensus.{seconds_between}
use validator_health_collect.Collector.Stages.{set_remaining}

module _ {W : Type 0} ⦃f : Float64 W⦄ where
  -- The gate is reset first.
  pub retire_writes-Keeps : (quorum : W) → Keeps (Whole quorum) retire_writes
  unfolding retire_writes Dict.lookup
  retire_writes-Keeps quorum g h =
      (h, (λ id held. cc, (λ id held. cc, (λ id held. cc, (λ id held. cc, tt)))))

  reset_writes-Keeps : (quorum : W) → Keeps (Whole quorum) reset_writes
  unfolding reset_writes retire_writes Dict.lookup
  reset_writes-Keeps quorum g h = (
    h,
    (
      h,
      (
        h,
        (
          h,
          (
            h,
            (
              h,
              (
                h,
                (
                  h,
                  (
                    h,
                    (
                      h,
                      (
                        h,
                        (
                          h,
                          (
                            h,
                            (
                              h,
                              (
                                h,
                                (
                                  λ id held. cc,
                                  (λ id held. cc, (λ id held. cc, (λ id held. cc, tt))),
                                ),
                              ),
                            ),
                          ),
                        ),
                      ),
                    ),
                  ),
                ),
              ),
            ),
          ),
        ),
      ),
    ),
  )

  -- Every gate stands beside its turnout and one of the two quorums.
  abbrev pub IsUniform : W → W → GovernanceGauges W → Type 0
  IsUniform old quorum g = Whole old g ⊎ Whole quorum g

  retire_writes-IsUniform :
      (old quorum : W) (g : GovernanceGauges W)
      → Whole old g
      → All (IsUniform old quorum) (states retire_writes g)
  retire_writes-IsUniform old quorum g h =
      All-map (λ s w. inl w) (states retire_writes g) (retire_writes-Keeps old g h)

  retired-Whole : (quorum : W) (g : GovernanceGauges W) → Whole quorum (play retire_writes g)
  unfolding retire_writes Dict.lookup
  retired-Whole quorum g id held = cc

module _ {W : Type 0} ⦃f : Float64 W⦄ (now : Time) where
  -- The loop that sets the seconds that remain.
  unfoldable pub remaining_writes : List Proposal → List (Write W)
  remaining_writes [] = []
  remaining_writes (p ∷ ps) = elim (parse_time p.voting_end_time) [
    | none ↦ remaining_writes ps
    | some end ↦
        let left = seconds_between end now in
        (λ g. record g {
          seconds_remaining =
              Dict.insert p.id (if f.lt left (f.of_nat 0) then f.of_nat 0 else left)
                g.seconds_remaining;
        })
        ∷ remaining_writes ps
  ]

  pub play-remaining_writes :
      (ps : List Proposal) (g : GovernanceGauges W)
      → play (remaining_writes ps) g
        ≡ record g { seconds_remaining = set_remaining now ps g.seconds_remaining }
  unfolding remaining_writes set_remaining
  play-remaining_writes [] g = refl
  play-remaining_writes (p ∷ ps) g = elim (Option-cases (parse_time p.voting_end_time)) [
    | inl e ↦ rw (e, remaining_writes, set_remaining) (play-remaining_writes ps g)
    | inr (end, e) ↦ rw (e, remaining_writes, set_remaining) (play-remaining_writes ps _)
  ]

  pub remaining_writes-Each :
      (quorum : W) (ps : List Proposal) → Each (Whole quorum) (remaining_writes ps)
  unfolding remaining_writes
  remaining_writes-Each quorum [] = tt
  remaining_writes-Each quorum (p ∷ ps) = elim (Option-cases (parse_time p.voting_end_time)) [
    | inl e ↦ rw (e, remaining_writes) (remaining_writes-Each quorum ps)
    | inr (end, e) ↦ rw (e, remaining_writes) (λ g h. h, remaining_writes-Each quorum ps)
  ]

  module _ (c : Codec) (validators : List Validator) (entity_map : Dict String String)
      (bonded quorum threshold : W) (live_tally : String → Result AnalysisError (Tally W))
      (current_votes : String → Option (Dict String (GovVote W)))
      (active closed : List Proposal) where
    -- The governance writes of a cycle that reaches the analysis. One that ends before makes a first part
    -- of them.
    unfoldable pub cycle_writes : List (Write W)
    cycle_writes =
        retire_writes
        ++ (remaining_writes active
            ++ analyze_writes c validators entity_map bonded quorum threshold live_tally
                current_votes active closed)

    pub play-cycle_writes :
        (g : GovernanceGauges W)
        → play cycle_writes g
          ≡ (analyze_proposals c validators entity_map bonded quorum threshold live_tally
              current_votes active closed
              (record (retire_live_proposal_series g) {
                seconds_remaining =
                    set_remaining now active (retire_live_proposal_series g).seconds_remaining;
              })).0
    unfolding cycle_writes
    play-cycle_writes g =
        rw (play-append, play-append, play-retire_writes, play-remaining_writes)
          (play-analyze_writes c validators entity_map bonded quorum threshold live_tally
            current_votes active closed _)

    -- If each gate of the last cycle stands beside its turnout and the quorum of that cycle, then in each
    -- single state before, between and after the governance writes of this cycle each gate stands
    -- beside its turnout, and all of them beside the old quorum or all beside the new one.
    pub cycle_writes-IsUniform :
        (old : W) (g : GovernanceGauges W)
        → Whole old g
        → All (IsUniform old quorum) (states cycle_writes g)
    unfolding cycle_writes analyze_writes
    cycle_writes-IsUniform old g h =
        All-states_append _ retire_writes _ g (retire_writes-IsUniform old quorum g h) (
          All-map (λ s w. inr w) _
            (Keeps-append (Whole quorum) _ _
              (Each-Keeps (Whole quorum) _ (remaining_writes-Each quorum active))
              (Keeps-append (Whole quorum) _ _ (reset_writes-Keeps quorum) (
                target_writes-Keeps quorum c validators entity_map bonded threshold live_tally
                  current_votes (targets active closed)))
              (play retire_writes g) (retired-Whole quorum g)))
