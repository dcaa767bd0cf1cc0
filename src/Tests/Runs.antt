-- ===== src/Tests/Runs.antt =====
-- The theorems on a run of cycles: one cycle, an hour later, in which the open proposal is unreadable.
use validator_health_collect.Base.{
  some, ℕ, ◌+◌, ◌*◌, ◌≤◌, ◌≡◌, subst, refl, inl, [], ◌∷◌, arith, string_eq, nat_eq,
}
use validator_health_collect.Base.Dict
use validator_health_collect.Base.Results.{ok, ok-injective}
use validator_health_collect.Collector.Schedule.{next_aligned_run, truncate}
use validator_health_collect.Go.Time.{unix, Time, day, hour, parse_time}
use validator_health_collect.Governance.Proposal.{Proposal}
use validator_health_collect.Governance.Scan.{ProposalScan, new_scan}
use validator_health_collect.Governance.Hidden.{Remembers, Voting, Hides}
use validator_health_collect.Collector.State.{CollectorState, Answers}
use validator_health_collect.Collector.Snapshot.{collect_snapshot}
use validator_health_collect.Collector.Snapshot.Recorded.{lifespan_read}
use validator_health_collect.Collector.Run.{Runs, started, turn}
use validator_health_collect.Collector.Run.Remembered.{Hiding, Runs-Hiding}
use validator_health_collect.Collector.Run.Progress.{IsUpTo, Runs-Advances}
use validator_health_collect.Collector.New.{new}
use validator_health_collect.Collector.Run.Uniform.{AllWhole, process-AllWhole}
use validator_health_collect.Tests.Discovery.{resolver}
use validator_health_collect.Tests.Values.{percents}
use validator_health_collect.Tests.Analysis.{open_proposal}
use validator_health_collect.Tests.Snapshots.{settings, answers, state}

abbrev voted : Proposal
voted = open_proposal "PROPOSAL_STATUS_VOTING_PERIOD"

abbrev hidden_scan : ProposalScan
hidden_scan = record new_scan { unreadable = 7 ∷ []; highest_id = 7 }

abbrev hiding_answers : Answers ℕ
hiding_answers = record answers { relevant_proposals = λ cutoff lifespan highest. ok hidden_scan }

abbrev first_cycle : Time
first_cycle = 740205 * day

abbrev remembering : CollectorState ℕ
remembering = record state {
  memory = record {
    highest_proposal_id = 7;
    proposal_memory = (7, voted) ∷ [];
    gov_unreadable_proposals = 0;
  };
  last_success = some (unix first_cycle);
}

abbrev vote_end : Time
vote_end = 740211 * day

remembering-Remembers : Remembers 7 voted remembering.memory
unfolding Dict.lookup nat_eq
remembering-Remembers = record { known = refl; keys = (refl, tt) }

voted-Voting : Voting voted vote_end (lifespan_read hiding_answers)
unfolding parse_time validator_health_collect.Governance.Proposal.earliest_of
    validator_health_collect.Go.Time.year_le_one
    validator_health_collect.Queries.Params.query_gov_params
    validator_health_collect.Queries.Params.lifespan_of
    validator_health_collect.Go.Duration.parse_positive_duration
    validator_health_collect.Queries.Params.longest_voting
voted-Voting = record { open_status = refl; ends = refl; fits = omega arith }

second_cycle-Hiding : Hiding settings 7 voted vote_end hiding_answers (first_cycle + 2 * hour)
second_cycle-Hiding = record {
  hidden = λ cutoff lifespan known scan e.
      subst (Hides 7) (ok-injective hidden_scan scan e)
        (record { unread = inl refl; undecoded = refl });
  voting = voted-Voting;
  early = omega arith;
}

abbrev after : CollectorState ℕ
after = (collect_snapshot settings hiding_answers (first_cycle + 2 * hour) remembering).0

one_turn :
    Runs settings hour
      (Hiding settings 7 voted vote_end)
      first_cycle
      remembering
      (first_cycle + 2 * hour)
      after
unfolding next_aligned_run truncate
one_turn =
    turn started hiding_answers (first_cycle + hour) (first_cycle + 2 * hour) second_cycle-Hiding
      (omega arith) (omega arith)

Runs-Hiding_example :
    Remembers 7 voted after.memory × (after.last_success ≡ remembering.last_success)
Runs-Hiding_example =
    Runs-Hiding settings 7 voted vote_end hour first_cycle remembering (first_cycle + 2 * hour)
      after remembering-Remembers one_turn

Runs-Advances_example :
    (first_cycle ≤ first_cycle + 2 * hour)
    × IsUpTo after.last_success (some (unix (first_cycle + 2 * hour)))
    × IsUpTo remembering.last_success after.last_success
Runs-Advances_example =
    Runs-Advances settings hour (Hiding settings 7 voted vote_end) first_cycle remembering
      (first_cycle + 2 * hour) after (omega arith) (omega arith) (omega arith) one_turn

process-AllWhole_example :
    AllWhole settings (collect_snapshot settings answers first_cycle (new resolver)).0.governance
process-AllWhole_example =
    process-AllWhole settings hour (Hiding settings 7 voted vote_end) resolver answers first_cycle
      first_cycle (collect_snapshot settings answers first_cycle (new resolver)).0 started
