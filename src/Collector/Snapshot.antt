-- ===== src/Collector/Snapshot.antt =====
-- `CollectSnapshot` of collector/collector.go: one cycle, on the state of the collector and the answers of
-- the nodes. A cycle reads the clock once.
pub mod Outcome
pub mod FailClosed
pub mod Success
pub mod Recorded
use validator_health_collect.Base.{
  ℕ, String, Bool, true, false, Option, none, some, List, [], ◌∷◌, length, if◌then◌else◌,
}
use validator_health_collect.Base.Dict.{Dict}
use validator_health_collect.Base.Float.{Float64}
use validator_health_collect.Base.Results.{Result, ok, err}
use validator_health_collect.Go.Time.{Time, unix}
use validator_health_collect.Validators.{Validator}
use validator_health_collect.Governance.Gauges.{GovernanceGauges, retire_live_proposal_series}
use validator_health_collect.Queries.Consensus.{query_comet_status, measure_block_time}
use validator_health_collect.Queries.Params.{
  GovParams, SlashingParams, query_staking_pool, query_upgrade_plan,
}
use validator_health_collect.Collector.Resolving.{Clients, resolve_endpoints}
use validator_health_collect.Collector.Concentration.{
  sum_tokens, entities_of, share_by_entity, publish_concentration, sort_validators,
}
use validator_health_collect.Collector.Signing.{publish_signing}
use validator_health_collect.Collector.State.{
  Settings, CollectorState, Answers, SnapshotError, no_endpoint, staking_failed,
  consensus_set_failed, empty_consensus_set, governance_failed,
}
use validator_health_collect.Collector.Stages.{
  Reading, ok_or, ok_value, active_set, operators, set_query_success, on_status, on_pool,
  read_governance, slashing_of, block_interval_of, set_remaining, set_upgrade, analysis_stage,
  governance_ok,
}

abbrev veto_of : {W : Type 0} → Option (GovParams W) → Option W
veto_of none = none
veto_of (some p) = some p.veto_threshold

module _ {W : Type 0} ⦃f : Float64 W⦄ (cfg : Settings) (a : Answers W) (now : Time) where
  -- The metrics of validators and entities, once the slashing parameters are known: `validators` are the
  -- active ones.
  unfoldable pub publish_sections :
      Reading W → SlashingParams W → List Validator → CollectorState W → CollectorState W
  publish_sections reading slashing active s =
      let interval = block_interval_of s.last_block_time (measure_block_time a.block 2000) in
      let validators = sort_validators W active in
      let entities = entities_of cfg.entity_map validators in
      let share = share_by_entity (sum_tokens (f.of_nat 0) validators) entities [] in
      let governance : GovernanceGauges W = record s.governance {
        seconds_remaining = set_remaining now reading.active s.governance.seconds_remaining;
      } in
      record s {
        last_slashing_params = some slashing;
        last_block_time = interval;
        active_validators = some (length validators);
        concentration =
            publish_concentration cfg.entity_map validators (veto_of reading.params)
              s.concentration;
        governance = governance;
        signing =
            publish_signing cfg.codec cfg.entity_map share slashing interval validators
              (ok_or [] a.signing_infos) s.signing;
        upgrade_height =
            set_upgrade (ok_value (query_upgrade_plan a.upgrade_plan)) s.upgrade_height;
        first_run = false;
        prev_validators = operators validators [];
      }

  -- The analysis of the proposals and the end of the cycle.
  unfoldable pub finish :
      Reading W
      → List Validator
      → W
      → CollectorState W
      → CollectorState W × Result SnapshotError (Unit {0})
  finish reading active bonded s =
      let (governance, analysis_failed) =
        analysis_stage cfg a reading (sort_validators W active) bonded s.governance in
      let good = governance_ok reading analysis_failed in
      let s' : CollectorState W = record s {
        governance = governance;
        section_success = some good;
      } in
      if good
      then (record s' { last_success = some (unix now) }, ok tt)
      else (s', err governance_failed)

  -- From the pool on, with the validators that are active. Without slashing parameters the cycle ends
  -- here, with no error.
  unfoldable pub from_pool :
      List Validator → CollectorState W → CollectorState W × Result SnapshotError (Unit {0})
  from_pool active s0 =
      let (s1, bonded) = on_pool (query_staking_pool a.staking_pool) s0 in
      let (s2, reading) = read_governance cfg a now s1 in
      elim (slashing_of cfg a s2) [
        | none ↦ (s2, ok tt)
        | some slashing ↦ finish reading active bonded (publish_sections reading slashing active s2)
      ]

  -- The consensus set.
  unfoldable pub from_consensus :
      List Validator → CollectorState W → CollectorState W × Result SnapshotError (Unit {0})
  from_consensus bonded s = elim a.consensus_set [
    | err e ↦ (set_query_success "rpc" 0 s, err (consensus_set_failed e))
    | ok set ↦ elim set [
      | [] ↦ (s, err empty_consensus_set)
      | k ∷ ks ↦ from_pool (active_set cfg (k ∷ ks) bonded) s
    ]
  ]

  -- The status and the bonded validators.
  unfoldable pub from_status : CollectorState W → CollectorState W × Result SnapshotError (Unit {0})
  from_status s0 =
      let s = on_status (query_comet_status a.status) s0 in
      elim a.bonded_validators [
        | err e ↦ (set_query_success "rest" 0 s, err (staking_failed e))
        | ok bonded ↦ from_consensus bonded (set_query_success "rest" 1 s)
      ]

  unfoldable pub collect_snapshot :
      CollectorState W → CollectorState W × Result SnapshotError (Unit {0})
  collect_snapshot s =
      let (clients, failure) = resolve_endpoints a.servers a.registry s.clients now in
      let s' : CollectorState W = record s {
        governance = retire_live_proposal_series s.governance;
        clients = clients;
      } in
      elim failure [ some e ↦ (s', err (no_endpoint e)) | none ↦ from_status s' ]
