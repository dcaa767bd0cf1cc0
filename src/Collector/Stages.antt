-- ===== src/Collector/Stages.antt =====
-- The stages of `CollectSnapshot`, each as a function on the state of the collector.
use validator_health_collect.Base.{
  ℕ, ◌-◌, String, Bool, true, false, not, ◌&&◌, Option, none, some, List, [], ◌∷◌, select,
  string_eq, if◌then◌else◌,
}
use validator_health_collect.Base.Dict
use validator_health_collect.Base.Dict.{Dict}
use validator_health_collect.Base.Float.{Float64}
use validator_health_collect.Base.Results.{Result, ok, err}
use validator_health_collect.Go.Time.{Time, parse_time}
use validator_health_collect.Validators.{Validator, in_consensus}
use validator_health_collect.Governance.Proposal.{Proposal, proposal_scan_floor}
use validator_health_collect.Governance.Memory.{record_proposal_scan}
use validator_health_collect.Governance.Scan.{ProposalScan, ScanError}
use validator_health_collect.Governance.Vote.{GovVote, AnalysisError, tally_failed, Tally}
use validator_health_collect.Governance.Gauges.{GovernanceGauges}
use validator_health_collect.Governance.Publish.{analyze_proposals}
use validator_health_collect.Queries.{QueryError}
use validator_health_collect.Queries.Consensus.{ChainStatus, seconds_between}
use validator_health_collect.Queries.Params.{
  GovParams, no_gov_params, query_gov_params, SlashingParams, query_slashing_params,
  UpgradePlanDetail, query_live_tally,
}
use validator_health_collect.Collector.Resolving.{Clients}
use validator_health_collect.Collector.State.{Settings, CollectorState, Answers}

-- What the governance reads of a cycle have yielded: the parameters, if they were read, the proposals,
-- if the scan succeeded, and whether an unreadable proposal may be open.
pub record Reading (W : Type 0) : Type 0 where
  pub params : Option (GovParams W)
  pub scanned : Bool
  pub active : List Proposal
  pub recent_closed : List Proposal
  pub unreadable : Bool

abbrev pub ok_or : {E A : Type 0} → A → Result E A → A
ok_or z (ok a) = a
ok_or z (err e) = z

abbrev pub is_err : {E A : Type 0} → Result E A → Bool
is_err (ok a) = false
is_err (err e) = true

abbrev pub is_cons : {A : Type 0} → List A → Bool
is_cons [] = false
is_cons (a ∷ as') = true

abbrev pub ok_value : {E A : Type 0} → Result E A → Option A
ok_value (ok a) = some a
ok_value (err e) = none

-- Of the bonded validators, those in the consensus set.
unfoldable pub active_set : Settings → Dict String Bool → List Validator → List Validator
active_set cfg set = select (in_consensus cfg.codec set)

unfoldable pub operators : List Validator → Dict String Bool → Dict String Bool
operators [] d = d
operators (v ∷ vs) d = operators vs (Dict.insert v.operator_address true d)

module _ {W : Type 0} ⦃f : Float64 W⦄ where
  unfoldable pub set_query_success : String → ℕ → CollectorState W → CollectorState W
  set_query_success kind value s =
      let clients : Clients = record s.clients {
        query_success = Dict.insert kind value s.clients.query_success;
      } in
      record s { clients = clients }

  unfoldable pub on_status : Result QueryError ChainStatus → CollectorState W → CollectorState W
  on_status (err e) s = set_query_success "rpc" 0 s
  on_status (ok status) s = record (set_query_success "rpc" 1 s) {
    block_height = some status.height;
  }

  -- A pool that cannot be read leaves the gauge, and counts as 0.
  unfoldable pub on_pool : Result QueryError W → CollectorState W → CollectorState W × W
  on_pool (err e) s = (s, f.of_nat 0)
  on_pool (ok tokens) s = (record s { bonded_tokens = some tokens }, tokens)

  unfoldable pub on_params : Result QueryError (GovParams W) → CollectorState W → CollectorState W
  on_params (err e) s = s
  on_params (ok p) s = record s { gov_veto_threshold = some p.veto_threshold }

  unfoldable pub on_scan :
      Option (GovParams W)
      → Result ScanError ProposalScan
      → Time
      → Time
      → CollectorState W
      → CollectorState W × Reading W
  on_scan params (err e) floor now s = (
    s,
    record {
      params = params;
      scanned = false;
      active = [];
      recent_closed = [];
      unreadable = false;
    },
  )
  on_scan params (ok scan) floor now s =
      let (memory, verdict) = record_proposal_scan s.memory scan floor now in
      (
        record s { memory = memory },
        record {
          params = params;
          scanned = true;
          active = scan.active;
          recent_closed = scan.recent_closed;
          unreadable = is_err verdict;
        },
      )

  unfoldable pub read_governance :
      Settings → Answers W → Time → CollectorState W → CollectorState W × Reading W
  read_governance cfg a now s =
      let params = query_gov_params a.gov_params in
      let lifespan = (ok_or no_gov_params params).proposal_lifespan in
      let cutoff = now - cfg.proposal_history_window in
      on_scan (ok_value params) (a.relevant_proposals cutoff lifespan s.memory.highest_proposal_id)
        (proposal_scan_floor cutoff lifespan) now (on_params params s)

  -- The parameters that were read, or the last ones.
  unfoldable pub slashing_of : Settings → Answers W → CollectorState W → Option (SlashingParams W)
  slashing_of cfg a s = elim (query_slashing_params cfg.rational a.slashing_params) [
    | ok p ↦ some p
    | err e ↦ s.last_slashing_params
  ]

  -- The interval that was measured, or the last one, or 6 seconds, whichever is above zero first.
  unfoldable pub block_interval_of : W → Result QueryError W → W
  block_interval_of last measured =
      let fallback = if f.le last (f.of_nat 0) then f.of_nat 6 else last in
      elim measured [
        | err e ↦ fallback
        | ok value ↦ if f.le value (f.of_nat 0) then fallback else value
      ]

  unfoldable pub set_remaining : Time → List Proposal → Dict String W → Dict String W
  set_remaining now [] d = d
  set_remaining now (p ∷ ps) d = elim (parse_time p.voting_end_time) [
    | none ↦ set_remaining now ps d
    | some end ↦
        let remaining = seconds_between end now in
        set_remaining now ps
          (Dict.insert p.id (if f.lt remaining (f.of_nat 0) then f.of_nat 0 else remaining) d)
  ]

  unfoldable pub set_upgrade : Option UpgradePlanDetail → Dict String W → Dict String W
  set_upgrade none d = d
  set_upgrade (some plan) d = Dict.insert plan.name (f.parse_value plan.height) d

  -- The two queries that the analysis of a live proposal uses.
  unfoldable pub tally_answer : Answers W → String → Result AnalysisError (Tally W)
  tally_answer a id = elim (query_live_tally (a.live_tally id)) [
    | ok t ↦ ok t
    | err e ↦ err tally_failed
  ]

  unfoldable pub votes_answer : Answers W → String → Option (Dict String (GovVote W))
  votes_answer a id = ok_value (a.proposal_votes id)

  -- The analysis runs last: the gauges, and whether it failed.
  unfoldable pub analysis_stage :
      Settings
      → Answers W
      → Reading W
      → List Validator
      → W
      → GovernanceGauges W
      → GovernanceGauges W × Bool
  analysis_stage cfg a reading validators bonded g = elim reading.params [
    | none ↦ (g, false)
    | some p ↦
        if not reading.scanned
        then (g, false)
        else (if f.lt (f.of_nat 0) bonded
            then (let (g', errors) =
                  analyze_proposals cfg.codec validators cfg.entity_map bonded p.quorum
                    p.veto_threshold (tally_answer a) (votes_answer a) reading.active
                    reading.recent_closed g in
                (g', is_cons errors))
            else (g, is_cons reading.active))
  ]

  -- Whether governance was read and analyzed without an error.
  unfoldable pub governance_ok : Reading W → Bool → Bool
  governance_ok reading analysis_failed =
      reading.scanned
      && (elim reading.params [ none ↦ false | some _ ↦ true ])
      && not reading.unreadable
      && not analysis_failed
