-- ===== src/Governance/Gauges.antt =====
-- The governance gauges of collector/collector.go, with `resetProposalAnalysisSeries` and
-- `retireLiveProposalSeries`. A gauge with labels is a map from the labels to its value; `Reset`
-- empties it.
use validator_health_collect.Base.{String, []}
use validator_health_collect.Base.Dict.{Dict}

-- The gauges, by the labels of each.
pub record GovernanceGauges (W : Type 0) : Type 0 where
  pub proposal_live : Dict String W
  pub seconds_remaining : Dict String W
  pub turnout : Dict String W
  pub live_quorum : Dict String W
  pub proposal_info : Dict (String × (String × (String × String))) W
  pub proposal_quorum : Dict String W
  pub proposal_tally : Dict (String × String) W
  pub entity_vote : Dict (String × (String × String)) W
  pub proposal_veto_ratio : Dict String W
  pub proposal_quorum_met : Dict String W
  pub proposal_veto_state : Dict String W
  pub entity_veto_capability : Dict (String × (String × String)) W
  pub non_voter_power : Dict (String × String) W
  pub window : Dict (String × String) W
  pub participation_count : Dict (String × String) W
  pub attribution_complete : Dict String W
  pub quorum_buffer : Dict String W
  pub quorum_target : Dict String W

unfoldable pub no_gauges : {W : Type 0} → GovernanceGauges W
no_gauges = record {
  proposal_live = [];
  seconds_remaining = [];
  turnout = [];
  live_quorum = [];
  proposal_info = [];
  proposal_quorum = [];
  proposal_tally = [];
  entity_vote = [];
  proposal_veto_ratio = [];
  proposal_quorum_met = [];
  proposal_veto_state = [];
  entity_veto_capability = [];
  non_voter_power = [];
  window = [];
  participation_count = [];
  attribution_complete = [];
  quorum_buffer = [];
  quorum_target = [];
}

unfoldable pub retire_live_proposal_series : {W : Type 0} → GovernanceGauges W → GovernanceGauges W
retire_live_proposal_series g = record g {
  proposal_live = [];
  seconds_remaining = [];
  turnout = [];
  live_quorum = [];
}

-- It empties every gauge of the record.
unfoldable pub reset_proposal_analysis_series :
    {W : Type 0} → GovernanceGauges W → GovernanceGauges W
reset_proposal_analysis_series g = no_gauges
