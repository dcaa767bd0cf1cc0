-- ===== src/Managed/Collect.antt =====
-- `collect` of collector/managed_delegation.go, with `queryRecentCommits` and `loadOptionalRewards`.
pub mod Operators
pub mod Covers
use validator_health_collect.Base.{
  ℕ, zero, suc, ◌+◌, ◌-◌, String, Bool, true, false, not, ◌&&◌, ◌||◌, Option, none, some, List, [],
  ◌∷◌, ltb, ◌==◌, string_eq, nat_eq, if◌then◌else◌,
}
use validator_health_collect.Base.Dict
use validator_health_collect.Base.Dict.{Dict}
use validator_health_collect.Base.Float.{Float64}
use validator_health_collect.Base.Results.{Result, ok, err, ◌>>=◌, refuse, or_fail}
use validator_health_collect.Base.Sort.{sort_by}
use validator_health_collect.Go.Text.{str_lt}
use validator_health_collect.Go.Time.{Time, after, parse_time, zero_time}
use validator_health_collect.Address.{
  AddressError, consensus_address_from_pub_key, consensus_hex_from_pub_key,
}
use validator_health_collect.Validators.{Validator, pub_key_of}
use validator_health_collect.Governance.Analysis.{entity_or_moniker, by_operator}
use validator_health_collect.Queries.{QueryError, parse_uatom, parse_ratio}
use validator_health_collect.Queries.Consensus.{
  query_comet_status, query_commit_signers, measure_block_time,
}
use validator_health_collect.Queries.Params.{
  SlashingParams, query_slashing_params, query_annual_provisions, query_community_tax,
  query_staking_pool,
}
use validator_health_collect.Collector.Signing.{SigningInfo}
use validator_health_collect.Managed.{
  AccountPosition, AccountValidator, SampledCommit, ManagedAggregate, Rewards, ManagedScanResult,
  Settings, Answers, ManagedError, accounts_failed, empty_consensus_set, empty_operator,
  absent_validator, no_address, invalid_missed_blocks, invalid_jailed_until, below_sample_size,
  no_block_interval, query_failed,
}
use validator_health_collect.Managed.Positions.{
  Gathered, gather, Builder, build, Locks, locks_of, no_locks,
}

abbrev pub asked : {A : Type 0} → Result QueryError A → Result ManagedError A
asked (ok a) = ok a
asked (err e) = err (query_failed e)

abbrev pub found : {A : Type 0} → Result AddressError A → Result ManagedError A
found (ok a) = ok a
found (err e) = err no_address

abbrev pub is_nil : {A : Type 0} → List A → Bool
is_nil [] = true
is_nil (a ∷ as') = false

unfoldable pub some_unnamed : List Validator → Bool
some_unnamed [] = false
some_unnamed (v ∷ vs) = v.operator_address == "" || some_unnamed vs

unfoldable pub signing_by_consensus :
    List SigningInfo → Dict String SigningInfo → Dict String SigningInfo
signing_by_consensus [] d = d
signing_by_consensus (i ∷ is) d = signing_by_consensus is (Dict.insert i.address i d)

-- A time that is not given is no error, and jails nobody.
unfoldable pub jailed_at : String → Time → Result ManagedError Bool
jailed_at raw now = if raw == "" then ok false else elim (parse_time raw) [
  | none ↦ err invalid_jailed_until
  | some until ↦ ok (after until now)
]

-- The samples in which a validator was eligible, and those of them that it has not signed.
unfoldable pub eligible_in : String → List SampledCommit → ℕ
eligible_in hex [] = 0
eligible_in hex (c ∷ cs) =
    let rest = eligible_in hex cs in if Dict.lookup_or false hex c.eligible then suc rest else rest

unfoldable pub missed_in : String → List SampledCommit → ℕ
missed_in hex [] = 0
missed_in hex (c ∷ cs) =
    let rest = missed_in hex cs in
    if Dict.lookup_or false hex c.eligible && not (Dict.lookup_or false hex c.signers)
    then suc rest
    else rest

module _ {W : Type 0} ⦃f : Float64 W⦄ where
  -- The commits at a height and below.
  unfoldable pub commits_from : Answers W → ℕ → ℕ → Result ManagedError (List SampledCommit)
  commits_from a zero height = ok []
  commits_from a (suc count) height = do
    signers ← asked (query_commit_signers a.commit height)
    eligible ← asked (a.consensus_set_at height)
    rest ← commits_from a count (height - 1)
    ok (record { signers = signers; eligible = eligible } ∷ rest)

  unfoldable pub query_recent_commits : Answers W → ℕ → Result ManagedError (List SampledCommit)
  query_recent_commits a current = do
    _ ← refuse (ltb current 10) below_sample_size
    commits_from a 10 current

  -- Missed blocks, tombstoned, and jailed by the time in the record.
  unfoldable pub signing_part : Option SigningInfo → Time → Result ManagedError (W × Bool × Bool)
  signing_part none now = ok (f.of_nat 0, false, false)
  signing_part (some info) now = do
    missed ← or_fail (parse_uatom info.missed_blocks_counter) invalid_missed_blocks
    jailed ← jailed_at info.jailed_until now
    ok (missed, info.tombstoned, jailed)

  unfoldable pub miss_rate : String → List SampledCommit → W
  miss_rate hex commits =
      if eligible_in hex commits == 0
      then f.of_nat 0
      else f.div (f.of_nat (missed_in hex commits)) (f.of_nat (eligible_in hex commits))

  module _ (cfg : Settings) (now : Time) (positions : List (AccountPosition W))
      (unlocks : Dict AccountValidator Time) (validators : Dict String Validator)
      (signing : Dict String SigningInfo) (consensus_set : Dict String Bool)
      (commits : List SampledCommit) where
    -- The body of the loop over the operators.
    unfoldable pub aggregate_of : String → Builder W → Result ManagedError (ManagedAggregate W)
    aggregate_of operator (amount, names) = do
      v ← or_fail (Dict.lookup operator validators) absent_validator
      address ← found (consensus_address_from_pub_key cfg.codec (pub_key_of v))
      hex ← found (consensus_hex_from_pub_key cfg.codec (pub_key_of v))
      (missed, tombstoned, jailed) ← signing_part (Dict.lookup address signing) now
      let locks = locks_of operator unlocks positions no_locks
      ok (record {
        operator_address = operator;
        moniker = v.moniker;
        entity = entity_or_moniker cfg.entity_map operator v.moniker;
        consensus_address = address;
        accounts = sort_by str_lt (Dict.keys names);
        amount_uatom = amount;
        missed_blocks = missed;
        active = Dict.lookup_or false hex consensus_set;
        jailed = jailed || v.jailed;
        tombstoned = tombstoned;
        commission = parse_ratio v.commission_rate;
        locked_uatom = locks.locked_uatom;
        next_unlock = locks.next_unlock;
        final_unlock = locks.final_unlock;
        recent_miss_rate = miss_rate hex commits;
      })

    unfoldable pub aggregate_all :
        Dict String (Builder W) → List String → Result ManagedError (List (ManagedAggregate W))
    aggregate_all builders [] = ok []
    aggregate_all builders (operator ∷ operators) = do
      x ← aggregate_of operator (Dict.lookup_or (f.of_nat 0, []) operator builders)
      rest ← aggregate_all builders operators
      ok (x ∷ rest)

  unfoldable pub all_commissions : List (ManagedAggregate W) → Bool
  all_commissions [] = true
  all_commissions (x ∷ xs) =
      (elim x.commission [ none ↦ false | some _ ↦ true ]) && all_commissions xs

  -- A query that fails, no bonded tokens or a commission that is NaN leave the rewards out.
  unfoldable pub load_optional_rewards : Answers W → List (ManagedAggregate W) → Option (Rewards W)
  load_optional_rewards a aggregates = elim (query_annual_provisions a.annual_provisions) [
    | err e ↦ none
    | ok annual ↦ elim (query_community_tax a.community_tax) [
      | err e ↦ none
      | ok tax ↦ elim (query_staking_pool a.staking_pool) [
        | err e ↦ none
        | ok bonded ↦
            if f.le bonded (f.of_nat 0) || not (all_commissions aggregates)
            then none
            else some
                (record { annual_provisions = annual; community_tax = tax; bonded_tokens = bonded })
      ]
    ]
  ]

  unfoldable pub operators_of : List (AccountPosition W) → List String
  operators_of positions = sort_by str_lt (Dict.keys (build positions []))

  unfoldable pub collect : Settings → Answers W → Time → Result ManagedError (ManagedScanResult W)
  collect cfg a now = do
    let start : Gathered W = record {
      positions = [];
      total = f.of_nat 0;
      unlocks = [];
      failed = false;
    }
    let g = gather a cfg.accounts start
    _ ← refuse g.failed accounts_failed
    validators ← asked a.validators
    infos ← asked a.signing_infos
    slashing ← asked (query_slashing_params cfg.rational a.slashing_params)
    consensus_set ← asked a.consensus_set
    _ ← refuse (is_nil consensus_set) empty_consensus_set
    status ← asked (query_comet_status a.status)
    commits ← query_recent_commits a status.height
    interval ← asked (measure_block_time a.block 2000)
    _ ← refuse (f.le interval (f.of_nat 0)) no_block_interval
    _ ← refuse (some_unnamed validators) empty_operator
    aggregates ←
        aggregate_all cfg now g.positions g.unlocks (by_operator validators [])
          (signing_by_consensus infos []) consensus_set commits (build g.positions [])
          (operators_of g.positions)
    ok (record {
      accounts = g.positions;
      aggregates = aggregates;
      total_uatom = g.total;
      slashing = slashing;
      block_interval = interval;
      rewards = load_optional_rewards a aggregates;
    })
