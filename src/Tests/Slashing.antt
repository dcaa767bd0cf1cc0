-- ===== src/Tests/Slashing.antt =====
-- The theorems on slashing at concrete inputs: a ratio of 1/20 and a window of 10000 blocks.
use validator_health_collect.Base.{◌+◌, ◌-◌, ◌*◌, ◌≤◌, ◌<◌, refl, arith}
use validator_health_collect.Validators.Slashing.{
  max_missed_blocks, min_signed_blocks, round_half_up, max_missed_blocks_lem,
}

max_missed_blocks_lem_example :
    let q = 10000 - 9500 in
    (0 < 9500)
    × (9500 ≤ 10000)
    × (2 * (20 * q) ≤ 2 * (1 * 10000) + 20)
    × (2 * (1 * 10000) < 2 * (20 * q) + 20)
unfolding max_missed_blocks min_signed_blocks round_half_up
max_missed_blocks_lem_example = max_missed_blocks_lem 1 20 10000 9500 (omega arith) refl
