-- ===== src/Validators/Slashing.antt =====
-- `blocksUntilJail`, `parseMinSignedBlocks` and `QuerySlashingParams`, where the ratio is a fraction.
use native.Mathlib.Nat.{div-add-mod, mod-lt}
use validator_health_collect.Base.{
  ℕ, ◌+◌, ◌-◌, ◌*◌, ◌/◌, ◌%◌, ◌^◌, ◌≤◌, ◌<◌, ◌≡◌, Option, none, some, arith, ltb, leb, leb→le, ◌⊎◌,
  inl, inr, Bool-cases, if◌then◌else◌,
}

-- big.Rat.Num and big.Rat.Denom of a ratio that is not negative, and the rounding half up of
-- ratio * window.
unfoldable pub round_half_up : ℕ → ℕ → ℕ
round_half_up num den = if leb den (2 * (num % den)) then num / den + 1 else num / den

-- `none` is the error: a ratio above one, or a result that is no int64.
unfoldable pub min_signed_blocks : ℕ → ℕ → ℕ → Option ℕ
min_signed_blocks num den window =
    if ltb den num
    then none
    else (if ltb (round_half_up (num * window) den) (2 ^ 63)
        then some (round_half_up (num * window) den)
        else none)

-- window - minSigned; `none` is the error of a maximum that is not positive.
unfoldable pub max_missed_blocks : ℕ → ℕ → ℕ → Option ℕ
max_missed_blocks num den window =
    if leb window 0 then none else elim (min_signed_blocks num den window) [
      | none ↦ none
      | some min_signed ↦ if leb window min_signed then none else some (window - min_signed)
    ]

-- The number of further missed blocks that jail: the SDK jails once more than `max_missed` are missed.
unfoldable pub blocks_until_jail : ℕ → ℕ → ℕ
blocks_until_jail max_missed missed = max_missed + 1 - missed

round_half_up_parts :
    (num den : ℕ)
    → 0 < den
    → let q = round_half_up num den in
      (2 * (den * q) ≤ 2 * num + den) × (2 * num < 2 * (den * q) + den)
unfolding round_half_up
round_half_up_parts num den pos = elim (Bool-cases (leb den (2 * (num % den)))) [
  | inl e ↦
      rw (e, round_half_up)
        (omega (arith, leb→le den (2 * (num % den)) e, div-add-mod num den, mod-lt num pos))
  | inr e ↦
      let small : 2 * (num % den) < den = ground arith in
      rw (e, round_half_up) (omega (arith, div-add-mod num den, mod-lt num pos))
]

-- Where a ratio of at most one and a window are accepted, the least number of signed blocks is the
-- whole number nearest to their product, with a tie rounded up, it is below the window, and with the
-- greatest number of missed blocks it makes up the window.
pub max_missed_blocks_lem :
    (num den window max_missed : ℕ)
    → 0 < den
    → max_missed_blocks num den window ≡ some max_missed
    → let q = window - max_missed in
      (0 < max_missed)
      × (max_missed ≤ window)
      × (2 * (den * q) ≤ 2 * (num * window) + den)
      × (2 * (num * window) < 2 * (den * q) + den)
unfolding max_missed_blocks min_signed_blocks
max_missed_blocks_lem num den window max_missed pos e =
    ground (arith, round_half_up_parts (num * window) den pos)

-- While a validator is not over the limit, missing the reported number of further blocks puts it
-- exactly one block over what the chain allows; over the limit the number is 0.
pub blocks_until_jail_lem :
    (max_missed missed : ℕ)
    → (max_missed < missed + blocks_until_jail max_missed missed)
      × ((missed + blocks_until_jail max_missed missed ≡ max_missed + 1)
          ⊎ ((max_missed < missed) × (blocks_until_jail max_missed missed ≡ 0)))
unfolding blocks_until_jail
blocks_until_jail_lem max_missed missed = ground arith
