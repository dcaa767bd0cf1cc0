-- ===== src/Go/Number.antt =====
-- strconv.ParseUint(s, 10, 64), strconv.ParseInt(s, 10, 64) and strconv.Atoi. FormatUint(n, 10).
use validator_health_collect.Base.{
  ℕ, zero, suc, ◌+◌, ◌-◌, ◌*◌, ◌/◌, ◌%◌, ◌^◌, ◌≡◌, refl, String, ◌<>◌, Bool, ◌&&◌, Option, none,
  some, List, [], ◌∷◌, ltb, leb, ◌==◌, nat_eq, if◌then◌else◌,
}
use Prim.Native.String
use validator_health_collect.Go.Text.{codes}

unfoldable pub is_digit : ℕ → Bool
is_digit c = leb b'0' c && leb c b'9'

-- The value of a run of digits, after `n`.
unfoldable pub digits_value : ℕ → List ℕ → Option ℕ
unfolding is_digit
digits_value n [] = some n
digits_value n (c ∷ cs) =
    let rest = digits_value (10 * n + (c - b'0')) cs in if is_digit c then rest else none

-- A text with no digit is an error, and so is a value out of range.
unfoldable pub parse_below : ℕ → List ℕ → Option ℕ
unfolding digits_value
parse_below bound [] = none
parse_below bound (c ∷ cs) = elim (digits_value 0 (c ∷ cs)) [
  | none ↦ none
  | some n ↦ if ltb n bound then some n else none
]

unfoldable pub parse_uint : String → Option ℕ
unfolding parse_below
parse_uint s = parse_below (2 ^ 64) (codes s)

-- int64; `negative n` is -n.
pub data Int64 : Type 0 where
  nonneg : ℕ → Int64
  negative : ℕ → Int64

parse_signed : List ℕ → Option Int64
unfolding parse_below nat_eq
parse_signed [] = none
parse_signed (c ∷ cs) =
    if c == b'-'
    then elim (parse_below (2 ^ 63 + 1) cs) [
      | none ↦ none
      | some n ↦ some (if n == 0 then nonneg 0 else negative n)
    ]
    else elim (parse_below (2 ^ 63) (if c == b'+' then cs else c ∷ cs)) [
      | none ↦ none
      | some n ↦ some (nonneg n)
    ]

unfoldable pub parse_int : String → Option Int64
unfolding parse_signed
parse_int s = parse_signed (codes s)

-- The value of a run of digits where the error of a value out of range is dropped: it is the largest
-- there is, and the digits behind the one that leaves the range are not read.
clamped : ℕ → List ℕ → Option ℕ
unfolding is_digit
clamped n [] = some n
clamped n (c ∷ cs) =
    let next = 10 * n + (c - b'0') in
    let rest = clamped next cs in
    if is_digit c then (if ltb next (2 ^ 64) then rest else some (2 ^ 64 - 1)) else none

clamped_digits : List ℕ → ℕ
unfolding clamped
clamped_digits [] = 0
clamped_digits (c ∷ cs) = elim (clamped 0 (c ∷ cs)) [ none ↦ 0 | some n ↦ n ]

at_most_max : ℕ → Int64
at_most_max n = nonneg (if ltb n (2 ^ 63) then n else 2 ^ 63 - 1)

signed_value : List ℕ → Int64
unfolding clamped_digits at_most_max nat_eq
signed_value [] = nonneg 0
signed_value (c ∷ cs) =
    if c == b'-'
    then (let n = clamped_digits cs in
        if n == 0 then nonneg 0 else negative (if ltb (2 ^ 63) n then 2 ^ 63 else n))
    else at_most_max (clamped_digits (if c == b'+' then cs else c ∷ cs))

-- The value of strconv.ParseInt where the caller drops its error
unfoldable pub parse_int_value : String → Int64
unfolding signed_value
parse_int_value s = signed_value (codes s)

-- parse_int where the caller refuses what is below zero
unfoldable pub parse_nonneg : String → Option ℕ
unfolding parse_int
parse_nonneg s = elim (parse_int s) [
  | none ↦ none
  | some v ↦ elim v [ nonneg n ↦ some n | negative n ↦ none ]
]

parses :
    (parse_uint "18446744073709551615" ≡ some 18446744073709551615)
    × (parse_uint "18446744073709551616" ≡ none)
    × (parse_uint "" ≡ none)
    × (parse_uint "12a" ≡ none)
    × (parse_int "-5" ≡ some (negative 5))
    × (parse_nonneg "+7" ≡ some 7)
    × (parse_int_value "99999999999999999999" ≡ nonneg (2 ^ 63 - 1))
    × (parse_int_value "x" ≡ nonneg 0)
unfolding parse_uint parse_nonneg parse_int_value
parses = (refl, refl, refl, refl, refl, refl, refl, refl)

-- The decimal digits of `n`, before `rest`; a number has fewer digits than the fuel.
digits_of : ℕ → ℕ → String → String
unfolding nat_eq
digits_of zero n rest = rest
digits_of (suc fuel) n rest =
    let text = String.slice "0123456789" (n % 10) (n % 10 + 1) <> rest in
    let more = digits_of fuel (n / 10) text in if n / 10 == 0 then text else more

-- The `%d` of a number below 10 ^ 20.
unfoldable pub format_nat : ℕ → String
unfolding digits_of
format_nat n = digits_of 20 n ""

formats : (format_nat 0 ≡ "0") × (format_nat 1203 ≡ "1203")
unfolding format_nat
formats = (refl, refl)
