-- ===== src/Go/Duration.antt =====
-- time.ParseDuration and Duration.Seconds. A fraction of a unit is rounded down, where the library
-- goes by way of float64.
use validator_health_collect.Base.{
  ℕ, zero, suc, ◌+◌, ◌-◌, ◌*◌, ◌/◌, ◌%◌, ◌^◌, ◌≡◌, refl, String, Bool, true, false, not, ◌||◌,
  Option, none, some, List, [], ◌∷◌, ltb, leb, length, ◌==◌, nat_eq, if◌then◌else◌,
}
use validator_health_collect.Base.Float.{Float64}
use validator_health_collect.Go.Text.{codes}
use validator_health_collect.Go.Number.{is_digit}
use validator_health_collect.Go.Time.{second, hour}

abbrev pub minute : ℕ
minute = 60 * second

-- A run of digits: whether there is one, its value after `n`, and what follows.
leading_int : Bool → ℕ → List ℕ → Bool × ℕ × List ℕ
unfolding is_digit
leading_int found n [] = (found, n, [])
leading_int found n (c ∷ cs) =
    let rest = leading_int true (10 * n + (c - b'0')) cs in
    if is_digit c then rest else (found, n, c ∷ cs)

-- The same behind a point, with the scale: the value is `n` out of `scale`.
leading_fraction : Bool → ℕ → ℕ → List ℕ → Bool × ℕ × ℕ × List ℕ
unfolding is_digit
leading_fraction found n scale [] = (found, n, scale, [])
leading_fraction found n scale (c ∷ cs) =
    let rest = leading_fraction true (10 * n + (c - b'0')) (10 * scale) cs in
    if is_digit c then rest else (found, n, scale, c ∷ cs)

fraction_behind : List ℕ → Bool × ℕ × ℕ × List ℕ
unfolding leading_fraction nat_eq
fraction_behind [] = (false, 0, 1, [])
fraction_behind (c ∷ cs) =
    if c == b'.' then leading_fraction false 0 1 cs else (false, 0, 1, c ∷ cs)

-- The name of a unit ends at a point or a digit.
unit_name : List ℕ → List ℕ × List ℕ
unfolding is_digit nat_eq
unit_name [] = ([], [])
unit_name (c ∷ cs) =
    let (name, rest) = unit_name cs in
    if c == b'.' || is_digit c then ([], c ∷ cs) else (c ∷ name, rest)

-- `µs` has either of two code points.
unit_of : List ℕ → Option ℕ
unfolding nat_eq
unit_of (c ∷ []) =
    if c == b's'
    then some second
    else (if c == b'm' then some minute else (if c == b'h' then some hour else none))
unit_of (c ∷ d ∷ []) =
    if not (d == b's')
    then none
    else (if c == b'n'
        then some 1
        else (if c == b'u' || c == 181 || c == 956
            then some 1000
            else (if c == b'm' then some 1000000 else none)))
unit_of cs = none

-- The parts `12.5s` of a duration, after those that make `d`. Each takes one character at least.
parts : ℕ → ℕ → List ℕ → Option ℕ
unfolding leading_int fraction_behind unit_name unit_of
parts zero d cs = none
parts (suc fuel) d [] = some d
parts (suc fuel) d (c ∷ cs) =
    let (pre, v, rest) = leading_int false 0 (c ∷ cs) in
    let (post, f, scale, rest') = fraction_behind rest in
    let (name, more) = unit_name rest' in
    elim (unit_of name) [
      | none ↦ none
      | some unit ↦ elim (not (pre || post) || ltb (2 ^ 63) (v * unit + f * unit / scale + d)) [
        | true ↦ none
        | false ↦ parts fuel (d + v * unit + f * unit / scale) more
      ]
    ]

-- A duration above zero; `none` is an error, or a duration that is not above zero.
positive_parts : List ℕ → Option ℕ
unfolding parts nat_eq
positive_parts [] = none
positive_parts (c ∷ cs) =
    if c == b'-'
    then none
    else (let digits = if c == b'+' then cs else c ∷ cs in
        elim digits [
          | [] ↦ none
          | a ∷ as' ↦ elim (parts (suc (suc (length cs))) 0 (a ∷ as')) [
            | none ↦ none
            | some d ↦ if d == 0 || leb (2 ^ 63) d then none else some d
          ]
        ])

-- `d, err := time.ParseDuration(s)` with the test `err == nil && d > 0`
unfoldable pub parse_positive_duration : String → Option ℕ
unfolding positive_parts
parse_positive_duration s = positive_parts (codes s)

-- d.Seconds(), for a duration that is not negative
module _ {W : Type 0} ⦃f : Float64 W⦄ where
  unfoldable pub seconds : ℕ → W
  seconds d = f.add (f.of_nat (d / second)) (f.div (f.of_nat (d % second)) (f.of_nat 1000000000))

durations :
    (parse_positive_duration "172800s" ≡ some (48 * hour))
    × (parse_positive_duration "1h30m" ≡ some (90 * minute))
    × (parse_positive_duration "1.5s" ≡ some 1500000000)
    × (parse_positive_duration "-5s" ≡ none)
    × (parse_positive_duration "0" ≡ none)
    × (parse_positive_duration "12" ≡ none)
unfolding parse_positive_duration
durations = (refl, refl, refl, refl, refl, refl)
