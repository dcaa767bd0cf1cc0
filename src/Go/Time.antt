-- ===== src/Go/Time.antt =====
-- time.Time, time.Duration and time.Parse with the layouts RFC3339 and RFC3339Nano, which accept
-- the same texts. A time is the number of nanoseconds since two days before the year 0, so that no
-- text that parses lies below 0. Durations are nanoseconds, at least 0.
use validator_health_collect.Base.{
  ℕ, zero, suc, ◌+◌, ◌-◌, ◌*◌, ◌/◌, ◌%◌, ◌^◌, ◌≡◌, refl, String, Bool, true, false, not, ◌&&◌, ◌||◌,
  Option, none, some, List, [], ◌∷◌, ltb, leb, ◌==◌, nat_eq, if◌then◌else◌,
}
use validator_health_collect.Base.Float.{Float64}
use validator_health_collect.Go.Text.{codes}
use validator_health_collect.Go.Number.{is_digit}

abbrev pub Time : Type 0
Time = ℕ

abbrev pub second : ℕ
second = 10 ^ 9

abbrev pub hour : ℕ
hour = 3600 * second

abbrev pub day : ℕ
day = 24 * hour

-- time.Time{}: 1 January of the year 1
abbrev pub zero_time : Time
zero_time = 368 * day

abbrev pub is_zero : Time → Bool
is_zero t = t == zero_time

abbrev pub before : Time → Time → Bool
before a b = ltb a b

abbrev pub after : Time → Time → Bool
after a b = ltb b a

is_leap : ℕ → Bool
unfolding nat_eq
is_leap y = y % 4 == 0 && (not (y % 100 == 0) || y % 400 == 0)

days_in : ℕ → ℕ → ℕ
unfolding is_leap nat_eq
days_in y m =
    if m == 2
    then (if is_leap y then 29 else 28)
    else (if m == 4 || m == 6 || m == 9 || m == 11 then 30 else 31)

-- The days of a year before its month `m`, `m` at least 1.
days_before : ℕ → ℕ → ℕ
unfolding days_in
days_before y zero = 0
days_before y (suc m) = days_before y m + (if m == 0 then 0 else days_in y m)

-- The days from 1 January of the year 0 to 1 January of `y`. The year 0 is a leap year.
years_days : ℕ → ℕ
years_days zero = 0
years_days (suc y) = 366 + 365 * y + y / 4 - y / 100 + y / 400

abbrev Date : Type 0
Date = ℕ × ℕ × ℕ

date_days : Date → ℕ
unfolding days_before years_days
date_days (y, m, d) = years_days y + days_before y m + (d - 1)

infixl 5 ◌>>=◌
abbrev ◌>>=◌ : {A B : Type 0} → Option A → (A → Option B) → Option B
none >>= f = none
some a >>= f = f a

abbrev Parsed : Type 0 → Type 0
Parsed A = Option (A × List ℕ)

two_digits : List ℕ → Parsed ℕ
unfolding is_digit
two_digits (a ∷ b ∷ cs) =
    if is_digit a && is_digit b then some (10 * (a - b'0') + (b - b'0'), cs) else none
two_digits _ = none

four_digits : List ℕ → Parsed ℕ
unfolding two_digits
four_digits cs = do (a, rest) ← two_digits cs; (b, rest) ← two_digits rest; some (100 * a + b, rest)

-- The hour may have one digit.
hour_digits : List ℕ → Parsed ℕ
unfolding is_digit
hour_digits [] = none
hour_digits (a ∷ []) = if is_digit a then some (a - b'0', []) else none
hour_digits (a ∷ b ∷ cs) =
    if is_digit a
    then (if is_digit b then some (10 * (a - b'0') + (b - b'0'), cs) else some (a - b'0', b ∷ cs))
    else none

expect : ℕ → List ℕ → Option (List ℕ)
unfolding nat_eq
expect c [] = none
expect c (d ∷ cs) = if c == d then some cs else none

-- The nanoseconds of a run of digits: those past the ninth are dropped.
fraction : ℕ → ℕ → List ℕ → ℕ × List ℕ
unfolding is_digit
fraction unit n [] = (n, [])
fraction unit n (c ∷ cs) =
    let rest = fraction (unit / 10) (n + (c - b'0') * (unit / 10)) cs in
    if is_digit c then rest else (n, c ∷ cs)

-- `.` or `,` and at least one digit
fraction_part : List ℕ → ℕ × List ℕ
unfolding fraction nat_eq
fraction_part (p ∷ c ∷ cs) =
    if (p == b'.' || p == b',') && is_digit c then fraction second 0 (c ∷ cs) else (0, p ∷ c ∷ cs)
fraction_part cs = (0, cs)

in_range : Bool → Option (Unit {0})
in_range true = some tt
in_range false = none

-- `Z`, or an offset from UTC: its sign and its seconds
zone : List ℕ → Option (Bool × ℕ)
unfolding two_digits expect in_range nat_eq
zone [] = none
zone (c ∷ cs) = if c == b'Z' then elim cs [ [] ↦ some (true, 0) | _ ∷ _ ↦ none ] else do
  (h, rest) ← two_digits cs
  rest ← expect b':' rest
  (m, rest) ← two_digits rest
  _ ← in_range ((c == b'+' || c == b'-') && leb h 24 && leb m 60)
  elim rest [ [] ↦ some (c == b'+', 3600 * h + 60 * m) | _ ∷ _ ↦ none ]

parse_date : List ℕ → Parsed Date
unfolding four_digits two_digits expect in_range days_in
parse_date cs = do
  (y, rest) ← four_digits cs
  rest ← expect b'-' rest
  (m, rest) ← two_digits rest
  rest ← expect b'-' rest
  (d, rest) ← two_digits rest
  _ ← in_range (leb 1 m && leb m 12 && leb 1 d && leb d (days_in y m))
  some ((y, m, d), rest)

parse_clock : List ℕ → Parsed ℕ
unfolding hour_digits two_digits expect in_range
parse_clock cs = do
  (h, rest) ← hour_digits cs
  rest ← expect b':' rest
  (m, rest) ← two_digits rest
  rest ← expect b':' rest
  (s, rest) ← two_digits rest
  _ ← in_range (ltb h 24 && ltb m 60 && ltb s 60)
  some (3600 * h + 60 * m + s, rest)

parse_codes : List ℕ → Option Time
unfolding parse_date parse_clock fraction_part zone date_days
parse_codes cs = do
  (date, rest) ← parse_date cs
  rest ← expect b'T' rest
  (clock, rest) ← parse_clock rest
  let (nanos, rest) = fraction_part rest
  (east, offset) ← zone rest
  let utc = (2 + date_days date) * day + clock * second + nanos
  some (if east then utc - offset * second else utc + offset * second)

unfoldable pub parse_time : String → Option Time
unfolding parse_codes
parse_time s = parse_codes (codes s)

-- 1970
abbrev pub epoch : Time
epoch = 719530 * day

-- t.Unix(), for times from 1970 on
unfoldable pub unix : Time → ℕ
unix t = (t - epoch) / second

-- float64(t.Unix()), which is negative before 1970 and rounds down
unfoldable pub unix_seconds : {W : Type 0} ⦃f : Float64 W⦄ → Time → W
unix_seconds ⦃f⦄ t =
    if ltb t epoch
    then f.sub (f.of_nat 0) (f.of_nat ((epoch - t + (second - 1)) / second))
    else f.of_nat (unix t)

-- t.Year() <= 1 for the time that a text parses to: its year is the one that is written, in the zone of
-- the text.
unfoldable pub year_le_one : String → Bool
unfolding parse_date
year_le_one s = elim (parse_date (codes s)) [ none ↦ true | some ((y, _, _), _) ↦ leb y 1 ]

unix_at : String → Option ℕ
unfolding parse_time unix
unix_at s = do t ← parse_time s; some (unix t)

dates :
    (unix_at "1970-01-01T00:00:00Z" ≡ some 0)
    × (unix_at "2026-08-17T12:34:56.789+02:00" ≡ some 1786962896)
    × (unix_at "2024-02-29T00:00:00Z" ≡ some 1709164800)
    × (unix_at "2023-02-29T00:00:00Z" ≡ none)
    × (unix_at "2023-02-28 00:00:00Z" ≡ none)
    × (parse_time "0001-01-01T00:00:00Z" ≡ some zero_time)
unfolding unix_at
dates = (refl, refl, refl, refl, refl, refl)
