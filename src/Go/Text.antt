-- ===== src/Go/Text.antt =====
-- strings.TrimSpace, TrimRight, TrimPrefix, HasPrefix and ToUpper, and the order of strings.
-- ToUpper maps the ASCII letters: the collector applies it to hexadecimal digits.
use Prim.Native.Char.{Char, code}
use Prim.Native.String
use Prim.Native.String.{compare}
use text.Mathlib.Text.{is_lt}
use validator_health_collect.Base.{
  ℕ, ◌-◌, ◌≡◌, refl, String, Bool, true, false, ◌&&◌, ◌||◌, Option, none, some, List, [], ◌∷◌, leb,
  ◌==◌, nat_eq, string_eq, if◌then◌else◌,
}

-- The code points of a text. Where it is ASCII they are its bytes.
abbrev pub codes : String → List ℕ
codes String.[] = []
codes (String.◌∷◌ c s) = code c ∷ codes s

-- unicode.IsSpace
unfoldable pub is_space : ℕ → Bool
is_space c =
    (leb 9 c && leb c 13)
    || c == 0x20
    || c == 0x85
    || c == 0xa0
    || c == 0x1680
    || (leb 0x2000 c && leb c 0x200a)
    || (leb 0x2028 c && leb c 0x2029)
    || c == 0x202f
    || c == 0x205f
    || c == 0x3000

unfoldable pub trim_left_if : (ℕ → Bool) → String → String
trim_left_if p String.[] = String.[]
trim_left_if p (String.◌∷◌ c s) =
    let rest = trim_left_if p s in if p (code c) then rest else String.◌∷◌ c s

-- A character of the set goes if nothing is left behind it.
put_back : Bool → Char → String → String
put_back drop c String.[] = if drop then String.[] else String.◌∷◌ c String.[]
put_back drop c (String.◌∷◌ d s) = String.◌∷◌ c (String.◌∷◌ d s)

unfoldable pub trim_right_if : (ℕ → Bool) → String → String
unfolding put_back
trim_right_if p String.[] = String.[]
trim_right_if p (String.◌∷◌ c s) = put_back (p (code c)) c (trim_right_if p s)

unfoldable pub trim_space : String → String
unfolding trim_left_if trim_right_if is_space nat_eq
trim_space s = trim_right_if is_space (trim_left_if is_space s)

-- strings.TrimRight(s, "/")
unfoldable pub trim_right_slash : String → String
unfolding trim_right_if nat_eq
trim_right_slash = trim_right_if λ c. c == b'/'

-- The rest of `s` behind `prefix`, if `s` has it.
unfoldable pub cut_prefix : String → String → Option String
unfolding nat_eq
cut_prefix s String.[] = some s
cut_prefix String.[] (String.◌∷◌ d prefix) = none
cut_prefix (String.◌∷◌ c s) (String.◌∷◌ d prefix) =
    if code c == code d then cut_prefix s prefix else none

unfoldable pub has_prefix : String → String → Bool
unfolding cut_prefix
has_prefix s prefix = elim (cut_prefix s prefix) [ none ↦ false | some _ ↦ true ]

unfoldable pub trim_prefix : String → String → String
unfolding cut_prefix
trim_prefix s prefix = elim (cut_prefix s prefix) [ none ↦ s | some rest ↦ rest ]

upper_letter : Char → Char
upper_letter c =
    if leb b'a' (code c) && leb (code c) b'z'
    then String.char_at "ABCDEFGHIJKLMNOPQRSTUVWXYZ" (code c - b'a')
    else c

unfoldable pub to_upper : String → String
unfolding upper_letter
to_upper String.[] = String.[]
to_upper (String.◌∷◌ c s) = String.◌∷◌ (upper_letter c) (to_upper s)

-- `s < t`, the order of the bytes
abbrev pub str_lt : String → String → Bool
str_lt s t = is_lt (compare s t)

trims : trim_right_slash (trim_space " https://a.b// ") ≡ "https://a.b"
unfolding trim_space trim_right_slash
trims = refl

uppers : to_upper "0aFz" ≡ "0AFZ"
unfolding to_upper
uppers = refl

cuts :
    (trim_prefix "VOTE_OPTION_YES" "VOTE_OPTION_" ≡ "YES")
    × (has_prefix "http://a" "https://" ≡ false)
unfolding trim_prefix has_prefix
cuts = (refl, refl)
