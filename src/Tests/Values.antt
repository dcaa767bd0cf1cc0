-- ===== src/Tests/Values.antt =====
-- Data shared by the examples: float64 values that are whole numbers, a codec that does nothing, and
-- validators.
use validator_health_collect.Base.{
  ℕ, ◌+◌, ◌-◌, ◌*◌, ◌/◌, String, false, Option, none, some, [], ltb, leb,
}
use validator_health_collect.Base.Float.{Float64}
use validator_health_collect.Go.Number.{parse_uint}
use validator_health_collect.Address.{Codec}
use validator_health_collect.Validators.{Validator}

abbrev pub value_or_zero : Option ℕ → ℕ
value_or_zero none = 0
value_or_zero (some n) = n

-- Shares are whole percents here: `div` is a share of its second argument.
instance abbrev pub percents : Float64 ℕ
percents = record {
  of_nat = λ n. n;
  ratio = λ a b. a;
  add = λ a b. a + b;
  sub = λ a b. a - b;
  mul = λ a b. a * b;
  div = λ a b. 100 * a / b;
  le = leb;
  lt = ltb;
  is_nan = λ a. false;
  is_inf = λ a. false;
  parse = parse_uint;
  parse_value = λ s. value_or_zero (parse_uint s);
}

-- Groups of bits and bytes are the same, and no address has a checksum.
abbrev pub plain : Codec
plain = record {
  convert_bits = λ d from to pad. some d;
  bech32_encode = λ hrp d. some hrp;
  bech32_decode = λ a. some (a, []);
  sha256 = λ d. d;
  base64_decode = λ s. some [];
  hex_encode = λ d. "";
}

abbrev pub validator : String → String → Validator
validator operator tokens = record {
  operator_address = operator;
  consensus_pub_key = none;
  jailed = false;
  status = "BOND_STATUS_BONDED";
  tokens = tokens;
  moniker = "node";
  commission_rate = "0.05";
}
