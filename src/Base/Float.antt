-- ===== src/Base/Float.antt =====
-- float64 and what the collector computes with it. The operations round, and a value may be NaN,
-- so no law of numbers is taken for granted.
use Prim.Native.Nat.{ℕ}
use mathlib.Core.Bool.{Bool}
use mathlib.Core.Option.{Option}
use Prim.Native.String.{String}

pub record Float64 (W : Type 0) : Type 0 where
  -- float64(n), and the literal num / den
  pub of_nat : ℕ → W
  pub ratio : ℕ → ℕ → W
  pub add : W → W → W
  pub sub : W → W → W
  pub mul : W → W → W
  pub div : W → W → W
  -- a <= b and a < b
  pub le : W → W → Bool
  pub lt : W → W → Bool
  pub is_nan : W → Bool
  pub is_inf : W → Bool
  -- strconv.ParseFloat, and the value that it returns where the caller drops its error
  pub parse : String → Option W
  pub parse_value : String → W
