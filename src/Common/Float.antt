-- ===== src/Common/Float.antt =====
-- float64 as the program uses it: a type with the operations that it applies. The models take the
-- operations as an argument, so that what is proved holds of the rounding that a machine makes.
use mathlib.Core.Bool.{Bool, ◌&&◌}
use open_source.Common.Int.{ℤ, pos, negsuc, pos_part, sub_ℕ, ◌+ℤ◌, ◌-ℤ◌, mul_ℤ, leb_ℤ, ltb_ℤ}
use Prim.Native.Nat.{ℕ, zero, suc, ◌/◌, ◌+◌}
use open_source.Common.Tests.{if◌then◌else◌}
use open_source.Common.GoTime.{Duration, second}

pub record Float64 : Type 1 where
  pub Float : Type 0
  pub of_int : ℤ → Float
  pub seconds : Duration → Float  -- `d.Seconds()`
  pub plus : Float → Float → Float
  pub minus : Float → Float → Float
  pub times : Float → Float → Float
  pub fmin : Float → Float → Float  -- math.Min
  pub to_int : Float → ℤ  -- `int(x)`
  pub at_least : Float → Float → Bool  -- `>=`
  pub greater : Float → Float → Bool  -- `>`
  pub same : Float → Float → Bool  -- `==`
  pub power : Float → Float → Float  -- math.Pow
  pub divide : Float → Float → Float

-- Whole numbers, which serve to run the models: an instance with no fractions.
abbrev whole_seconds : ℤ → ℤ
whole_seconds (pos n) = pos (n / second)
whole_seconds (negsuc n) = sub_ℕ 0 ((n + 1) / second)

abbrev pow_ℤ : ℤ → ℕ → ℤ
pow_ℤ a zero = pos 1
pow_ℤ a (suc n) = mul_ℤ a (pow_ℤ a n)

abbrev pub whole : Float64
whole = record {
  Float = ℤ;
  of_int = λ n. n;
  seconds = whole_seconds;
  plus = λ a b. a +ℤ b;
  minus = λ a b. a -ℤ b;
  times = mul_ℤ;
  fmin = λ a b. if leb_ℤ a b then a else b;
  to_int = λ n. n;
  at_least = λ a b. leb_ℤ b a;
  greater = λ a b. ltb_ℤ b a;
  same = λ a b. leb_ℤ a b && leb_ℤ b a;
  power = λ a b. pow_ℤ a (pos_part b);
  divide = λ a b. sub_ℕ (pos_part a / pos_part b) 0;
}
