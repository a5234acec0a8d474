-- ===== src/Values/Math.antt =====
-- libs/joda/core/modules/query/values/include/joda/query/values: UnaryNumberProvider.h and
-- BinaryNumberProvider.h, on the values of their parameters. The functions of doubles and the
-- conversions to double are the parameter `DoubleMath`. Signed overflow is undefined: `none`.
use joda.Base.{
  ℕ, ◌+◌, ◌-◌, ◌*◌, ◌/◌, ◌%◌, ◌^◌, ◌<◌, ◌≤◌, Option, none, some, Bool, ◌&&◌, ◌≡◌, if◌then◌else◌,
  ltb, ◌==◌, arith,
}
use joda.Base.Int.{
  ℤ, pos, in_int64, int_eq, ◌+ℤ◌, ◌-ℤ◌, ◌*ℤ◌, quot, rem, magnitude, sub_ℕ, is_negative,
}
use joda.Json.{Json, scalar, Scalar, null, uint64, int64, double}
use joda.Values.Eval.{Machine, is_number}
use joda.Aggregate.Count.{to_int64}

-- `AbsProvider` and so on.
pub data UnaryNumber : Type 0 where
  abs round trunc sqrt ceil floor degrees radians acos asin atan cos sin tan : UnaryNumber

pub data BinaryNumber : Type 0 where
  sum sub div prod modulo pow atan2 : BinaryNumber

pub record DoubleMath : Type 0 where
  pub apply : UnaryNumber → ℕ → ℕ
  pub apply_two : BinaryNumber → ℕ → ℕ → ℕ
  -- `val < 0`, `val < -1 || val > 1`, `val == 0`, `std::isfinite`.
  pub below_zero : ℕ → Bool
  pub beyond_one : ℕ → Bool
  pub is_zero : ℕ → Bool
  pub is_finite : ℕ → Bool
  -- What the functions do to an integer argument.
  pub apply_uint64 : UnaryNumber → ℕ → ℕ
  pub apply_int64 : UnaryNumber → ℤ → ℕ
  pub apply_two_uint64 : BinaryNumber → ℕ → ℕ → ℕ
  pub apply_two_int64 : BinaryNumber → ℤ → ℤ → ℕ

-- The result of signed arithmetic.
exact : ℤ → Option Scalar
exact i = if in_int64 i then some (int64 i) else none

module _ (math : DoubleMath) where
  unary_double : UnaryNumber → ℕ → Scalar
  unary_double sqrt d = if math.below_zero d then null else double (math.apply sqrt d)
  unary_double acos d = if math.beyond_one d then null else double (math.apply acos d)
  unary_double asin d = if math.beyond_one d then null else double (math.apply asin d)
  unary_double f d = double (math.apply f d)

  unary_uint64 : UnaryNumber → ℕ → Scalar
  unary_uint64 abs n = uint64 n
  unary_uint64 round n = uint64 n
  unary_uint64 trunc n = uint64 n
  unary_uint64 ceil n = uint64 n
  unary_uint64 floor n = uint64 n
  unary_uint64 acos n = if ltb 1 n then null else double (math.apply_uint64 acos n)
  unary_uint64 asin n = if ltb 1 n then null else double (math.apply_uint64 asin n)
  unary_uint64 f n = double (math.apply_uint64 f n)

  abbrev beyond_one_int : ℤ → Bool
  beyond_one_int i = ltb 1 (magnitude i)

  unary_int64 : UnaryNumber → ℤ → Option Scalar
  unfolding exact
  unary_int64 abs i = exact (pos (magnitude i))
  unary_int64 round i = some (int64 i)
  unary_int64 trunc i = some (int64 i)
  unary_int64 ceil i = some (int64 i)
  unary_int64 floor i = some (int64 i)
  unary_int64 sqrt i = some (if is_negative i then null else double (math.apply_int64 sqrt i))
  unary_int64 acos i = some (if beyond_one_int i then null else double (math.apply_int64 acos i))
  unary_int64 asin i = some (if beyond_one_int i then null else double (math.apply_int64 asin i))
  unary_int64 f i = some (double (math.apply_int64 f i))

  finite : ℕ → Scalar
  finite res = if math.is_finite res then double res else null

  binary_double : BinaryNumber → ℕ → ℕ → Scalar
  unfolding finite
  binary_double div l r = if math.is_zero r then null else double (math.apply_two div l r)
  binary_double modulo l r = if math.is_zero r then null else double (math.apply_two modulo l r)
  binary_double pow l r = finite (math.apply_two pow l r)
  binary_double f l r = double (math.apply_two f l r)

  unfoldable pub binary_uint64 : BinaryNumber → ℕ → ℕ → Scalar
  unfolding finite
  binary_uint64 sum l r = uint64 ((l + r) % 2 ^ 64)
  binary_uint64 sub l r =
      let diff = (l + 2 ^ 64 - r) % 2 ^ 64 in if ltb l r then int64 (to_int64 diff) else uint64 diff
  binary_uint64 div l r = if r == 0 then null else uint64 (l / r)
  binary_uint64 prod l r = uint64 ((l * r) % 2 ^ 64)
  binary_uint64 modulo l r = if r == 0 then null else uint64 (l % r)
  binary_uint64 pow l r = finite (math.apply_two_uint64 pow l r)
  binary_uint64 atan2 l r = double (math.apply_two_uint64 atan2 l r)

  abbrev unless_zero : ℤ → Option Scalar → Option Scalar
  unless_zero r o = if int_eq r (pos 0) then some null else o

  unfoldable pub binary_int64 : BinaryNumber → ℤ → ℤ → Option Scalar
  unfolding finite exact
  binary_int64 sum l r = exact (l +ℤ r)
  binary_int64 sub l r = exact (l -ℤ r)
  binary_int64 div l r = unless_zero r (exact (quot l r))
  binary_int64 prod l r = exact (l *ℤ r)
  -- It is undefined where the quotient is.
  binary_int64 modulo l r =
      unless_zero r (if in_int64 (quot l r) then some (int64 (rem l r)) else none)
  binary_int64 pow l r = some (finite (math.apply_two_int64 pow l r))
  binary_int64 atan2 l r = some (double (math.apply_two_int64 atan2 l r))

  module _ (machine : Machine) where
    unary_number : UnaryNumber → Scalar → Option Scalar
    unfolding unary_double unary_uint64 unary_int64
    unary_number f x = elim (machine.get_uint64 x) [
      | some n ↦ some (unary_uint64 f n)
      | none ↦ elim (machine.get_int64 x) [
        | some i ↦ unary_int64 f i
        | none ↦ some (unary_double f (machine.get_double x))
      ]
    ]

    abbrev to_json : Option Scalar → Option Json
    to_json none = none
    to_json (some x) = some (scalar x)

    -- `UnaryNumberProvider::getAtomValue`
    unfoldable pub unary_number_value : UnaryNumber → Option Json → Option Json
    unfolding unary_number
    unary_number_value f (some (scalar x)) =
        if is_number x then to_json (unary_number f x) else some (scalar null)
    unary_number_value f _ = some (scalar null)

    doubles : BinaryNumber → Scalar → Scalar → Option Scalar
    unfolding binary_double
    doubles f x y = some (binary_double f (machine.get_double x) (machine.get_double y))

    signed_numbers : BinaryNumber → Scalar → Scalar → Option Scalar
    unfolding binary_int64 doubles
    signed_numbers f x y = elim (machine.get_int64 x) [
      | none ↦ doubles f x y
      | some l ↦ elim (machine.get_int64 y) [ none ↦ doubles f x y | some r ↦ binary_int64 f l r ]
    ]

    binary_number : BinaryNumber → Scalar → Scalar → Option Scalar
    unfolding binary_uint64 signed_numbers
    binary_number f x y = elim (machine.get_uint64 x) [
      | none ↦ signed_numbers f x y
      | some l ↦ elim (machine.get_uint64 y) [
        | none ↦ signed_numbers f x y
        | some r ↦ some (binary_uint64 f l r)
      ]
    ]

    -- `BinaryNumberProvider::getAtomValue`
    unfoldable pub binary_number_value : BinaryNumber → Option Json → Option Json → Option Json
    unfolding binary_number
    binary_number_value f (some (scalar x)) (some (scalar y)) =
        if is_number x && is_number y then to_json (binary_number f x y) else some (scalar null)
    binary_number_value f _ _ = some (scalar null)

  -- For every two `uint64_t` whose difference is at least -2^63, SUB gives their difference: as an
  -- `int64_t` when it is negative and as a `uint64_t` otherwise.
  pub binary_uint64-sub :
      (l r : ℕ)
      → l < 2 ^ 64
      → r < 2 ^ 64
      → r ≤ l + 2 ^ 63
      → binary_uint64 sub l r ≡ (if ltb l r then int64 (sub_ℕ l r) else uint64 (l - r))
  unfolding binary_uint64
  binary_uint64-sub l r hl hr h = ground arith
