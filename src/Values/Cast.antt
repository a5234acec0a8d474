-- ===== src/Values/Cast.antt =====
-- libs/joda/core/modules/query/values/include/joda/query/values/CastProvider.h: INT, FLOAT and STRING.
-- A handler stops at its first call, so an array or an object leaves `val` null. The conversions of
-- doubles, `std::stod` and RapidJSON's writer are the parameter `Conversions`.
pub mod Returns
use joda.Base.{
  ℕ, zero, suc, ◌+◌, ◌-◌, ◌*◌, ◌/◌, ◌%◌, ◌^◌, Option, none, some, Bool, true, false, ◌&&◌, ◌||◌,
  List, [], ◌∷◌, leb, ltb, ◌==◌, if◌then◌else◌, ◌>>=◌,
}
use joda.Base.Int.{ℤ, pos, negsuc}
use joda.Base.Text.{Str, to_string, codes}
use joda.Json.{
  Scalar, null, bool, int, uint, int64, uint64, double, raw_number, string, Json, scalar, arr, obj,
}
use joda.Similarity.PathsDom.{c_str}

is_space : ℕ → Bool
is_space c = c == 32 || (leb 9 c && leb c 13)

is_digit : ℕ → Bool
is_digit c = leb 48 c && leb c 57

-- The number that the digits at the front make, after those that made `n`.
read_digits : ℕ → Str → ℕ
unfolding is_digit
read_digits n [] = n
read_digits n (c ∷ cs) =
    let rest = read_digits (n * 10 + (c - 48)) cs in if is_digit c then rest else n

-- Without a digit `std::stoll` throws.
read_number : Str → Option ℕ
unfolding read_digits
read_number [] = none
read_number (c ∷ cs) = if is_digit c then some (read_digits 0 (c ∷ cs)) else none

skip_spaces : Str → Str
unfolding is_space
skip_spaces [] = []
skip_spaces (c ∷ cs) = let rest = skip_spaces cs in if is_space c then rest else c ∷ cs

-- Out of the range of `long long` it throws too.
positive : ℕ → Option ℤ
positive n = if ltb n (2 ^ 63) then some (pos n) else none

negative : ℕ → Option ℤ
negative zero = some (pos 0)
negative (suc n) = if ltb n (2 ^ 63) then some (negsuc n) else none

read_signed : Str → Option ℤ
unfolding read_number positive negative
read_signed [] = none
read_signed (c ∷ cs) =
    if c == b'-'
    then read_number cs >>= negative
    else if c == b'+'
    then read_number cs >>= positive
    else read_number (c ∷ cs) >>= positive

-- `std::stoll`; `none` is its exceptions.
unfoldable pub stoll : Str → Option ℤ
unfolding skip_spaces read_signed
stoll s = read_signed (skip_spaces s)

-- `std::to_string` of a signed number.
unfoldable pub int_to_string : ℤ → Str
unfolding to_string
int_to_string (pos n) = to_string n
int_to_string (negsuc n) = b'-' ∷ to_string (n + 1)

pub record Conversions : Type 0 where
  -- `(int64_t)d`, `(double)i`, 0.0 and 1.0.
  pub from_double : ℕ → ℤ
  pub to_double : ℤ → ℕ
  pub stod : Str → Option ℕ
  pub double_to_string : ℕ → Str
  -- What a `rapidjson::Writer` puts in its buffer.
  pub write : Json → Str

module _ (conv : Conversions) where
  -- What `IntCastHandler` holds after a scalar.
  int_cast_scalar : Scalar → Scalar
  unfolding stoll
  int_cast_scalar null = null
  int_cast_scalar (bool true) = int (pos 1)
  int_cast_scalar (bool false) = int (pos 0)
  int_cast_scalar (int i) = int i
  int_cast_scalar (uint i) = uint i
  int_cast_scalar (int64 i) = int64 i
  int_cast_scalar (uint64 i) = uint64 i
  int_cast_scalar (double d) = int64 (conv.from_double d)
  int_cast_scalar (raw_number s) = null
  int_cast_scalar (string s) = elim (stoll s) [ none ↦ null | some i ↦ int64 i ]

  float_cast_scalar : Scalar → Scalar
  float_cast_scalar null = null
  float_cast_scalar (bool true) = double (conv.to_double (pos 1))
  float_cast_scalar (bool false) = double (conv.to_double (pos 0))
  float_cast_scalar (int i) = double (conv.to_double i)
  float_cast_scalar (uint i) = double (conv.to_double (pos i))
  float_cast_scalar (int64 i) = double (conv.to_double i)
  float_cast_scalar (uint64 i) = double (conv.to_double (pos i))
  float_cast_scalar (double d) = double d
  float_cast_scalar (raw_number s) = null
  float_cast_scalar (string s) = elim (conv.stod s) [ none ↦ null | some d ↦ double d ]

  string_cast_scalar : Scalar → Scalar
  unfolding int_to_string
  string_cast_scalar null = string (codes "null")
  string_cast_scalar (bool true) = string (codes "true")
  string_cast_scalar (bool false) = string (codes "false")
  string_cast_scalar (int i) = string (int_to_string i)
  string_cast_scalar (uint i) = string (to_string i)
  string_cast_scalar (int64 i) = string (int_to_string i)
  string_cast_scalar (uint64 i) = string (to_string i)
  string_cast_scalar (double d) = string (conv.double_to_string d)
  string_cast_scalar (raw_number s) = string (c_str s)
  string_cast_scalar (string s) = string (c_str s)

  -- `calculate` of the three, on the value that the accepter passes on.
  unfoldable pub int_cast : Json → Json
  unfolding int_cast_scalar
  int_cast (scalar x) = scalar (int_cast_scalar x)
  int_cast (arr xs) = scalar null
  int_cast (obj ms) = scalar null

  unfoldable pub float_cast : Json → Json
  unfolding float_cast_scalar
  float_cast (scalar x) = scalar (float_cast_scalar x)
  float_cast (arr xs) = scalar null
  float_cast (obj ms) = scalar null

  -- The first argument is the second parameter, `complex`.
  unfoldable pub string_cast : Bool → Json → Json
  unfolding string_cast_scalar
  string_cast true v = scalar (string (c_str (conv.write v)))
  string_cast false (scalar x) = scalar (string_cast_scalar x)
  string_cast false (arr xs) = scalar null
  string_cast false (obj ms) = scalar null

  -- `TemplateProvider::getAtomValue` of STRING, of what `BoolParameter` reads: `none` is the exception
  -- for a second parameter that is no Boolean.
  unfoldable pub string_cast_value : Option Bool → Json → Json
  unfolding string_cast
  string_cast_value none v = scalar null
  string_cast_value (some complex) v = string_cast complex v
