-- ===== src/Values/Eval.antt =====
-- The values of providers on a document: `getAtomValue` and `getValue` of the subclasses, `equal` of
-- IValueProvider.h, `getNonTruthyBool` of IValueProvider.cpp and `Query::check` of
-- libs/joda/core/modules/query/src/Query.cpp. What RapidJSON and the machine's doubles do is the
-- parameter `Machine`, and reading a document by a JSON pointer the parameter `get`.
use joda.Base.{ℕ, Option, none, some, Bool, true, false, not, ◌&&◌, ◌||◌, ◌==◌, if◌then◌else◌}
use joda.Base.Int.{ℤ, pos, negsuc}
use joda.Base.Text.{Str, str_eq, str_lt}
use joda.Json.{
  Scalar, null, bool, int, uint, int64, uint64, double, raw_number, string, Json, scalar, arr, obj,
}
use joda.Similarity.PathsDom.{c_str}
use joda.Values.Provider.{
  Calc, and, or, xor, implication, Order, less, greater, less_equal, greater_equal, Equality, equal,
  unequal, Provider, null_provider, bool_provider, int64_provider, uint64_provider, double_provider,
  string_provider, pointer_provider, not_provider, binary_bool_provider, comparison_provider,
  equality_provider, is_atom,
}

-- RapidJSON's numbers and its deep equality, and the comparisons of doubles.
pub record Machine : Type 0 where
  pub get_double : Scalar → ℕ
  pub get_uint64 : Scalar → Option ℕ
  pub get_int64 : Scalar → Option ℤ
  pub double_lt : ℕ → ℕ → Bool
  pub double_le : ℕ → ℕ → Bool
  -- `fabs(a - b) < epsilon`
  pub double_near : ℕ → ℕ → Bool
  pub deep_equal : Json → Json → Bool

-- `IsBool() ? GetBool() : false`, on a value that may be missing.
abbrev pub non_truthy : Option Json → Bool
non_truthy (some (scalar (bool b))) = b
non_truthy _ = false

-- `calculate` of the four connectives.
unfoldable pub calculate : Calc → Bool → Bool → Bool
calculate and lhs rhs = lhs && rhs
calculate or lhs rhs = lhs || rhs
calculate xor lhs rhs = (lhs || rhs) && not (lhs && rhs)
calculate implication lhs rhs = not lhs || rhs

-- `RJValue()` is null.
unfoldable pub not_value : Option Json → Json
not_value (some (scalar (bool b))) = scalar (bool (not b))
not_value _ = scalar null

abbrev pub text_of : Scalar → Option Str
text_of (string s) = some s
text_of (raw_number s) = some s
text_of _ = none

abbrev pub is_number : Scalar → Bool
is_number (int i) = true
is_number (uint i) = true
is_number (int64 i) = true
is_number (uint64 i) = true
is_number (double d) = true
is_number _ = false

int_eq : ℤ → ℤ → Bool
int_eq (pos a) (pos b) = a == b
int_eq (negsuc a) (negsuc b) = a == b
int_eq _ _ = false

-- `calculate` of the four comparisons, on strings; `>` and the like are `<` and its negation.
compare_text : Order → Str → Str → Bool
compare_text less a b = str_lt a b
compare_text greater a b = str_lt b a
compare_text less_equal a b = not (str_lt b a)
compare_text greater_equal a b = not (str_lt a b)

module _ (machine : Machine) where
  compare_double : Order → ℕ → ℕ → Bool
  compare_double less a b = machine.double_lt a b
  compare_double greater a b = machine.double_lt b a
  compare_double less_equal a b = machine.double_le a b
  compare_double greater_equal a b = machine.double_le b a

  compare_numbers : Order → Scalar → Scalar → Json
  unfolding compare_double
  compare_numbers o x y =
      if is_number x && is_number y
      then scalar (bool (compare_double o (machine.get_double x) (machine.get_double y)))
      else scalar (bool false)

  compare_scalars : Order → Scalar → Scalar → Json
  unfolding compare_numbers compare_text
  compare_scalars o x y = elim (text_of x) [
    | none ↦ compare_numbers o x y
    | some s ↦ elim (text_of y) [
      | none ↦ compare_numbers o x y
      | some t ↦ scalar (bool (compare_text o (c_str s) (c_str t)))
    ]
  ]

  -- `getAtomValue` of `ComparisonProvider`, on the values of its two parameters.
  unfoldable pub comparison_value : Order → Option Json → Option Json → Json
  unfolding compare_scalars
  comparison_value o (some (scalar x)) (some (scalar y)) = compare_scalars o x y
  comparison_value o (some x) (some y) = scalar (bool false)
  comparison_value o _ _ = scalar null

  equal_int64 : Scalar → Scalar → Bool
  unfolding int_eq
  equal_int64 x y = elim (machine.get_int64 x) [
    | none ↦ machine.double_near (machine.get_double x) (machine.get_double y)
    | some i ↦ elim (machine.get_int64 y) [
      | none ↦ machine.double_near (machine.get_double x) (machine.get_double y)
      | some j ↦ int_eq i j
    ]
  ]

  equal_numbers : Scalar → Scalar → Bool
  unfolding equal_int64
  equal_numbers x y = elim (machine.get_uint64 x) [
    | none ↦ equal_int64 x y
    | some m ↦ elim (machine.get_uint64 y) [ none ↦ equal_int64 x y | some n ↦ m == n ]
  ]

  -- Values of different types are not equal.
  equal_scalars : Scalar → Scalar → Bool
  unfolding equal_numbers
  equal_scalars null null = true
  equal_scalars (bool true) (bool true) = true
  equal_scalars (bool false) (bool false) = true
  equal_scalars x y = if is_number x && is_number y then equal_numbers x y else elim (text_of x) [
    | none ↦ false
    | some s ↦ elim (text_of y) [ none ↦ false | some t ↦ str_eq (c_str s) (c_str t) ]
  ]

  equal_values : Json → Json → Bool
  unfolding equal_scalars
  equal_values (scalar x) (scalar y) = equal_scalars x y
  equal_values (arr xs) (arr ys) = machine.deep_equal (arr xs) (arr ys)
  equal_values (obj ms) (obj ns) = machine.deep_equal (obj ms) (obj ns)
  equal_values _ _ = false

  -- `equal`, on the values of the two providers.
  equal_optional : Option Json → Option Json → Option Bool
  unfolding equal_values
  equal_optional (some x) (some y) = some (equal_values x y)
  equal_optional _ _ = none

  -- `calculate` of `EqualCalc` and `UnEqualCalc`.
  unfoldable pub equality_value : Equality → Option Json → Option Json → Bool
  unfolding equal_optional
  equality_value equal x y = elim (equal_optional x y) [ none ↦ false | some b ↦ b ]
  equality_value unequal x y = elim (equal_optional x y) [ none ↦ false | some b ↦ not b ]

module _ {Doc : Type 0} (machine : Machine) (get : Doc → Str → Option Json) where
  -- The subclasses with an atomic type return a null pointer.
  abbrev pub get_value : Provider → Doc → Option Json
  get_value (pointer_provider s) json = get json s
  get_value _ json = none

  -- A parameter's value: `isAtom() ? &getAtomValue(json) : getValue(json)`.
  unfoldable pub get_atom_value : Provider → Doc → Json
  unfolding calculate not_value comparison_value equality_value
  get_atom_value null_provider json = scalar null
  get_atom_value (bool_provider b) json = scalar (bool b)
  get_atom_value (int64_provider i) json = scalar (int64 i)
  get_atom_value (uint64_provider i) json = scalar (uint64 i)
  get_atom_value (double_provider d) json = scalar (double d)
  get_atom_value (string_provider s) json = scalar (string (c_str s))
  get_atom_value (pointer_provider s) json = scalar null
  get_atom_value (not_provider p) json =
      not_value (if is_atom p then some (get_atom_value p json) else get_value p json)
  get_atom_value (binary_bool_provider c p q) json =
      let lhs = if is_atom p then some (get_atom_value p json) else get_value p json in
      let rhs = if is_atom q then some (get_atom_value q json) else get_value q json in
      scalar (bool (calculate c (non_truthy lhs) (non_truthy rhs)))
  get_atom_value (comparison_provider o p q) json =
      let lhs = if is_atom p then some (get_atom_value p json) else get_value p json in
      let rhs = if is_atom q then some (get_atom_value q json) else get_value q json in
      comparison_value machine o lhs rhs
  get_atom_value (equality_provider e p q) json =
      let lhs = if is_atom p then some (get_atom_value p json) else get_value p json in
      let rhs = if is_atom q then some (get_atom_value q json) else get_value q json in
      scalar (bool (equality_value machine e lhs rhs))

  abbrev pub fetch : Provider → Doc → Option Json
  fetch p json = if is_atom p then some (get_atom_value p json) else get_value p json

  -- `IValueProvider::getNonTruthyBool`
  unfoldable pub get_non_truthy_bool : Provider → Doc → Bool
  get_non_truthy_bool p json = non_truthy (fetch p json)

  -- `Query::check`, for the query's predicate.
  unfoldable pub check : Provider → Doc → Bool
  check pred json =
      if is_atom pred
      then non_truthy (some (get_atom_value pred json))
      else non_truthy (get_value pred json)
