-- ===== src/Values/Provider.antt =====
-- The classes of libs/joda/core/modules/query/values/include/joda/query/values that predicates are
-- built from: IValueProvider.h, AtomProvider.h, NullProvider.h, PointerProvider.h, NotProvider.h,
-- BinaryBoolProvider.h, ComparisonProvider.h and EqualityProvider.h. A subclass is a constructor, and
-- its `params` are the arguments of its own type. A double is its bit pattern.
use joda.Base.{ℕ, Bool, true, false, ◌&&◌, ◌||◌}
use joda.Base.Int.{ℤ}
use joda.Base.Text.{Str}

pub data IValueType : Type 0 where
  iv_string iv_number iv_bool iv_object iv_array iv_any iv_null : IValueType

-- `AndCalc`, `OrCalc`, `XorCalc`, `ImplicationCalc`
pub data Calc : Type 0 where
  and or xor implication : Calc

-- `LessCalc`, `GreaterCalc`, `LessEqualCalc`, `GreaterEqualCalc`
pub data Order : Type 0 where
  less greater less_equal greater_equal : Order

-- `EqualCalc`, `UnEqualCalc`
pub data Equality : Type 0 where
  equal unequal : Equality

pub data Provider : Type 0 where
  null_provider : Provider
  bool_provider : Bool → Provider
  int64_provider : ℤ → Provider
  uint64_provider : ℕ → Provider
  double_provider : ℕ → Provider
  string_provider : Str → Provider
  -- The attribute string that the provider reads, `getAttributeString()`.
  pointer_provider : Str → Provider
  not_provider : Provider → Provider
  binary_bool_provider : Calc → Provider → Provider → Provider
  comparison_provider : Order → Provider → Provider → Provider
  equality_provider : Equality → Provider → Provider → Provider

abbrev pub get_return_type : Provider → IValueType
get_return_type null_provider = iv_null
get_return_type (bool_provider b) = iv_bool
get_return_type (int64_provider i) = iv_number
get_return_type (uint64_provider i) = iv_number
get_return_type (double_provider d) = iv_number
get_return_type (string_provider s) = iv_string
get_return_type (pointer_provider s) = iv_any
get_return_type (not_provider p) = iv_bool
get_return_type (binary_bool_provider c p q) = iv_bool
get_return_type (comparison_provider c p q) = iv_bool
get_return_type (equality_provider c p q) = iv_bool

abbrev is_bool_type : IValueType → Bool
is_bool_type iv_bool = true
is_bool_type _ = false

abbrev is_any_type : IValueType → Bool
is_any_type iv_any = true
is_any_type _ = false

abbrev pub is_bool : Provider → Bool
is_bool p = is_bool_type (get_return_type p)

abbrev pub is_any : Provider → Bool
is_any p = is_any_type (get_return_type p)

abbrev atom_type : IValueType → Bool
atom_type iv_string = true
atom_type iv_number = true
atom_type iv_bool = true
atom_type _ = false

-- `NullProvider` says that it is an atom.
abbrev pub is_atom : Provider → Bool
is_atom null_provider = true
is_atom p = atom_type (get_return_type p)

abbrev pub is_const : Provider → Bool
is_const (pointer_provider s) = false
is_const (not_provider p) = is_const p
is_const (binary_bool_provider c p q) = is_const p && is_const q
is_const (comparison_provider c p q) = is_const p && is_const q
is_const (equality_provider c p q) = is_const p && is_const q
is_const _ = true

abbrev comparable_type : IValueType → Bool
comparable_type iv_string = true
comparable_type iv_number = true
comparable_type _ = false

abbrev equalizable_type : IValueType → Bool
equalizable_type iv_any = false
equalizable_type iv_null = false
equalizable_type _ = true

-- Both are overridden by `PointerProvider`.
abbrev pub comparable : Provider → Bool
comparable (pointer_provider s) = true
comparable p = comparable_type (get_return_type p)

abbrev pub equalizable : Provider → Bool
equalizable (pointer_provider s) = true
equalizable p = equalizable_type (get_return_type p)

-- The type checks of the constructors, of every provider in the tree: `checkParamType(i, IV_Bool)`,
-- `NotComparableException`, `NotEqualizableException`.
abbrev pub well_typed : Provider → Bool
well_typed (not_provider p) = well_typed p && (is_any p || is_bool p)
well_typed (binary_bool_provider c p q) =
    well_typed p && well_typed q && (is_any p || is_bool p) && (is_any q || is_bool q)
well_typed (comparison_provider c p q) =
    well_typed p && well_typed q && comparable p && comparable q
well_typed (equality_provider c p q) =
    well_typed p && well_typed q && equalizable p && equalizable q
well_typed _ = true
