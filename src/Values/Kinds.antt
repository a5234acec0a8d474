-- ===== src/Values/Kinds.antt =====
-- libs/joda/core/modules/query/values: TypeProvider.cpp, IsXBoolProvider.cpp, ArraySizeProvider.cpp,
-- INListProvider.cpp and TruthyFalsyProvider.h, on the values of their parameters; `none` is a null
-- pointer. A RapidJSON value that is not a string, a Boolean or null is a number, an array or an
-- object, and a raw number is held as a string.
use joda.Base.{
  ℕ, Option, none, some, Bool, true, false, not, ◌||◌, [], ◌∷◌, if◌then◌else◌, ◌==◌, ◌≡◌, ◌↔◌, ◌≢◌,
  ◌&&◌, refl, ap, sym, subst, Bool-cases, inl, inr, arith,
}
use joda.Base.Int.{pos, int_eq}
use joda.Base.Text.{Str, codes, str_eq, str_eq→eq, str_eq_refl}
use joda.Json.{
  Json, scalar, arr, obj, Items, nil, cons, Scalar, null, bool, int, uint, int64, uint64, double,
  raw_number, string, size_items,
}
use joda.Values.Provider.{
  IValueType, iv_string, iv_number, iv_bool, iv_object, iv_array, iv_any, iv_null, Provider,
  get_return_type, is_any, is_const,
}
use joda.Values.Eval.{is_number}
use joda.Values.MemberCount.{Source, pointer, virtual_object, accepted}

abbrev pub type_of : Json → IValueType
type_of (arr xs) = iv_array
type_of (obj ms) = iv_object
type_of (scalar null) = iv_null
type_of (scalar (bool b)) = iv_bool
type_of (scalar (string s)) = iv_string
type_of (scalar (raw_number s)) = iv_string
type_of (scalar x) = iv_number

abbrev pub type_name : IValueType → Str
type_name iv_string = codes "STRING"
type_name iv_number = codes "NUMBER"
type_name iv_bool = codes "BOOL"
type_name iv_object = codes "OBJECT"
type_name iv_array = codes "ARRAY"
type_name iv_null = codes "NULL"
type_name iv_any = []

-- `TypeProvider::getAtomValue`, of a parameter and its value, `getValue`.
unfoldable pub type_value : Provider → Option Json → Json
type_value p v =
    if is_any p
    then elim v [ none ↦ scalar null | some target ↦ scalar (string (type_name (type_of target))) ]
    else scalar (string (type_name (get_return_type p)))

is_type : IValueType → Json → Bool
is_type iv_null (scalar null) = true
is_type iv_bool (scalar (bool b)) = true
is_type iv_any v = true
is_type iv_object (obj ms) = true
is_type iv_array (arr xs) = true
is_type iv_number (scalar x) = is_number x
is_type iv_string (scalar (string s)) = true
is_type iv_string (scalar (raw_number s)) = true
is_type t v = false

same_type : IValueType → IValueType → Bool
same_type t u = str_eq (type_name t) (type_name u)

-- `getAtomValue` of ISNULL, ISBOOL, EXISTS, ISOBJECT, ISARRAY, ISNUMBER and ISSTRING. The
-- constructor's `cons` is set for a parameter that is constant and not of any type.
unfoldable pub is_x_value : IValueType → Provider → Option Json → Json
unfolding is_type same_type
is_x_value t p v =
    if not (is_any p) && is_const p
    then scalar (bool (same_type t iv_any || same_type t (get_return_type p)))
    else elim v [ none ↦ scalar (bool false) | some w ↦ scalar (bool (is_type t w)) ]

-- `ArraySizeProvider::getAtomValue`
unfoldable pub size_value : Option Json → Json
size_value (some (arr xs)) = scalar (int64 (pos (size_items xs)))
size_value _ = scalar null

module _ (deep_equal : Json → Json → Bool) where
  any_equal : Items → Json → Bool
  any_equal nil v = false
  any_equal (cons x xs) v = deep_equal x v || any_equal xs v

  -- `INListProvider::getAtomValue`, with RapidJSON's `==`.
  unfoldable pub in_list_value : Option Json → Option Json → Json
  unfolding any_equal
  in_list_value none xs = scalar null
  in_list_value (some v) none = scalar null
  in_list_value (some v) (some (scalar null)) = scalar null
  in_list_value (some v) (some (arr xs)) = scalar (bool (any_equal xs v))
  in_list_value (some v) (some w) = scalar (bool false)

module _ (nan_or_zero : ℕ → Bool) where
  -- What `FalsyHandler` holds after a value: whether `Accept` returned true, and `isFalsy()`.
  falsy_scalar : Scalar → Option Bool
  falsy_scalar null = some true
  falsy_scalar (bool b) = some (not b)
  falsy_scalar (int i) = some (int_eq i (pos 0))
  falsy_scalar (uint n) = some (n == 0)
  falsy_scalar (int64 i) = some (int_eq i (pos 0))
  falsy_scalar (uint64 n) = some (n == 0)
  falsy_scalar (double d) = some (nan_or_zero d)
  falsy_scalar (raw_number s) = none
  falsy_scalar (string []) = some true
  falsy_scalar (string (c ∷ cs)) = some false

  truthy_json : Json → Json
  unfolding falsy_scalar
  truthy_json (scalar x) = elim (falsy_scalar x) [
    | none ↦ scalar null
    | some b ↦ scalar (bool (not b))
  ]
  truthy_json v = scalar null

  -- `StartObject` and `StartArray` return false.
  falsy_json : Json → Json → Json
  unfolding falsy_scalar
  falsy_json stopped (scalar x) = elim (falsy_scalar x) [
    | none ↦ scalar null
    | some b ↦ scalar (bool b)
  ]
  falsy_json stopped v = stopped

  -- `TruthyCalculator`
  unfoldable pub truthy_value : Source → Json
  unfolding truthy_json
  truthy_value (pointer v) = truthy_json v
  truthy_value (virtual_object n) = scalar (bool true)
  truthy_value (accepted none) = scalar (bool false)
  truthy_value (accepted (some v)) = truthy_json v

  -- `FalsyCalculator`
  unfoldable pub falsy_value : Source → Json
  unfolding falsy_json
  falsy_value (pointer v) = falsy_json (scalar null) v
  falsy_value (virtual_object n) = scalar (bool false)
  falsy_value (accepted none) = scalar (bool true)
  falsy_value (accepted (some v)) = falsy_json (scalar (bool true)) v

is_type-type_of : (t : IValueType) (v : Json) → t ≢ iv_any → is_type t v ≡ same_type t (type_of v)
unfolding is_type same_type str_eq
is_type-type_of iv_string (scalar null) h = refl
is_type-type_of iv_number (scalar null) h = refl
is_type-type_of iv_bool (scalar null) h = refl
is_type-type_of iv_object (scalar null) h = refl
is_type-type_of iv_array (scalar null) h = refl
is_type-type_of iv_null (scalar null) h = refl
is_type-type_of iv_any v h = absurd (h refl)
is_type-type_of t v h = refl

same_type-iv_any : (t : IValueType) → t ≢ iv_any → same_type t iv_any ≡ false
unfolding same_type str_eq
same_type-iv_any iv_any h = absurd (h refl)
same_type-iv_any t h = refl

same_type_iff :
    (t u : IValueType)
    → (scalar (bool (same_type t u)) ≡ scalar (bool true))
      ↔ (scalar (string (type_name u)) ≡ scalar (string (type_name t)))
unfolding same_type
same_type_iff t u = (
  λ h.
      let e : str_eq (type_name t) (type_name u) ≡ true = cc in
      ap (λ s. scalar (string s)) (sym (str_eq→eq (type_name t) (type_name u) e)),
  λ h.
      let e : type_name u ≡ type_name t = cc in
      ap (λ b. scalar (bool b))
        (subst (λ s. str_eq (type_name t) s ≡ true) (sym e) (str_eq_refl (type_name t))),
)

-- For every parameter that has a value and is of any type, as a pointer is, or constant, and for
-- every type but `IV_Any`, the function that asks for the type (ISNULL, ISBOOL and so on) gives true
-- exactly when TYPE gives that type's name.
pub is_x_value-type_value :
    (t : IValueType) (p : Provider) (v : Json)
    → t ≢ iv_any
    → (is_any p || is_const p) ≡ true
    → (is_x_value t p (some v) ≡ scalar (bool true))
      ↔ (type_value p (some v) ≡ scalar (string (type_name t)))
unfolding is_x_value type_value
is_x_value-type_value t p v h k = elim (Bool-cases (is_any p)) [
  | inl any ↦ rw (any, is_type-type_of t v h) (same_type_iff t (type_of v))
  | inr known ↦
      let const : is_const p ≡ true = ground arith in
      rw (known, const, same_type-iv_any t h) (same_type_iff t (get_return_type p))
]
