-- ===== src/Tests/Predicates.antt =====
-- What is proved of predicates, on a document, a few predicates and a machine that stands for RapidJSON.
use joda.Base.{
  ℕ, Bool, true, false, ltb, leb, ◌==◌, Option, none, some, [], ◌∷◌, ◌≡◌, refl, if◌then◌else◌,
}
use joda.Base.Int.{ℤ, pos}
use joda.Base.Text.{Str, str_eq}
use joda.Json.{
  Scalar, Json, scalar, arr, obj, nil, Members, end, member, bool, int, uint, double, int64, uint64,
}
use joda.Values.Provider.{
  Provider, and, or, xor, implication, bool_provider, pointer_provider, not_provider,
  uint64_provider, binary_bool_provider, comparison_provider, less, well_typed,
}
use joda.Values.Eval.{Machine, fetch, check, get_atom_value}
use joda.Values.Optimize.{parse_optimize, optimize, replaced}
use joda.Values.Soundness.{BoolOperands, parse_optimize_sound}
use joda.Values.Junctions.{NotBoolean, check-parse_optimize, optimize_drops}
use joda.Values.Normal.{NoConstOperand, optimize-well_typed, optimize-NoConstOperand}

-- Natural numbers, whose doubles are themselves, and scalars, compared by their shape.
abbrev pub natural_of : Scalar → Option ℕ
natural_of (uint n) = some n
natural_of (uint64 n) = some n
natural_of (int (pos n)) = some n
natural_of (int64 (pos n)) = some n
natural_of _ = none

abbrev pub integer_of : Scalar → Option ℤ
integer_of (uint n) = some (pos n)
integer_of (int i) = some i
integer_of (int64 i) = some i
integer_of _ = none

abbrev pub double_of : Scalar → ℕ
double_of (uint n) = n
double_of (uint64 n) = n
double_of (double n) = n
double_of _ = 0

abbrev pub same_shape : Json → Json → Bool
same_shape (arr nil) (arr nil) = true
same_shape (obj end) (obj end) = true
same_shape _ _ = false

abbrev pub naturals : Machine
naturals = record {
  get_double = double_of;
  get_uint64 = natural_of;
  get_int64 = integer_of;
  double_lt = ltb;
  double_le = leb;
  double_near = λ a b. a == b;
  deep_equal = same_shape;
}

abbrev find_member : Members → Str → Option Json
find_member end s = none
find_member (member k v ms) s = if str_eq (b'/' ∷ k) s then some v else find_member ms s

-- The pointers of one member, "/name".
abbrev get_member : Json → Str → Option Json
get_member (obj ms) s = find_member ms s
get_member _ s = none

abbrev pointer_c : Str
pointer_c = b'/' ∷ b'c' ∷ []

abbrev pointer_n : Str
pointer_n = b'/' ∷ b'n' ∷ []

-- {"n": 3, "c": true}
abbrev row : Json
row = obj (member (b'n' ∷ []) (scalar (uint 3)) (member (b'c' ∷ []) (scalar (bool true)) end))

-- `true && !(!(/c))`
abbrev double_negation : Provider
double_negation =
    binary_bool_provider and (bool_provider true)
      (not_provider (not_provider (pointer_provider pointer_c)))

double_negation-BoolOperands : BoolOperands naturals get_member row row double_negation
unfolding get_atom_value str_eq
double_negation-BoolOperands = ((true, refl), (true, refl), tt, ((false, refl), ((true, refl), tt)))

parse_optimize_sound_example :
    fetch naturals get_member (parse_optimize naturals get_member row double_negation) row
    ≡ fetch naturals get_member double_negation row
parse_optimize_sound_example =
    parse_optimize_sound naturals get_member row row double_negation double_negation-BoolOperands

-- The optimised predicate is the attribute itself.
double_negation_optimized :
    parse_optimize naturals get_member row double_negation ≡ pointer_provider pointer_c
unfolding parse_optimize get_atom_value
double_negation_optimized = refl

-- `(/n < 5 && true) || /n`, where `/n` is no Boolean.
abbrev junction : Provider
junction =
    binary_bool_provider or
      (binary_bool_provider and
        (comparison_provider less (pointer_provider pointer_n) (uint64_provider 5))
        (bool_provider true))
      (pointer_provider pointer_n)

check-parse_optimize_example :
    check naturals get_member (parse_optimize naturals get_member row junction) row
    ≡ check naturals get_member junction row
check-parse_optimize_example =
    check-parse_optimize naturals get_member row row junction (tt, (tt, (tt, tt), tt), tt)

optimize-well_typed_example :
    well_typed (replaced (optimize naturals get_member row junction)) ≡ true
optimize-well_typed_example = optimize-well_typed naturals get_member row junction refl

optimize-NoConstOperand_example :
    NoConstOperand (replaced (optimize naturals get_member row junction))
optimize-NoConstOperand_example = optimize-NoConstOperand naturals get_member row junction

get-n-NotBoolean : NotBoolean (get_member row pointer_n)
unfolding str_eq
get-n-NotBoolean = tt

optimize_drops_example :
    (check naturals get_member
        (binary_bool_provider xor (bool_provider true) (pointer_provider pointer_n))
        row
      ≡ true)
    × (check naturals get_member
          (parse_optimize naturals get_member row
            (binary_bool_provider xor (bool_provider true) (pointer_provider pointer_n)))
          row
        ≡ false)
    × (check naturals get_member
          (binary_bool_provider implication (pointer_provider pointer_n) (bool_provider false))
          row
        ≡ true)
    × (check naturals get_member
          (parse_optimize naturals get_member row
            (binary_bool_provider implication (pointer_provider pointer_n) (bool_provider false)))
          row
        ≡ false)
optimize_drops_example = optimize_drops naturals get_member row row pointer_n get-n-NotBoolean
