-- ===== src/Similarity/Jaccard.antt =====
-- `PathJaccard::measure` and `AttributeJaccard::measure` on two representations, of
-- libs/joda/core/modules/similarity/src/PathJaccard.cpp and AttributeJaccard.cpp. The `double` that
-- they return is the quotient of two sizes: it is kept as the two.
pub mod Bounds
use joda.Base.{
  ℕ, ◌+◌, ◌-◌, List, [], ◌∷◌, length, Bool, true, false, ◌==◌, ◌&&◌, ◌||◌, if◌then◌else◌,
}
use joda.Base.Text.{Str, str_lt}

pub record Quotient : Type 0 where
  pub numerator : ℕ
  pub denominator : ℕ

-- `std::set_intersection`, which takes sorted ranges.
unfoldable pub set_intersection : List Str → List Str → List Str
set_intersection [] ys = []
set_intersection (x ∷ xs) [] = []
set_intersection (x ∷ xs) (y ∷ ys) =
    let skip_left = set_intersection xs (y ∷ ys) in
    let take_both = x ∷ set_intersection xs ys in
    let skip_right = set_intersection (x ∷ xs) ys in
    if str_lt x y then skip_left else if str_lt y x then skip_right else take_both

unfoldable pub path_measure : List Str → List Str → Quotient
path_measure lhs rhs =
    let lhs_size = length lhs in
    let rhs_size = length rhs in
    let shared = length (set_intersection lhs rhs) in
    if lhs_size == 0 && rhs_size == 0
    then record { numerator = 1; denominator = 1 }
    else if lhs_size == 0 || rhs_size == 0
    then record { numerator = 0; denominator = 1 }
    else record { numerator = shared; denominator = lhs_size + rhs_size - shared }

unfoldable pub attribute_measure : List Str → List Str → Quotient
attribute_measure lhs rhs =
    let lhs_size = length lhs in
    let rhs_size = length rhs in
    let shared = length (set_intersection lhs rhs) in
    if lhs_size == 0 && rhs_size == 0
    then record { numerator = 1; denominator = 1 }
    else if lhs_size == 0 || rhs_size == 0
    then record { numerator = 0; denominator = 1 }
    else record { numerator = shared; denominator = lhs_size + rhs_size - shared }
