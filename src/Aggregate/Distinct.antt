-- ===== src/Aggregate/Distinct.antt =====
-- libs/joda/core/modules/query/aggregate/src/DistinctAggregator.cpp. A set is the list of its
-- elements, in the order in which they came; a double is its bit pattern.
pub mod Sets
pub mod Merged
use joda.Base.{
  ℕ, Option, none, some, Bool, true, false, ◌||◌, ◌&&◌, List, [], ◌∷◌, ◌++◌, ◌≡◌, refl, ◌∙◌, sym,
  ap, fold, map, if◌then◌else◌, Bool-cases, inl, inr, arith,
}
use joda.Base.Dict.{IsPartialEquivalence}
use joda.Base.Text.{Str, str_eq}
use joda.Json.{Json, scalar, bool, Scalar, null, string, double, arr, Items, nil, cons}
use joda.Similarity.PathsDom.{c_str}
use joda.Values.Eval.{Machine, text_of, is_number}
use joda.Aggregate.Collect.{items_of}
use joda.Aggregate.{Aggregator, aggregate, IsMergeable}

-- `std::unordered_set`, up to the order of its elements.
module _ {A : Type 0} (eq : A → A → Bool) where
  abbrev pub contains : A → List A → Bool
  contains a [] = false
  contains a (x ∷ xs) = eq x a || contains a xs

  abbrev pub insert : List A → A → List A
  insert xs a = if contains a xs then xs else xs ++ a ∷ []

  -- `a.merge(b)`
  abbrev pub merge_set : List A → List A → List A
  merge_set xs ys = fold insert xs ys

pub record Distinct : Type 0 where
  pub str_set : List Str
  pub num_set : List ℕ
  pub has_true : Bool
  pub has_false : Bool

pub record Enabled : Type 0 where
  pub string_enabled : Bool
  pub bool_enabled : Bool
  pub num_enabled : Bool

-- The branch of `accumulate` that a document takes.
pub data Branch : Type 0 where
  insert_string : Str → Branch
  set_bool : Bool → Branch
  insert_number : ℕ → Branch
  skip : Branch

module _ (machine : Machine) (enabled : Enabled) where
  number_branch : Scalar → Branch
  number_branch x =
      if enabled.num_enabled && is_number x then insert_number (machine.get_double x) else skip

  bool_branch : Scalar → Branch
  unfolding number_branch
  bool_branch (bool b) = if enabled.bool_enabled then set_bool b else skip
  bool_branch x = number_branch x

  -- The chain of `if` and `else if`.
  unfoldable pub branch_of : Option Json → Branch
  unfolding bool_branch
  branch_of (some (scalar x)) = elim (text_of x) [
    | none ↦ bool_branch x
    | some t ↦ if enabled.string_enabled then insert_string (c_str t) else skip
  ]
  branch_of _ = skip

module _ (double_eq : ℕ → ℕ → Bool) where
  unfoldable pub take_branch : Distinct → Branch → Distinct
  take_branch s (insert_string t) = record s { str_set = insert str_eq s.str_set t }
  take_branch s (set_bool true) = record s { has_true = true }
  take_branch s (set_bool false) = record s { has_false = true }
  take_branch s (insert_number x) = record s { num_set = insert double_eq s.num_set x }
  take_branch s skip = s

  unfoldable pub merge_distinct : Distinct → Distinct → Distinct
  merge_distinct s o = record {
    str_set = merge_set str_eq s.str_set o.str_set;
    num_set = merge_set double_eq s.num_set o.num_set;
    has_true = s.has_true || o.has_true;
    has_false = s.has_false || o.has_false;
  }

abbrev bool_items : Distinct → List Json
bool_items s =
    (if s.has_true then scalar (bool true) ∷ [] else [])
    ++ (if s.has_false then scalar (bool false) ∷ [] else [])

unfoldable pub distinct_values : Enabled → Distinct → List Json
distinct_values enabled s =
    (if enabled.string_enabled then map (λ t. scalar (string t)) s.str_set else [])
    ++ (if enabled.num_enabled then map (λ x. scalar (double x)) s.num_set else [])
    ++ (if enabled.bool_enabled then bool_items s else [])

module _ {ℓ} {D : Type ℓ} (machine : Machine) (double_eq : ℕ → ℕ → Bool) (enabled : Enabled)
    (value : D → Option Json) where
  unfoldable pub distinct_aggregator : Aggregator D Distinct
  distinct_aggregator = record {
    fresh = record { str_set = []; num_set = []; has_true = false; has_false = false };
    accumulate = λ s d. take_branch double_eq s (branch_of machine enabled (value d));
    merge = merge_distinct double_eq;
    terminate = λ s. arr (items_of (distinct_values enabled s));
  }
