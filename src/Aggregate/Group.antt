-- ===== src/Aggregate/Group.antt =====
-- libs/joda/core/modules/query/aggregate/src/GroupAggregator.cpp. The aggregators of the groups are
-- states of one aggregator, `agg`, which stands for `protoAgg`; a null pointer is `none`. A double is
-- its bit pattern.
pub mod Found
pub mod Refines
use joda.Base.{
  ℕ, Option, none, some, Bool, true, false, List, [], ◌∷◌, ◌++◌, map, fold, if◌then◌else◌,
}
use joda.Base.Dict.{find, put}
use joda.Base.Text.{Str, str_eq}
use joda.Json.{
  Json, scalar, bool, null, int, uint, int64, uint64, Scalar, string, double, arr, obj, Members,
  member, end,
}
use joda.Similarity.PathsDom.{c_str}
use joda.Values.Eval.{Machine, text_of, is_number}
use joda.Aggregate.Collect.{items_of}
use joda.Aggregate.{Aggregator}

pub record Groups {κ} (S : Type κ) : Type κ where
  pub string_groups : List (Str × S)
  pub num_groups : List (ℕ × S)
  pub true_agg : Option S
  pub false_agg : Option S

pub data Key : Type 0 where
  string_key : Str → Key
  num_key : ℕ → Key
  bool_key : Bool → Key
  no_key : Key

-- "group" and "groupedBy"
abbrev group_text : Str
group_text = b'g' ∷ b'r' ∷ b'o' ∷ b'u' ∷ b'p' ∷ []

abbrev grouped_by_text : Str
grouped_by_text = b'g' ∷ b'r' ∷ b'o' ∷ b'u' ∷ b'p' ∷ b'e' ∷ b'd' ∷ b'B' ∷ b'y' ∷ []

module _ (machine : Machine) where
  -- The test of `accumulate` that the value passes; a value passes at most one.
  unfoldable pub key_of : Option Json → Key
  key_of (some (scalar (bool b))) = bool_key b
  key_of (some (scalar x)) = elim (text_of x) [
    | none ↦ if is_number x then num_key (machine.get_double x) else no_key
    | some t ↦ string_key (c_str t)
  ]
  key_of _ = no_key

module _ {ℓ κ} {D : Type ℓ} {S : Type κ} (agg : Aggregator D S) where
  -- `it->second` or `protoAgg->duplicate()`, after the document.
  abbrev pub accumulated : Option S → D → S
  accumulated none d = agg.accumulate agg.fresh d
  accumulated (some s) d = agg.accumulate s d

  abbrev pub merged : Option S → S → S
  merged none other = other
  merged (some s) other = agg.merge s other

  -- The merge of `trueAgg` and `falseAgg`.
  abbrev pub merge_optional : Option S → Option S → Option S
  merge_optional s none = s
  merge_optional s (some other) = some (merged s other)

  unfoldable pub merge_entries {μ} :
      {K : Type μ} → (K → K → Bool) → List (K × S) → List (K × S) → List (K × S)
  merge_entries eq groups [] = groups
  merge_entries eq groups ((k, other) ∷ rest) =
      merge_entries eq (put eq k (merged (find eq k groups) other) groups) rest

  module _ (double_eq : ℕ → ℕ → Bool) where
    unfoldable pub accumulate_key : Groups S → Key → D → Groups S
    accumulate_key s (string_key k) d = record s {
      string_groups = put str_eq k (accumulated (find str_eq k s.string_groups) d) s.string_groups;
    }
    accumulate_key s (num_key k) d = record s {
      num_groups = put double_eq k (accumulated (find double_eq k s.num_groups) d) s.num_groups;
    }
    accumulate_key s (bool_key true) d = record s { true_agg = some (accumulated s.true_agg d) }
    accumulate_key s (bool_key false) d = record s { false_agg = some (accumulated s.false_agg d) }
    accumulate_key s no_key d = s

    unfoldable pub merge_groups : Groups S → Groups S → Groups S
    merge_groups s o = record {
      string_groups = merge_entries str_eq s.string_groups o.string_groups;
      num_groups = merge_entries double_eq s.num_groups o.num_groups;
      true_agg = merge_optional s.true_agg o.true_agg;
      false_agg = merge_optional s.false_agg o.false_agg;
    }

    module _ (machine : Machine) (group_by : D → Option Json) (group_by_name group_name : Str) where
      -- The object of one group.
      abbrev group_object : Scalar → S → Json
      group_object k s = obj (
          member group_text (scalar k) (
            member grouped_by_text (scalar (string group_by_name))
              (member group_name (agg.terminate s) end)))

      abbrev optional_object : Bool → Option S → List Json
      optional_object b none = []
      optional_object b (some s) = group_object (bool b) s ∷ []

      unfoldable pub group_aggregator : Aggregator D (Groups S)
      group_aggregator = record {
        fresh = record { string_groups = []; num_groups = []; true_agg = none; false_agg = none };
        accumulate = λ s d. accumulate_key s (key_of machine (group_by d)) d;
        merge = merge_groups;
        terminate = λ s. arr (
            items_of (
              map (λ e. group_object (string e.0) e.1) s.string_groups
              ++ map (λ e. group_object (double e.0) e.1) s.num_groups
              ++ optional_object true s.true_agg
              ++ optional_object false s.false_agg));
      }
