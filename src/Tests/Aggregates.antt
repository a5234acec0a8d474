-- ===== src/Tests/Aggregates.antt =====
-- What is proved of the aggregators, on a few documents that are their own values.
use joda.Base.{
  ℕ, ◌+◌, ◌/◌, ◌%◌, ◌^◌, Option, none, some, Bool, true, ltb, ◌==◌, List, [], ◌∷◌, ◌++◌, ◌≡◌, refl,
  map, concat, filter, fold, arith, length,
}
use joda.Base.Dict.{IsPartialEquivalence, find}
use joda.Base.Text.{Str, str_eq, to_string}
use joda.Json.{Json, scalar, bool, uint, string, Items, arr, cons, nil}
use joda.Json.Order.{document_order}
use joda.Tests.Documents.{document}
use joda.Tests.Predicates.{naturals}
use joda.Aggregate.AttributeStat.{
  DoubleLimits, new_node, seen, accumulate, see_scalar, find_slot, place,
}
use joda.Aggregate.AttributeStat.Merged.{merge}
use joda.Aggregate.AttributeStat.Accepted.{stat, accumulate-stat}
use joda.Aggregate.{Aggregator, aggregate}
use joda.Aggregate.Count.{count_aggregator, counted, merge-counted}
use joda.Aggregate.Collect.{collect_aggregator, collected, items_of, terminate-merge}
use joda.Aggregate.Number.{Doubles}
use joda.Aggregate.Distinct.{Enabled, branch_of, distinct_aggregator}
use joda.Aggregate.Distinct.Merged.{Holds, merge-Holds}
use joda.Aggregate.Group.{num_key, group_aggregator}
use joda.Aggregate.Group.Found.{find_key, aggregate_group}
use joda.Aggregate.Group.Refines.{in_group, find_key-aggregate}
use joda.Aggregate.Exec.{fill_buffer}
use joda.Aggregate.Exec.Merged.{Message, received, joined, named_by, find-fill_buffer}
use joda.Aggregate.Window.{run_window}
use joda.Aggregate.Window.Tumbling.{windows, IsTumbling, result, run_window-IsTumbling}

abbrev itself : Json → Option Json
itself d = some d

abbrev number : ℕ → Json
number n = scalar (uint n)

abbrev text : Json
text = scalar (string (b'a' ∷ []))

abbrev first_docs : List Json
first_docs = number 3 ∷ text ∷ number 7 ∷ []

abbrev second_docs : List Json
second_docs = number 7 ∷ scalar (bool true) ∷ []

abbrev no_double : Items → ℕ
no_double items = 0

abbrev same_number : ℕ → ℕ → Bool
same_number a b = a == b

same_number-IsPartialEquivalence : IsPartialEquivalence same_number
same_number-IsPartialEquivalence = record {
  eq_sym = λ a b. ground arith;
  eq_trans = λ a b c h. ground arith;
}

abbrev exact_doubles : Doubles
exact_doubles = record { add = λ a b. a + b; div = λ a b. a / b; of_size = λ n. n }

abbrev all_enabled : Enabled
all_enabled = record { string_enabled = true; bool_enabled = true; num_enabled = true }

merge-counted_example :
    let count = count_aggregator (some itself) in
    count.merge (aggregate count first_docs) (aggregate count second_docs)
    ≡ length (filter (counted (some itself)) (first_docs ++ second_docs)) % 2 ^ 64
merge-counted_example = merge-counted (some itself) first_docs second_docs

terminate-merge_example :
    let collect = collect_aggregator itself in
    collect.terminate (collect.merge (aggregate collect first_docs) (aggregate collect second_docs))
    ≡ arr (items_of (map (collected itself) (first_docs ++ second_docs)))
terminate-merge_example = terminate-merge itself first_docs second_docs

merge-Holds_example :
    let g = distinct_aggregator naturals same_number all_enabled itself in
    Holds same_number
      (map (λ d. branch_of naturals all_enabled (some d)) (first_docs ++ second_docs))
      (g.merge (aggregate g first_docs) (aggregate g second_docs))
merge-Holds_example =
    merge-Holds naturals same_number same_number-IsPartialEquivalence all_enabled itself first_docs
      second_docs

find_key-aggregate_example :
    find_key same_number (num_key 7) (
      aggregate
        (group_aggregator (count_aggregator none) same_number naturals itself [] (b'c' ∷ []))
        (first_docs ++ second_docs))
    ≡ aggregate_group (count_aggregator none) (
        filter
          (in_group
            (count_aggregator none)
            same_number
            same_number-IsPartialEquivalence
            naturals
            itself
            []
            (b'c' ∷ [])
            (num_key 7))
          (first_docs ++ second_docs))
find_key-aggregate_example =
    find_key-aggregate (count_aggregator none) same_number same_number-IsPartialEquivalence naturals
      itself [] (b'c' ∷ []) (num_key 7) (first_docs ++ second_docs)

abbrev seven : Json → Bool
seven =
    in_group (count_aggregator none) same_number same_number-IsPartialEquivalence naturals itself []
      (b'c' ∷ []) (num_key 7)

-- The aggregators of a query are named by a string.
abbrev counts : Str → Aggregator Json ℕ
counts name = count_aggregator none

abbrev name_a : Str
name_a = b'a' ∷ []

abbrev messages : List (Message counts)
messages = (name_a, first_docs) ∷ (b'b' ∷ [], first_docs) ∷ (name_a, second_docs) ∷ []

find-fill_buffer_example :
    find str_eq name_a
      (fold (fill_buffer counts (λ name. name)) [] (map (received counts) messages))
    ≡ joined counts (filter (named_by counts (λ name. name) name_a) messages)
find-fill_buffer_example = find-fill_buffer counts (λ name. name) name_a messages

abbrev keep_last : Str → Json → Json → Json
keep_last p v doc = v

run_window-IsTumbling_example :
    (run_window counts (λ name. name) keep_last (name_a ∷ []) 2 first_docs
      ≡ map (result counts (λ name. name) keep_last (name_a ∷ []) 2) (windows 2 first_docs))
    × (concat (windows 2 first_docs) ≡ first_docs)
    × IsTumbling 2 (windows 2 first_docs)
run_window-IsTumbling_example =
    run_window-IsTumbling counts (λ name. name) keep_last (name_a ∷ []) 2 first_docs (omega arith)

-- Doubles that are their own bit patterns.
abbrev double_limits : DoubleLimits
double_limits = record { double_max = 1000; double_lowest = 0; double_lt = ltb; dcheck = true }

accumulate-stat_example :
    accumulate double_limits document_order itself (new_node double_limits) document
    ≡ some (
        stat double_limits
          (seen double_limits document_order itself document)
          (new_node double_limits))
accumulate-stat_example =
    accumulate-stat double_limits document_order itself (new_node double_limits) document
      (refl, (tt, ((refl, tt, tt), tt)), (refl, tt, tt))

-- Two threads with a document each, and one thread with both.
merged_statistics :
    let fresh = new_node double_limits in
    merge double_limits
      (stat double_limits (arr (cons document nil)) fresh)
      (stat double_limits document fresh)
    ≡ stat double_limits (arr (cons document nil)) (stat double_limits document fresh)
unfolding merge stat see_scalar find_slot place to_string str_eq
merged_statistics = refl
