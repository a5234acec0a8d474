-- ===== src/Aggregate/Exec.antt =====
-- libs/joda/core/modules/queryexecution/src/pipeline/tasks/agg/{AggPipeline,AggMerger}.cpp. The
-- aggregators of a query are an `A`, an `IAggregator` object is an `A` with its state, and all
-- states have one type. `RJPointer(..).Set` is the parameter `set`. The merger's `unordered_map` is a
-- dictionary in order of arrival.
pub mod Merged
use joda.Base.{ℕ, Option, none, some, List, [], ◌∷◌, map, fold}
use joda.Base.Dict.{find, put}
use joda.Base.Text.{Str, str_eq}
use joda.Json.{Json, obj, end}
use joda.Aggregate.{Aggregator, aggregate}

module _ {ℓ κ μ} {D : Type ℓ} {S : Type κ} {A : Type μ} (agg : A → Aggregator D S) where
  -- `agg->duplicate()` of every aggregator.
  unfoldable pub duplicates : List A → List (A × S)
  duplicates protos = map (λ a. (a, (agg a).fresh)) protos

  unfoldable pub accumulate_all : List (A × S) → D → List (A × S)
  accumulate_all aggregators d = map (λ j. (j.0, (agg j.0).accumulate j.1 d)) aggregators

  -- `AggExec::handleOne`, for the documents of one container.
  unfoldable pub handle_one : List (A × S) → List D → List (A × S)
  handle_one aggregators cont = fold accumulate_all aggregators cont

  module _ (get_dest_pointer : A → Str) (set : Str → Json → Json → Json) where
    -- The document of the results.
    unfoldable pub result_document : List (A × S) → Json
    result_document aggregators =
        fold (λ doc a. set (get_dest_pointer a.0) ((agg a.0).terminate a.1) doc) (obj end)
          aggregators

    -- `AggMergerExec::finalize`, up to the container.
    unfoldable pub finalize : List (Str × (A × S)) → Json
    unfolding result_document
    finalize aggregators = result_document (map (λ e. e.1) aggregators)

  -- The aggregator that is left under its string, `it->second` after the merge or the new one.
  abbrev pub absorbed : Option (A × S) → A × S → A × S
  absorbed none o = o
  absorbed (some e) o = (e.0, (agg e.0).merge e.1 o.1)

  module _ (to_string : A → Str) where
    -- `AggMergerExec::fillBuffer`
    unfoldable pub fill_buffer : List (Str × (A × S)) → A × S → List (Str × (A × S))
    fill_buffer aggregators o =
        let a_str = to_string o.0 in
        put str_eq a_str (absorbed (find str_eq a_str aggregators) o) aggregators
