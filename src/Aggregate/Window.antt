-- ===== src/Aggregate/Window.antt =====
-- libs/joda/core/modules/queryexecution/src/pipeline/tasks/agg/WindowAgg.cpp. The containers that were
-- sent are the documents in them; `aggregated` is below the window size between two documents, so it
-- does not wrap.
pub mod Tumbling
use joda.Base.{
  ℕ, ◌+◌, ◌≤◌, ◌<◌, suc, Option, none, some, List, [], ◌∷◌, ◌++◌, ◌≡◌, refl, map, fold, concat,
  length, length-append, ltb, leb, if◌then◌else◌, arith,
}
use joda.Base.Text.{Str}
use joda.Json.{Json}
use joda.Aggregate.{Aggregator, aggregate}
use joda.Aggregate.Exec.{duplicates, accumulate_all, result_document}

pub record Window {κ} (O : Type κ) : Type κ where
  pub aggregated : ℕ
  pub current_aggregators : O
  pub sent : List Json

module _ {ℓ κ μ} {D : Type ℓ} {S : Type κ} {A : Type μ} (agg : A → Aggregator D S)
    (get_dest_pointer : A → Str) (set : Str → Json → Json → Json) (protos : List A)
    (window_size : ℕ) where
  -- `finalizeCurrentAggregators` and the sending of its container.
  unfoldable pub finalize_current : Window (List (A × S)) → Window (List (A × S))
  finalize_current w = record {
    aggregated = 0;
    current_aggregators = duplicates agg protos;
    sent = w.sent ++ result_document agg get_dest_pointer set w.current_aggregators ∷ [];
  }

  -- `fillBuffer`, for one document.
  unfoldable pub window_step : Window (List (A × S)) → D → Window (List (A × S))
  window_step w d =
      let next = record w {
        aggregated = w.aggregated + 1;
        current_aggregators = accumulate_all agg w.current_aggregators d;
      } in
      if leb window_size (w.aggregated + 1) then finalize_current next else next

  unfoldable pub finalize_window : Window (List (A × S)) → List Json
  finalize_window w = if ltb 0 w.aggregated then (finalize_current w).sent else w.sent

  -- All documents of a stream.
  unfoldable pub run_window : List D → List Json
  run_window docs = finalize_window (
      fold window_step
        (record { aggregated = 0; current_aggregators = duplicates agg protos; sent = [] }) docs)
