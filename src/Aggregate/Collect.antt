-- ===== src/Aggregate/Collect.antt =====
-- libs/joda/core/modules/query/aggregate/src/CollectAggregator.cpp. The list's elements, and null for
-- a document without the value, are copies that no other object shares.
use joda.Base.{
  Option, none, some, List, [], ◌∷◌, ◌++◌, ◌≡◌, ◌∙◌, sym, ap, fold, map, append-nil, append_assoc,
}
use joda.Json.{Json, scalar, null, arr, Items, nil, cons}
use joda.Aggregate.{Aggregator, aggregate, IsMergeable, merge-aggregate}

abbrev pub items_of : List Json → Items
items_of [] = nil
items_of (x ∷ xs) = cons x (items_of xs)

module _ {ℓ} {D : Type ℓ} (value : D → Option Json) where
  -- What `PushBack` receives.
  abbrev pub collected : D → Json
  collected d = elim (value d) [ none ↦ scalar null | some v ↦ v ]

  unfoldable pub collect_aggregator : Aggregator D (List Json)
  collect_aggregator = record {
    fresh = [];
    accumulate = λ list d. list ++ collected d ∷ [];
    merge = λ list other. list ++ other;
    terminate = λ list. arr (items_of list);
  }

  fold-collected :
      (list : List Json) (docs : List D)
      → fold (λ list d. list ++ collected d ∷ []) list docs ≡ list ++ map collected docs
  fold-collected list [] = sym (append-nil list)
  fold-collected list (d ∷ docs) =
      fold-collected (list ++ collected d ∷ []) docs
      ∙ append_assoc list (collected d ∷ []) (map collected docs)

  pub collect_aggregator-IsMergeable : IsMergeable collect_aggregator
  unfolding collect_aggregator
  collect_aggregator-IsMergeable = record {
    merge-fresh = λ docs. append-nil (aggregate collect_aggregator docs);
    merge-accumulate = λ s t d. sym (append_assoc s t (collected d ∷ []));
  }

  terminate-collected :
      (docs : List D)
      → collect_aggregator.terminate (aggregate collect_aggregator docs)
        ≡ arr (items_of (map collected docs))
  unfolding collect_aggregator aggregate
  terminate-collected docs = ap (λ list. arr (items_of list)) (fold-collected [] docs)

  -- For every two sequences of documents, what COLLECT gives after merging the aggregators of both is
  -- the array with one element for every document of both, in their order: its value, or null when it
  -- has none.
  pub terminate-merge :
      (xs ys : List D)
      → collect_aggregator.terminate (
          collect_aggregator.merge
            (aggregate collect_aggregator xs)
            (aggregate collect_aggregator ys))
        ≡ arr (items_of (map collected (xs ++ ys)))
  terminate-merge xs ys =
      ap collect_aggregator.terminate
        (merge-aggregate collect_aggregator collect_aggregator-IsMergeable xs ys)
      ∙ terminate-collected (xs ++ ys)
