-- ===== src/Aggregate.antt =====
-- `IAggregator` of libs/joda/core/modules/query/aggregate/include/joda/query/aggregation, as the
-- interface of its subclasses: an object's state is `S`, a document is a `D`, and `fresh` is the
-- state of what `duplicate` returns. A subclass reads a document by its first parameter, `value`,
-- which is `fetch` of the module Values.
pub mod AttributeStat
pub mod Collect
pub mod Distinct
pub mod Exec
pub mod Group
pub mod Count
pub mod Number
pub mod Window
use joda.Base.{ℕ, Option, List, [], ◌∷◌, ◌++◌, ◌≡◌, sym, ◌∙◌, ap, refl, fold, fold-append}
use joda.Json.{Json}

pub record Aggregator {ℓ κ} (D : Type ℓ) (S : Type κ) : Type (ℓ ⊔ κ) where
  pub fresh : S
  pub accumulate : S → D → S
  pub merge : S → S → S
  pub terminate : S → Json

-- What one thread's aggregator holds after its documents: `AggExec::handleOne`, for one aggregator.
unfoldable pub aggregate {ℓ κ} : {D : Type ℓ} {S : Type κ} → Aggregator D S → List D → S
aggregate agg docs = fold agg.accumulate agg.fresh docs

-- Merging in a later thread's state is going on with its documents.
pub record IsMergeable {ℓ κ} {D : Type ℓ} {S : Type κ} (agg : Aggregator D S) : Type (ℓ ⊔ κ) where
  pub merge-fresh : (docs : List D) → agg.merge (aggregate agg docs) agg.fresh ≡ aggregate agg docs
  pub merge-accumulate :
      (s t : S) (d : D) → agg.merge s (agg.accumulate t d) ≡ agg.accumulate (agg.merge s t) d

module _ {ℓ κ} {D : Type ℓ} {S : Type κ} (agg : Aggregator D S) (m : IsMergeable agg) where
  merge-fold :
      (s t : S) (docs : List D)
      → agg.merge s (fold agg.accumulate t docs) ≡ fold agg.accumulate (agg.merge s t) docs
  merge-fold s t [] = refl
  merge-fold s t (d ∷ docs) =
      merge-fold s (agg.accumulate t d) docs
      ∙ ap (λ u. fold agg.accumulate u docs) (m.merge-accumulate s t d)

  pub merge-aggregate :
      (xs ys : List D) → agg.merge (aggregate agg xs) (aggregate agg ys) ≡ aggregate agg (xs ++ ys)
  unfolding aggregate
  merge-aggregate xs ys =
      merge-fold (aggregate agg xs) agg.fresh ys
      ∙ ap (λ u. fold agg.accumulate u ys) (m.merge-fresh xs)
      ∙ sym (fold-append agg.accumulate agg.fresh xs ys)
