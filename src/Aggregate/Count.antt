-- ===== src/Aggregate/Count.antt =====
-- libs/joda/core/modules/query/aggregate/src/CountAggregator.cpp. The counter is an `ulong`.
use joda.Base.{
  ℕ, ◌+◌, ◌-◌, ◌%◌, ◌^◌, ◌<◌, Option, none, some, Bool, true, false, List, [], ◌∷◌, ◌++◌, ◌≡◌, refl,
  fold, ltb, if◌then◌else◌, arith, Bool-cases, inl, inr, ◌∙◌, filter, length,
}
use joda.Base.Int.{ℤ, pos, negsuc}
use joda.Json.{Json, scalar, int64}
use joda.Aggregate.{Aggregator, aggregate, IsMergeable, merge-aggregate}

module _ {ℓ} {D : Type ℓ} (value : Option (D → Option Json)) where
  -- Whether `count++` is reached.
  unfoldable pub counted : D → Bool
  counted d = elim value [
    | none ↦ true
    | some param ↦ elim (param d) [ none ↦ false | some v ↦ true ]
  ]

-- `SetInt64` of an unsigned number.
abbrev pub to_int64 : ℕ → ℤ
to_int64 n = if ltb n (2 ^ 63) then pos n else negsuc (2 ^ 64 - 1 - n)

module _ {ℓ} {D : Type ℓ} (value : Option (D → Option Json)) where
  unfoldable accumulate : ℕ → D → ℕ
  accumulate count d = if counted value d then (count + 1) % 2 ^ 64 else count

  unfoldable pub count_aggregator : Aggregator D ℕ
  unfolding accumulate
  count_aggregator = record {
    fresh = 0;
    accumulate = accumulate;
    merge = λ count other. (count + other) % 2 ^ 64;
    terminate = λ count. scalar (int64 (to_int64 count));
  }

  fold-counted :
      (docs : List D) (n : ℕ)
      → n < 2 ^ 64
      → fold accumulate n docs ≡ (n + length (filter (counted value) docs)) % 2 ^ 64
  unfolding accumulate filter
  fold-counted [] n h = omega (arith, h)
  fold-counted (d ∷ docs) n h = elim (Bool-cases (counted value d)) [
    | inl hit ↦ rw hit (fold-counted docs ((n + 1) % 2 ^ 64) (omega arith) ∙ (omega arith))
    | inr miss ↦ rw miss (fold-counted docs n h)
  ]

  aggregate-counted :
      (docs : List D)
      → aggregate count_aggregator docs ≡ length (filter (counted value) docs) % 2 ^ 64
  unfolding aggregate count_aggregator accumulate
  aggregate-counted docs = fold-counted docs 0 (omega arith) ∙ (omega arith)

  pub count-IsMergeable : IsMergeable count_aggregator
  unfolding count_aggregator accumulate
  count-IsMergeable = record {
    merge-fresh = λ docs. rw (aggregate-counted docs) (omega arith);
    merge-accumulate = λ s t d. elim (Bool-cases (counted value d)) [
      | inl hit ↦ rw hit (omega arith)
      | inr miss ↦ rw miss refl
    ];
  }

  -- For every two sequences of documents, merging the COUNT aggregators after them gives the number
  -- of the documents of both that are counted, modulo 2^64.
  pub merge-counted :
      (xs ys : List D)
      → count_aggregator.merge (aggregate count_aggregator xs) (aggregate count_aggregator ys)
        ≡ length (filter (counted value) (xs ++ ys)) % 2 ^ 64
  merge-counted xs ys =
      merge-aggregate count_aggregator count-IsMergeable xs ys ∙ aggregate-counted (xs ++ ys)
