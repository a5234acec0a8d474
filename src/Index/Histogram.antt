-- ===== src/Index/Histogram.antt =====
-- `HistogramBucket` of libs/joda/core/modules/indexing/src/adaptive/AdaptiveHistogram.cpp, up to its
-- `split`. A 64-bit integer `v` is the number `v + 2^63`, so that INT64_MIN is 0; `values` and `indexes`,
-- which are always changed together, are one list of pairs. `none` is a signed overflow or the exception
-- of `at`. `std::ceil(a / (double) b)` is the parameter `ceil_div`.
pub mod Split
pub mod Parts
use joda.Base.{
  ℕ, zero, suc, ◌+◌, ◌-◌, ◌/◌, ◌%◌, ◌^◌, Option, none, some, ltb, leb, List, [], ◌∷◌, ◌++◌,
  if◌then◌else◌, ◌>>=◌,
}

pub record Bucket : Type 0 where
  pub doc_count : ℕ
  pub entries : List (ℕ × ℕ)
  pub min : ℕ
  pub max : ℕ

-- INT64_MAX and INT64_MIN
abbrev pub new_bucket : Bucket
new_bucket = record { doc_count = 0; entries = []; min = 2 ^ 64 - 1; max = 0 }

-- A value and the index of its document, into a bucket.
unfoldable pub add_value : Bucket → ℕ × ℕ → Bucket
add_value b e = record {
  doc_count = (b.doc_count + 1) % 2 ^ 64;
  entries = b.entries ++ e ∷ [];
  min = if ltb e.0 b.min then e.0 else b.min;
  max = if ltb b.max e.0 then e.0 else b.max;
}

-- `std::abs(max - min) + 1`
unfoldable pub value_range : ℕ → ℕ → Option ℕ
value_range min max =
    let range = if leb min max then max - min else min - max in
    if ltb range (2 ^ 63 - 1) then some (range + 1) else none

-- `int bucketNum = (value - min) / bucketSize`, as an index of a vector.
unfoldable pub bucket_num : ℕ → ℕ → ℕ → Option ℕ
bucket_num min bucket_size value =
    let quotient =
      if leb min value
      then (value - min) / bucket_size % 2 ^ 32
      else (2 ^ 32 - (min - value) / bucket_size % 2 ^ 32) % 2 ^ 32 in
    let apart = if leb min value then value - min else min - value in
    if ltb apart (2 ^ 63) then (if ltb quotient (2 ^ 31) then some quotient else none) else none

-- `buckets->at(n)`, changed by a function.
unfoldable pub change_at : (Bucket → Bucket) → ℕ → List Bucket → Option (List Bucket)
change_at f n [] = none
change_at f zero (b ∷ bs) = some (f b ∷ bs)
change_at f (suc n) (b ∷ bs) = change_at f n bs >>= λ cs. some (b ∷ cs)

abbrev pub new_buckets : ℕ → List Bucket
new_buckets zero = []
new_buckets (suc n) = new_bucket ∷ new_buckets n

-- The loop over the values.
unfoldable pub distribute : ℕ → ℕ → List Bucket → List (ℕ × ℕ) → Option (List Bucket)
unfolding bucket_num change_at
distribute min bucket_size buckets [] = some buckets
distribute min bucket_size buckets (e ∷ es) = bucket_num min bucket_size e.0 >>= λ n.
    change_at (λ b. add_value b e) n buckets >>= λ changed. distribute min bucket_size changed es

-- The number of new buckets and their size.
unfoldable pub split_sizes : (ℕ → ℕ → ℕ) → ℕ → ℕ → ℕ × ℕ
split_sizes ceil_div split_count range =
    if ltb range split_count then (range, 1) else (split_count, ceil_div range split_count)

-- `split`: the members `bucketSize` and `buckets` after it.
unfoldable pub split : (ℕ → ℕ → ℕ) → ℕ → Bucket → Option (ℕ × List Bucket)
unfolding value_range split_sizes distribute
split ceil_div split_count b = value_range b.min b.max >>= λ range.
    let sizes = split_sizes ceil_div split_count range in
    distribute b.min sizes.1 (new_buckets sizes.0) b.entries >>= λ buckets. some (sizes.1, buckets)
