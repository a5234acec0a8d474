-- ===== src/Index/Histogram/Parts.antt =====
-- AdaptiveHistogram.cpp: the whole of `split`.
use Prim.Native.Nat.{◌≤◌}
use native.Mathlib.Nat.{div-lt_iff_lt-mul, mul_comm}
use joda.Base.{
  ℕ, zero, suc, ◌+◌, ◌-◌, ◌*◌, ◌/◌, ◌^◌, ◌<◌, some, Bool, ltb, List, [], ◌∷◌, ◌≡◌, refl, fold,
  filter, All, All-imp, Bool-cases, inl, inr, arith,
}
use joda.Index.Histogram.{Bucket, new_bucket, add_value, value_range, split_sizes, split}
use joda.Index.Histogram.Split.{
  tabulate, new_buckets-tabulate, in_bucket, distribute-tabulate, IsFilled, fold-IsFilled,
}

-- What `std::ceil(a / (double) b)` is, below 2^50.
abbrev pub Ceils : (ℕ → ℕ → ℕ) → Type 0
Ceils ceil_div = (a b : ℕ) → a < 2 ^ 50 → 1 ≤ b → a ≤ ceil_div a b * b

module _ (ceil_div : ℕ → ℕ → ℕ) (split_count : ℕ) (b : Bucket) where
  abbrev pub sizes : ℕ × ℕ
  sizes = split_sizes ceil_div split_count (b.max - b.min + 1)

  -- The entries whose value is in the range of the bucket `n`, in their order.
  abbrev pub part : ℕ → List (ℕ × ℕ)
  part n = filter (in_bucket b.min sizes.1 n) b.entries

  abbrev pub parts : List Bucket
  parts = tabulate (λ n. fold add_value new_bucket (part n)) 0 sizes.0

All-filter {ℓ κ} :
    {A : Type ℓ} (P : A → Type κ) (test : A → Bool) (xs : List A)
    → All P xs
    → All P (filter test xs)
unfolding filter
All-filter P test [] h = tt
All-filter P test (x ∷ xs) h = elim (Bool-cases (test x)) [
  | inl hit ↦ rw hit (h.0, All-filter P test xs h.1)
  | inr miss ↦ rw miss (All-filter P test xs h.1)
]

positive : (x y r : ℕ) → 1 ≤ r → r ≤ x * y → 0 < x
positive zero y r h k = omega (arith, h, k)
positive (suc x) y r h k = omega arith

module _ (ceil_div : ℕ → ℕ → ℕ) (ceils : Ceils ceil_div) (split_count : ℕ)
    (some_parts : 1 ≤ split_count) (int_count : split_count < 2 ^ 31) where
  split_sizes-fit :
      (range offset : ℕ)
      → 1 ≤ range
      → range < 2 ^ 50
      → offset < range
      → offset / (split_sizes ceil_div split_count range).1
        < (split_sizes ceil_div split_count range).0
  unfolding split_sizes
  split_sizes-fit range offset h g l = elim (Bool-cases (ltb range split_count)) [
    | inl few ↦ rw few (omega arith)
    | inr many ↦
        let size = ceil_div range split_count in
        let big : range ≤ size * split_count = ceils range split_count g some_parts in
        rw many (
          (div-lt_iff_lt-mul (positive size split_count range h big)).1
            (omega (arith, big, l, mul_comm size split_count)))
  ]

  split_sizes-int : (range : ℕ) → (split_sizes ceil_div split_count range).0 < 2 ^ 31
  unfolding split_sizes
  split_sizes-int range = ground arith

  module _ (b : Bucket) (ordered : b.min ≤ b.max) (narrow : b.max - b.min + 1 < 2 ^ 50)
      (wide : b.max < 2 ^ 64) (within : All (λ e. (b.min ≤ e.0) × (e.0 ≤ b.max)) b.entries) where
    value_range-ordered : value_range b.min b.max ≡ some (b.max - b.min + 1)
    unfolding value_range
    value_range-ordered = ground arith

    -- For every bucket whose bounds contain its values, are less than 2^50 apart and fit a `uint64_t`,
    -- and every split count from 1 to 2^31 - 1, where the ceiling of a quotient of doubles is
    -- not below the quotient, split neither overflows nor throws: its buckets are, in order, those of
    -- the consecutive ranges of the new size, each holds exactly the entries in its range in their
    -- order, its count is that of its entries and its bounds are their least and greatest value, or
    -- the bounds of a new bucket where it has none.
    pub split-parts :
        (split ceil_div split_count b
          ≡ some ((sizes ceil_div split_count b).1, parts ceil_div split_count b))
        × ((n : ℕ)
            → IsFilled
                (part ceil_div split_count b n)
                (fold add_value new_bucket (part ceil_div split_count b n)))
    unfolding split
    split-parts = (
      rw
          (
            value_range-ordered,
            new_buckets-tabulate 0 (sizes ceil_div split_count b).0,
            distribute-tabulate b.min (sizes ceil_div split_count b).1
                (sizes ceil_div split_count b).0 b.entries (λ n. new_bucket)
                (split_sizes-int (b.max - b.min + 1)) fits,
          )
          refl,
      λ n.
          fold-IsFilled (part ceil_div split_count b n) [] new_bucket
            (All-filter (λ e. e.0 < 2 ^ 64) (in_bucket b.min (sizes ceil_div split_count b).1 n)
              b.entries
              (All-imp (λ e. (b.min ≤ e.0) × (e.0 ≤ b.max)) (λ e. e.0 < 2 ^ 64)
                (λ e r. omega (arith, r, wide)) b.entries within))
            (record {
              entries-same = refl;
              doc_count-length = refl;
              within = tt;
              attained = (refl, refl);
            }),
    )
      where
        fits :
            All
              (λ e.
                (b.min ≤ e.0)
                × (e.0 - b.min < 2 ^ 63)
                × ((e.0 - b.min) / (sizes ceil_div split_count b).1
                    < (sizes ceil_div split_count b).0))
              b.entries
        fits =
            All-imp (λ e. (b.min ≤ e.0) × (e.0 ≤ b.max))
              (λ e.
                (b.min ≤ e.0)
                × (e.0 - b.min < 2 ^ 63)
                × ((e.0 - b.min) / (sizes ceil_div split_count b).1
                    < (sizes ceil_div split_count b).0))
              (λ e r. (
                r.0,
                omega (arith, r, narrow),
                split_sizes-fit (b.max - b.min + 1) (e.0 - b.min) (omega arith) narrow
                    (omega (arith, r, ordered)),
              ))
              b.entries within
