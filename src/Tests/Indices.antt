-- ===== src/Tests/Indices.antt =====
-- What is proved of the adaptive histogram, on a bucket of three values, with exact division.
use native.Mathlib.Nat.{lt-div-mul-add}
use joda.Base.{ℕ, ◌+◌, ◌-◌, ◌/◌, ◌≤◌, some, [], ◌∷◌, ◌≡◌, fold, All, arith}
use joda.Index.Histogram.{Bucket, new_bucket, add_value, split_sizes, split}
use joda.Index.Histogram.Split.{IsFilled}
use joda.Index.Histogram.Parts.{Ceils, part, parts, split-parts}

abbrev ceiling : ℕ → ℕ → ℕ
ceiling a b = (a + b - 1) / b

ceiling-Ceils : Ceils ceiling
ceiling-Ceils a b h k = omega (arith, lt-div-mul-add {a = a + b - 1} {b = b} k)

-- The values 10, 14 and 19 of the documents 0, 1 and 2.
abbrev three_values : Bucket
three_values = record {
  doc_count = 3;
  entries = (10, 0) ∷ (14, 1) ∷ (19, 2) ∷ [];
  min = 10;
  max = 19;
}

inside : All (λ e. (three_values.min ≤ e.0) × (e.0 ≤ three_values.max)) three_values.entries
inside =
    ((omega arith, omega arith), ((omega arith, omega arith), ((omega arith, omega arith), tt)))

-- Four buckets of the size three.
split-parts_example :
    (split ceiling 4 three_values ≡ some (3, parts ceiling 4 three_values))
    × ((n : ℕ)
        → IsFilled
            (part ceiling 4 three_values n)
            (fold add_value new_bucket (part ceiling 4 three_values n)))
unfolding split_sizes
split-parts_example =
    split-parts ceiling ceiling-Ceils 4 (omega arith) (omega arith) three_values (omega arith)
      (omega arith) (omega arith) inside
