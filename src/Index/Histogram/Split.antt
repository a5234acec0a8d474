-- ===== src/Index/Histogram/Split.antt =====
-- AdaptiveHistogram.cpp: `split` does not throw, and what its buckets hold.
use joda.Base.{
  ℕ, zero, suc, ◌+◌, ◌-◌, ◌/◌, ◌%◌, ◌^◌, ◌≤◌, ◌<◌, some, Bool, true, false, ltb, leb, ◌==◌, List,
  [], ◌∷◌, ◌++◌, ◌≡◌, ◌≢◌, ◌⊎◌, refl, ap, ap₂, sym, ◌∙◌, if◌then◌else◌, ◌>>=◌, fold, filter, All,
  All-append, All-imp, length, length-append, append-nil, append_assoc, subst, Bool-cases, inl, inr,
  arith,
}
use joda.Index.Histogram.{
  Bucket, new_bucket, add_value, bucket_num, change_at, new_buckets, distribute,
}

-- The values of a function at `k`, `k + 1`, and so on.
abbrev pub tabulate : (ℕ → Bucket) → ℕ → ℕ → List Bucket
tabulate f k zero = []
tabulate f k (suc c) = f k ∷ tabulate f (suc k) c

tabulate-ext :
    (f g : ℕ → Bucket) (k c : ℕ) → ((j : ℕ) → k ≤ j → f j ≡ g j) → tabulate f k c ≡ tabulate g k c
tabulate-ext f g k zero h = refl
tabulate-ext f g k (suc c) h =
    ap₂ (λ b bs. b ∷ bs) (h k (omega arith)) (tabulate-ext f g (suc k) c (λ j l. h j (omega arith)))

pub new_buckets-tabulate : (k c : ℕ) → new_buckets c ≡ tabulate (λ j. new_bucket) k c
new_buckets-tabulate k zero = refl
new_buckets-tabulate k (suc c) = ap (λ bs. new_bucket ∷ bs) (new_buckets-tabulate (suc k) c)

suc-add : (k n : ℕ) → suc k + n ≡ k + suc n
suc-add k n = omega arith

if-here :
    (g : Bucket → Bucket) (f : ℕ → Bucket) (k : ℕ) → g (f k) ≡ (if k == k + 0 then g (f k) else f k)
if-here g f k = let same : k == k + 0 ≡ true = ground arith in rw same refl

if-other :
    (g : Bucket → Bucket) (f : ℕ → Bucket) (j i : ℕ)
    → j ≢ i
    → f j ≡ (if j == i then g (f j) else f j)
if-other g f j i h = let other : j == i ≡ false = ground (arith, h) in rw other refl

change_at-tabulate :
    (g : Bucket → Bucket) (f : ℕ → Bucket) (n k c : ℕ)
    → n < c
    → change_at g n (tabulate f k c)
      ≡ some (tabulate (λ j. if j == k + n then g (f j) else f j) k c)
unfolding change_at
change_at-tabulate g f n k zero h = let absurd : ⊥ = omega (arith, h) in elim absurd [ ]
change_at-tabulate g f zero k (suc c) h = ap some (
    ap₂ (λ b bs. b ∷ bs) (if-here g f k)
      (tabulate-ext f (λ j. if j == k + 0 then g (f j) else f j) (suc k) c
        (λ j l. if-other g f j (k + 0) (λ p. omega arith))))
change_at-tabulate g f (suc n) k (suc c) h =
    ap (λ o. o >>= λ cs. some (f k ∷ cs)) (change_at-tabulate g f n (suc k) c (omega arith))
    ∙ ap some (
        ap₂ (λ b bs. b ∷ bs) (if-other g f k (k + suc n) (λ p. omega arith))
          (ap (λ i. tabulate (λ j. if j == i then g (f j) else f j) (suc k) c) (suc-add k n)))

-- The entries of the bucket `n`.
abbrev pub in_bucket : ℕ → ℕ → ℕ → ℕ × ℕ → Bool
in_bucket min bucket_size n e = n == (e.0 - min) / bucket_size

bucket_num-quotient :
    (min bucket_size value c : ℕ)
    → c < 2 ^ 31
    → (min ≤ value) × (value - min < 2 ^ 63) × ((value - min) / bucket_size < c)
    → bucket_num min bucket_size value ≡ some ((value - min) / bucket_size)
unfolding bucket_num
bucket_num-quotient min bucket_size value c h t =
    let above : leb min value ≡ true = ground (arith, t.0) in
    let near : ltb (value - min) (2 ^ 63) ≡ true = ground (arith, t.1) in
    let small : (value - min) / bucket_size % 2 ^ 32 ≡ (value - min) / bucket_size =
      omega (arith, t.2, h) in
    let positive : ltb ((value - min) / bucket_size) (2 ^ 31) ≡ true = ground (arith, t.2, h) in
    rw (above, near, small, positive) refl

fold-filter :
    (f : ℕ → Bucket) (n q : ℕ) (e : ℕ × ℕ) (es : List (ℕ × ℕ))
    → fold add_value (if n == 0 + q then add_value (f n) e else f n) es
      ≡ fold add_value (f n) (if n == q then e ∷ es else es)
fold-filter f n q e es = elim (Bool-cases (n == q)) [
  | inl same ↦ let other : n == 0 + q ≡ true = ground (arith, same) in rw (other, same) refl
  | inr apart ↦ let other : n == 0 + q ≡ false = ground (arith, apart) in rw (other, apart) refl
]

pub distribute-tabulate :
    (min bucket_size c : ℕ) (entries : List (ℕ × ℕ)) (f : ℕ → Bucket)
    → c < 2 ^ 31
    → All (λ e. (min ≤ e.0) × (e.0 - min < 2 ^ 63) × ((e.0 - min) / bucket_size < c)) entries
    → distribute min bucket_size (tabulate f 0 c) entries
      ≡ some
          (tabulate (λ n. fold add_value (f n) (filter (in_bucket min bucket_size n) entries)) 0 c)
unfolding distribute filter
distribute-tabulate min bucket_size c [] f h t = refl
distribute-tabulate min bucket_size c (e ∷ entries) f h t =
    rw
      (
        bucket_num-quotient min bucket_size e.0 c h t.0,
        change_at-tabulate (λ b. add_value b e) f ((e.0 - min) / bucket_size) 0 c t.0.2,
      )
      (distribute-tabulate min bucket_size c entries
          (λ j. if j == 0 + (e.0 - min) / bucket_size then add_value (f j) e else f j) h t.1
        ∙ ap some (
            tabulate-ext
              (λ n.
                fold add_value
                  (if n == 0 + (e.0 - min) / bucket_size then add_value (f n) e else f n)
                  (filter (in_bucket min bucket_size n) entries))
              (λ n. fold add_value (f n) (filter (in_bucket min bucket_size n) (e ∷ entries))) 0 c
              (λ n l.
                fold-filter f n ((e.0 - min) / bucket_size) e
                  (filter (in_bucket min bucket_size n) entries))))

-- One of the entries has the value.
abbrev pub HasValue : ℕ → List (ℕ × ℕ) → Type 0
HasValue v [] = ⊥
HasValue v (e ∷ es) = (v ≡ e.0) ⊎ HasValue v es

-- The bounds are values of entries. Those of a bucket without entries are the greatest `uint64_t`
-- and 0, below which no value falls.
abbrev pub Attained : List (ℕ × ℕ) → Bucket → Type 0
Attained [] b = (b.min ≡ 2 ^ 64 - 1) × (b.max ≡ 0)
Attained (e ∷ es) b = HasValue b.min (e ∷ es) × HasValue b.max (e ∷ es)

HasValue-more : (v : ℕ) (e : ℕ × ℕ) (es : List (ℕ × ℕ)) → HasValue v es → HasValue v (es ++ e ∷ [])
HasValue-more v e [] h = elim h [ ]
HasValue-more v e (d ∷ es) h = elim h [
  | inl p ↦ inl p
  | inr later ↦ inr (HasValue-more v e es later)
]

HasValue-last : (e : ℕ × ℕ) (es : List (ℕ × ℕ)) → HasValue e.0 (es ++ e ∷ [])
HasValue-last e [] = inl refl
HasValue-last e (d ∷ es) = inr (HasValue-last e es)

HasValue-if :
    (b : Bool) (v : ℕ) (e : ℕ × ℕ) (es : List (ℕ × ℕ))
    → HasValue v es
    → HasValue (if b then e.0 else v) (es ++ e ∷ [])
HasValue-if true v e es h = HasValue-last e es
HasValue-if false v e es h = HasValue-more v e es h

add_value-Attained :
    (es : List (ℕ × ℕ)) (b : Bucket) (e : ℕ × ℕ)
    → e.0 < 2 ^ 64
    → Attained es b
    → Attained (es ++ e ∷ []) (add_value b e)
unfolding add_value
add_value-Attained [] b e small h = (inl (ground (arith, h.0)), inl (ground (arith, h.1)))
add_value-Attained (d ∷ es) b e small h = (
  HasValue-if (ltb e.0 b.min) b.min e (d ∷ es) h.0,
  HasValue-if (ltb b.max e.0) b.max e (d ∷ es) h.1,
)

-- The count of a bucket is that of its entries, and its bounds are their least and greatest value.
pub record IsFilled (es : List (ℕ × ℕ)) (b : Bucket) : Type 0 where
  pub entries-same : b.entries ≡ es
  pub doc_count-length : b.doc_count ≡ length es % 2 ^ 64
  pub within : All (λ e. (b.min ≤ e.0) × (e.0 ≤ b.max)) es
  pub attained : Attained es b

add_value-IsFilled :
    (es : List (ℕ × ℕ)) (b : Bucket) (e : ℕ × ℕ)
    → e.0 < 2 ^ 64
    → IsFilled es b
    → IsFilled (es ++ e ∷ []) (add_value b e)
unfolding add_value
add_value-IsFilled es b e small h = record {
  attained = add_value-Attained es b e small h.attained;
  entries-same = ap (λ l. l ++ e ∷ []) h.entries-same;
  doc_count-length = omega (arith, h.doc_count-length, length-append es (e ∷ []));
  within =
      All-append
        (λ d.
          ((if ltb e.0 b.min then e.0 else b.min) ≤ d.0)
          × (d.0 ≤ (if ltb b.max e.0 then e.0 else b.max)))
        es (e ∷ [])
        (All-imp (λ d. (b.min ≤ d.0) × (d.0 ≤ b.max))
          (λ d.
            ((if ltb e.0 b.min then e.0 else b.min) ≤ d.0)
            × (d.0 ≤ (if ltb b.max e.0 then e.0 else b.max)))
          (λ d r. (ground (arith, r.0), ground (arith, r.1))) es h.within)
        ((ground arith, ground arith), tt);
}

pub fold-IsFilled :
    (ds es : List (ℕ × ℕ)) (b : Bucket)
    → All (λ e. e.0 < 2 ^ 64) ds
    → IsFilled es b
    → IsFilled (es ++ ds) (fold add_value b ds)
fold-IsFilled [] es b small h = subst (λ l. IsFilled l b) (sym (append-nil es)) h
fold-IsFilled (d ∷ ds) es b small h =
    subst (λ l. IsFilled l (fold add_value (add_value b d) ds)) (append_assoc es (d ∷ []) ds)
      (fold-IsFilled ds (es ++ d ∷ []) (add_value b d) small.1
        (add_value-IsFilled es b d small.0 h))
