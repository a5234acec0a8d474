-- ===== src/Aggregate/Distinct/Sets.antt =====
-- The sets of DistinctAggregator.cpp: what they hold after documents and after a merge.
use joda.Base.{
  Bool, true, false, ◌||◌, List, [], ◌∷◌, ◌++◌, ◌≡◌, refl, fold-append, Bool-cases, inl, inr, arith,
}
use joda.Base.Dict.{IsPartialEquivalence}
use joda.Aggregate.Distinct.{contains, insert, merge_set}

module _ {A : Type 0} (eq : A → A → Bool) where
  -- No element stands twice.
  abbrev pub Different : List A → Type 0
  Different [] = Unit
  Different (x ∷ xs) = (contains eq x xs ≡ false) × Different xs

  contains-append :
      (a : A) (xs ys : List A) → contains eq a (xs ++ ys) ≡ (contains eq a xs || contains eq a ys)
  contains-append a [] ys = refl
  contains-append a (x ∷ xs) ys = ground (arith, contains-append a xs ys)

  module _ (e : IsPartialEquivalence eq) where
    contains-eq : (a b : A) (xs : List A) → eq a b ≡ true → contains eq a xs ≡ contains eq b xs
    contains-eq a b [] h = refl
    contains-eq a b (x ∷ xs) h =
        ground (arith, contains-eq a b xs h, e.eq_trans a b x h, e.eq_sym a x, e.eq_sym b x)

    contains-insert :
        (a b : A) (xs : List A) → contains eq b (insert eq xs a) ≡ (contains eq b xs || eq a b)
    contains-insert a b xs = ground (arith, contains-append b xs (a ∷ []), contains-eq a b xs)

    pub contains-merge_set :
        (a : A) (xs ys : List A)
        → contains eq a (merge_set eq xs ys) ≡ (contains eq a xs || contains eq a ys)
    contains-merge_set a xs [] = ground arith
    contains-merge_set a xs (y ∷ ys) =
        ground (arith, contains-merge_set a (insert eq xs y) ys, contains-insert y a xs)

    pub merge_set-insert :
        (xs ys : List A) (a : A)
        → merge_set eq xs (insert eq ys a) ≡ insert eq (merge_set eq xs ys) a
    merge_set-insert xs ys a = elim (Bool-cases (contains eq a ys)) [
      | inl old ↦ rw (old, contains-merge_set a xs ys) (ground arith)
      | inr new ↦ rw new (fold-append (insert eq) xs ys (a ∷ []))
    ]

    append-Different :
        (xs : List A) (a : A) → contains eq a xs ≡ false → Different xs → Different (xs ++ a ∷ [])
    append-Different [] a h d = (refl, tt)
    append-Different (x ∷ xs) a h d = (
      ground (arith, contains-append x xs (a ∷ []), e.eq_sym a x, h, d.0),
      append-Different xs a (ground arith) d.1,
    )

    insert-Different : (xs : List A) (a : A) → Different xs → Different (insert eq xs a)
    insert-Different xs a d = elim (Bool-cases (contains eq a xs)) [
      | inl old ↦ rw old d
      | inr new ↦ rw new (append-Different xs a new d)
    ]

    pub merge_set-Different : (xs ys : List A) → Different xs → Different (merge_set eq xs ys)
    merge_set-Different xs [] d = d
    merge_set-Different xs (y ∷ ys) d =
        merge_set-Different (insert eq xs y) ys (insert-Different xs y d)
