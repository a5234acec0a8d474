-- ===== src/Similarity/Jaccard/Bounds.antt =====
-- The measures lie between zero and one, are symmetric, and are one on equal representations.
use joda.Base.{◌↔◌, subst, ◌≤◌, ◌<◌, List, [], ◌∷◌, length, ◌≡◌, refl, arith}
use joda.Base.Text.{Str, str_lt_irrefl, str_lt_asymm, str_lt_total}
use joda.Similarity.Jaccard.{Quotient, set_intersection, path_measure, attribute_measure}

intersection-le :
    (xs ys : List Str)
    → (length (set_intersection xs ys) ≤ length xs) × (length (set_intersection xs ys) ≤ length ys)
unfolding set_intersection
intersection-le [] ys = omega arith
intersection-le (x ∷ xs) [] = omega arith
intersection-le (x ∷ xs) (y ∷ ys) =
    ground (arith, intersection-le xs (y ∷ ys), intersection-le xs ys, intersection-le (x ∷ xs) ys)

intersection_comm : (xs ys : List Str) → set_intersection xs ys ≡ set_intersection ys xs
unfolding set_intersection
intersection_comm [] [] = refl
intersection_comm [] (y ∷ ys) = refl
intersection_comm (x ∷ xs) [] = refl
intersection_comm (x ∷ xs) (y ∷ ys) = ground (
  arith,
  intersection_comm xs (y ∷ ys),
  intersection_comm xs ys,
  intersection_comm (x ∷ xs) ys,
  str_lt_asymm x y,
  str_lt_total x y,
)

intersection_self : (xs : List Str) → set_intersection xs xs ≡ xs
unfolding set_intersection
intersection_self [] = refl
intersection_self (x ∷ xs) = ground (arith, intersection_self xs, str_lt_irrefl x)

-- A common part as long as both lists is both of them.
intersection_full :
    (xs ys : List Str)
    → length xs ≤ length (set_intersection xs ys)
    → length ys ≤ length (set_intersection xs ys)
    → xs ≡ ys
unfolding set_intersection
intersection_full [] [] h k = refl
intersection_full [] (y ∷ ys) h k = absurd (omega arith)
intersection_full (x ∷ xs) [] h k = absurd (omega arith)
intersection_full (x ∷ xs) (y ∷ ys) h k = ground (
  arith,
  intersection-le xs (y ∷ ys),
  intersection-le (x ∷ xs) ys,
  intersection_full xs ys,
  str_lt_total x y,
)

-- What a similarity measure promises: a quotient within [0, 1], the same both ways round, and 1 on
-- equal representations and on no others.
pub record IsSimilarity (measure : List Str → List Str → Quotient) : Type 0 where
  pub defined : (a b : List Str) → 0 < (measure a b).denominator
  pub bounded : (a b : List Str) → (measure a b).numerator ≤ (measure a b).denominator
  pub symmetric : (a b : List Str) → measure a b ≡ measure b a
  pub one_iff : (a b : List Str) → ((measure a b).numerator ≡ (measure a b).denominator) ↔ (a ≡ b)

-- `PathJaccard::measure` on any two sequences of paths lies in [0, 1] with a divisor other than zero,
-- is symmetric, and is 1 exactly on equal sequences.
pub path_measure-IsSimilarity : IsSimilarity path_measure
unfolding path_measure
path_measure-IsSimilarity = record {
  defined = λ a b. ground (arith, intersection-le a b);
  bounded = λ a b. ground (arith, intersection-le a b);
  symmetric = λ a b. rw (intersection_comm a b) (ground arith);
  one_iff = λ a b. (
    λ h.
        intersection_full a b (ground (arith, intersection-le a b))
          (ground (arith, intersection-le a b)),
    λ e.
        subst (λ c. (path_measure a c).numerator ≡ (path_measure a c).denominator) e
          (rw (intersection_self a) (ground arith)),
  );
}

-- `AttributeJaccard::measure` on any two sets of attribute names, as their sorted sequences, lies in
-- [0, 1] with a divisor other than zero, is symmetric, and is 1 exactly on equal sets.
pub attribute_measure-IsSimilarity : IsSimilarity attribute_measure
unfolding attribute_measure
attribute_measure-IsSimilarity = record {
  defined = λ a b. ground (arith, intersection-le a b);
  bounded = λ a b. ground (arith, intersection-le a b);
  symmetric = λ a b. rw (intersection_comm a b) (ground arith);
  one_iff = λ a b. (
    λ h.
        intersection_full a b (ground (arith, intersection-le a b))
          (ground (arith, intersection-le a b)),
    λ e.
        subst (λ c. (attribute_measure a c).numerator ≡ (attribute_measure a c).denominator) e
          (rw (intersection_self a) (ground arith)),
  );
}
