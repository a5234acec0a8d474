-- ===== src/Base/Dict.antt =====
-- Dictionaries as association lists, over an equality test on keys: what the models need of
-- `std::unordered_map` and `std::map`.
use mathlib.Core.Bool.{Bool, true, false, ◌||◌}
use mathlib.Core.Path.{◌≡◌, refl, ap}
use mathlib.Core.Option.{Option, none, some}
use mathlib.Core.List.{List, [], ◌∷◌}
use Prim.Native.Nat.{ℕ}
use native.Mathlib.Omega.{arith}
use mathlib.Core.Logic.{inl, inr}
use joda.Base.Tests.{if◌then◌else◌, Bool-cases, ◌==◌}
use joda.Base.Int.{ℤ, pos, negsuc, int_eq, int_eq→eq}
use joda.Base.Text.{Str, str_eq, str_eq→eq}

-- A test that is symmetric and transitive. A key may differ from itself, as NaN does: it is then never
-- found, and every `put` of it adds an entry.
pub record IsPartialEquivalence {ℓ} {K : Type ℓ} (eq : K → K → Bool) : Type ℓ where
  pub eq_sym : (a b : K) → eq a b ≡ eq b a
  pub eq_trans : (a b c : K) → eq a b ≡ true → eq a c ≡ eq b c

module _ {ℓ κ} {K : Type ℓ} {V : Type κ} (eq : K → K → Bool) where
  unfoldable pub find : K → List (K × V) → Option V
  find k [] = none
  find k ((j, v) ∷ m) = let rest = find k m in if eq j k then some v else rest

  unfoldable pub put : K → V → List (K × V) → List (K × V)
  put k v [] = (k, v) ∷ []
  put k v ((j, w) ∷ m) = let rest = put k v m in if eq j k then (j, v) ∷ m else (j, w) ∷ rest

  unfoldable pub has : K → List (K × V) → Bool
  has k [] = false
  has k ((j, v) ∷ m) = eq j k || has k m

  -- No two entries have the same key.
  abbrev pub Unique : List (K × V) → Type 0
  Unique [] = Unit
  Unique ((j, v) ∷ m) = (has j m ≡ false) × Unique m

  module _ (e : IsPartialEquivalence eq) where
    pub find-put :
        (k j : K) (v : V) (m : List (K × V))
        → find j (put k v m) ≡ (if eq k j then some v else find j m)
    unfolding find put
    find-put k j v [] = refl
    find-put k j v ((i, w) ∷ m) = elim (Bool-cases (eq i k)) [
      | inl h ↦ rw h (rw (e.eq_trans i k j h) (ground arith))
      | inr h ↦ rw h (ground (arith, find-put k j v m, e.eq_trans i j k, e.eq_sym k j))
    ]

    pub has-put : (k j : K) (v : V) (m : List (K × V)) → has j (put k v m) ≡ (eq k j || has j m)
    unfolding has put
    has-put k j v [] = refl
    has-put k j v ((i, w) ∷ m) = elim (Bool-cases (eq i k)) [
      | inl h ↦ rw h (rw (e.eq_trans i k j h) (ground arith))
      | inr h ↦ rw h (ground (arith, has-put k j v m))
    ]

    pub put-Unique : (k : K) (v : V) (m : List (K × V)) → Unique m → Unique (put k v m)
    unfolding put has
    put-Unique k v [] h = (refl, tt)
    put-Unique k v ((i, w) ∷ m) h = elim (Bool-cases (eq i k)) [
      | inl same ↦ rw same h
      | inr other ↦
          rw other (ground (arith, has-put k i v m, h.0, e.eq_sym i k), put-Unique k v m h.1)
    ]

    pub find-has : (k : K) (m : List (K × V)) → has k m ≡ false → find k m ≡ none
    unfolding find has
    find-has k [] h = refl
    find-has k ((j, v) ∷ m) h = ground (arith, find-has k m)

str_eq_sym : (a b : Str) → str_eq a b ≡ str_eq b a
unfolding str_eq
str_eq_sym [] [] = refl
str_eq_sym [] (y ∷ ys) = refl
str_eq_sym (x ∷ xs) [] = refl
str_eq_sym (x ∷ xs) (y ∷ ys) = ground (arith, str_eq_sym xs ys)

pub str_eq-IsPartialEquivalence : IsPartialEquivalence str_eq
str_eq-IsPartialEquivalence = record {
  eq_sym = str_eq_sym;
  eq_trans = λ a b c h. ap (λ x. str_eq x c) (str_eq→eq a b h);
}

module _ {ℓ κ} {K : Type ℓ} {V : Type κ} (eq : K → K → Bool) (e : IsPartialEquivalence eq) where
  pub find-eq : (k j : K) (m : List (K × V)) → eq k j ≡ true → find eq k m ≡ find eq j m
  unfolding find
  find-eq k j [] h = refl
  find-eq k j ((i, v) ∷ m) h =
      ground (arith, find-eq k j m h, e.eq_sym i k, e.eq_sym i j, e.eq_trans k j i h)

  -- The entry of `k` is replaced by a function of what was there.
  pub find-update :
      (f : Option V → V) (k j : K) (m : List (K × V))
      → find eq j (put eq k (f (find eq k m)) m)
        ≡ (if eq k j then some (f (find eq j m)) else find eq j m)
  find-update f k j m = elim (Bool-cases (eq k j)) [
    | inl same ↦ rw (find-put eq e k j (f (find eq k m)) m, same, find-eq k j m same) refl
    | inr other ↦ rw (find-put eq e k j (f (find eq k m)) m, other) refl
  ]

pub nat_eq_refl : (a : ℕ) → a == a ≡ true
nat_eq_refl a = ground arith

pub nat_eq-IsPartialEquivalence : IsPartialEquivalence ◌==◌
nat_eq-IsPartialEquivalence = record {
  eq_sym = λ a b. ground arith;
  eq_trans = λ a b c h. ground arith;
}

int_eq_sym : (i j : ℤ) → int_eq i j ≡ int_eq j i
int_eq_sym (pos a) (pos b) = ground arith
int_eq_sym (negsuc a) (negsuc b) = ground arith
int_eq_sym (pos a) (negsuc b) = refl
int_eq_sym (negsuc a) (pos b) = refl

pub int_eq-IsPartialEquivalence : IsPartialEquivalence int_eq
int_eq-IsPartialEquivalence = record {
  eq_sym = int_eq_sym;
  eq_trans = λ a b c h. ap (λ x. int_eq x c) (int_eq→eq a b h);
}
