-- ===== src/Aggregate/Group/Found.antt =====
-- The groups of GroupAggregator.cpp as a map from keys to states, and the reference: the aggregate of
-- the documents that have the key.
use joda.Base.{
  ℕ, Option, none, some, Bool, true, false, List, [], ◌∷◌, ◌≡◌, refl, ◌∙◌, sym, fold, filter,
  if◌then◌else◌, Bool-cases, inl, inr,
}
use joda.Base.Dict.{IsPartialEquivalence, find, put, Unique, find-has, find-eq, find-update}
use joda.Base.Text.{str_eq}
use joda.Aggregate.{Aggregator, aggregate}
use joda.Aggregate.Group.{
  Groups, Key, string_key, num_key, bool_key, no_key, accumulated, merged, merge_optional,
  merge_entries,
}

abbrev same_bool : Bool → Bool → Bool
same_bool true b = b
same_bool false true = false
same_bool false false = true

-- A document without a key is in no group.
abbrev pub key_eq : (ℕ → ℕ → Bool) → Key → Key → Bool
key_eq double_eq (string_key s) (string_key t) = str_eq s t
key_eq double_eq (num_key x) (num_key y) = double_eq x y
key_eq double_eq (bool_key a) (bool_key b) = same_bool a b
key_eq double_eq _ _ = false

-- The state of a group.
abbrev pub find_key {κ} : {S : Type κ} → (ℕ → ℕ → Bool) → Key → Groups S → Option S
find_key double_eq (string_key k) s = find str_eq k s.string_groups
find_key double_eq (num_key k) s = find double_eq k s.num_groups
find_key double_eq (bool_key true) s = s.true_agg
find_key double_eq (bool_key false) s = s.false_agg
find_key double_eq no_key s = none

module _ {ℓ κ} {D : Type ℓ} {S : Type κ} (agg : Aggregator D S) where
  -- A group is there only when it has a document.
  unfoldable pub aggregate_group : List D → Option S
  aggregate_group [] = none
  aggregate_group (d ∷ docs) = some (aggregate agg (d ∷ docs))

  module _ (test : D → Bool) where
    abbrev pub next : Option S → D → Option S
    next o d = if test d then some (accumulated agg o d) else o

    fold-some :
        (docs : List D) (s : S)
        → fold next (some s) docs ≡ some (fold agg.accumulate s (filter test docs))
    unfolding filter
    fold-some [] s = refl
    fold-some (d ∷ docs) s = elim (Bool-cases (test d)) [
      | inl hit ↦ rw hit (fold-some docs (agg.accumulate s d))
      | inr miss ↦ rw miss (fold-some docs s)
    ]

    pub fold-none : (docs : List D) → fold next none docs ≡ aggregate_group (filter test docs)
    unfolding filter aggregate_group aggregate
    fold-none [] = refl
    fold-none (d ∷ docs) = elim (Bool-cases (test d)) [
      | inl hit ↦ rw hit (fold-some docs (agg.accumulate agg.fresh d))
      | inr miss ↦ rw miss (fold-none docs)
    ]

  module _ {μ} {K : Type μ} (eq : K → K → Bool) (e : IsPartialEquivalence eq) where
    pub find-accumulated :
        (k j : K) (d : D) (m : List (K × S))
        → find eq j (put eq k (accumulated agg (find eq k m) d) m)
          ≡ (if eq k j then some (accumulated agg (find eq j m) d) else find eq j m)
    find-accumulated k j d m = find-update eq e (λ o. accumulated agg o d) k j m

    pub find-merge_entries :
        (j : K) (o m : List (K × S))
        → Unique eq o
        → find eq j (merge_entries agg eq m o) ≡ merge_optional agg (find eq j m) (find eq j o)
    unfolding merge_entries find
    find-merge_entries j [] m u = refl
    find-merge_entries j ((k, v) ∷ o) m u = elim (Bool-cases (eq k j)) [
      | inl same ↦
          find-merge_entries j o (put eq k (merged agg (find eq k m) v) m) u.1
          ∙ rw
              (
                find-update eq e (λ x. merged agg x v) k j m,
                same,
                sym (find-eq eq e k j o same),
                find-has eq e k o u.0,
              )
              refl
      | inr other ↦
          find-merge_entries j o (put eq k (merged agg (find eq k m) v) m) u.1
          ∙ rw (find-update eq e (λ x. merged agg x v) k j m, other) refl
    ]
