-- ===== src/Aggregate/Group/Refines.antt =====
-- GroupAggregator.cpp: what `accumulate` and `merge` do to every group.
use joda.Base.{
  ℕ, Option, none, some, Bool, true, false, List, [], ◌∷◌, ◌≡◌, refl, ◌∙◌, ap, fold, filter,
  if◌then◌else◌,
}
use joda.Base.Dict.{IsPartialEquivalence, Unique, str_eq-IsPartialEquivalence, find}
use joda.Base.Text.{Str, str_eq}
use joda.Json.{Json}
use joda.Values.Eval.{Machine}
use joda.Aggregate.{Aggregator, aggregate}
use joda.Aggregate.Group.{
  Groups, Key, string_key, num_key, bool_key, no_key, key_of, accumulated, accumulate_key,
  group_aggregator,
}
use joda.Aggregate.Group.Found.{
  key_eq, find_key, aggregate_group, next, fold-none, find-accumulated,
}

module _ {ℓ κ} {D : Type ℓ} {S : Type κ} (agg : Aggregator D S) (double_eq : ℕ → ℕ → Bool) where
  -- No group has two entries.
  pub record IsUnique (s : Groups S) : Type 0 where
    pub string-Unique : Unique str_eq s.string_groups
    pub num-Unique : Unique double_eq s.num_groups

  module _ (e : IsPartialEquivalence double_eq) where
    find_key-accumulate_key :
        (j k : Key) (s : Groups S) (d : D)
        → find_key double_eq j (accumulate_key agg double_eq s k d) ≡ (
            if key_eq double_eq k j
            then some (accumulated agg (find_key double_eq j s) d)
            else find_key double_eq j s)
    unfolding accumulate_key
    find_key-accumulate_key (string_key j) (string_key k) s d =
        find-accumulated agg str_eq str_eq-IsPartialEquivalence k j d s.string_groups
    find_key-accumulate_key (num_key j) (num_key k) s d =
        find-accumulated agg double_eq e k j d s.num_groups
    find_key-accumulate_key (bool_key true) (bool_key true) s d = refl
    find_key-accumulate_key (bool_key false) (bool_key true) s d = refl
    find_key-accumulate_key (bool_key true) (bool_key false) s d = refl
    find_key-accumulate_key (bool_key false) (bool_key false) s d = refl
    find_key-accumulate_key _ (bool_key true) s d = refl
    find_key-accumulate_key _ (bool_key false) s d = refl
    find_key-accumulate_key (bool_key true) _ s d = refl
    find_key-accumulate_key (bool_key false) _ s d = refl
    find_key-accumulate_key _ _ s d = refl

    module _ (machine : Machine) (group_by : D → Option Json) (group_by_name group_name : Str) where
      -- Whether a document has the key.
      abbrev pub in_group : Key → D → Bool
      in_group j d = key_eq double_eq (key_of machine (group_by d)) j

      find_key-fold :
          (j : Key) (docs : List D) (s : Groups S)
          → find_key double_eq j
              (fold (λ s d. accumulate_key agg double_eq s (key_of machine (group_by d)) d) s docs)
            ≡ fold (next agg (in_group j)) (find_key double_eq j s) docs
      find_key-fold j [] s = refl
      find_key-fold j (d ∷ docs) s =
          find_key-fold j docs (accumulate_key agg double_eq s (key_of machine (group_by d)) d)
          ∙ ap (λ o. fold (next agg (in_group j)) o docs)
              (find_key-accumulate_key j (key_of machine (group_by d)) s d)

      find_key-fresh :
          (j : Key)
          → find_key double_eq j
              (group_aggregator agg double_eq machine group_by group_by_name group_name).fresh
            ≡ none
      unfolding group_aggregator find
      find_key-fresh (string_key k) = refl
      find_key-fresh (num_key k) = refl
      find_key-fresh (bool_key true) = refl
      find_key-fresh (bool_key false) = refl
      find_key-fresh no_key = refl

      -- For every key and every sequence of documents, over an equality of doubles that is symmetric
      -- and transitive, as that of IEEE is where NaN differs from itself, the GROUP aggregator holds an inner aggregator under the key if and only if one
      -- of the documents has the key, and that is the inner aggregator after exactly the documents
      -- that have the key, in their order.
      pub find_key-aggregate :
          (j : Key) (docs : List D)
          → find_key double_eq j (
              aggregate
                (group_aggregator agg double_eq machine group_by group_by_name group_name)
                docs)
            ≡ aggregate_group agg (filter (in_group j) docs)
      unfolding aggregate group_aggregator
      find_key-aggregate j docs =
          find_key-fold j docs
            (group_aggregator agg double_eq machine group_by group_by_name group_name).fresh
          ∙ ap (λ o. fold (next agg (in_group j)) o docs) (find_key-fresh j)
          ∙ fold-none agg (in_group j) docs
