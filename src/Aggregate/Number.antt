-- ===== src/Aggregate/Number.antt =====
-- `NumberAggregator<T>` of libs/joda/core/modules/query/aggregate/include/joda/query/aggregation/
-- NumberAggregator.h. A double is its bit pattern, and what the machine does with doubles is a
-- parameter. `T` is a `Func`; its `isAggregated` and `val` are one `Option`.
use joda.Base.{
  ℕ, ◌+◌, ◌%◌, ◌^◌, Option, none, some, Bool, List, [], ◌∷◌, ◌≡◌, refl, fold, fold-append,
  if◌then◌else◌, concat, map, ap, ◌∙◌, sym,
}
use joda.Json.{Json, scalar, arr, Items, nil, cons, null, double}
use joda.Values.Eval.{Machine, is_number}
use joda.Aggregate.{Aggregator, aggregate, IsMergeable}

pub record Func (AggRep : Type 0) : Type 0 where
  pub aggregate_first : ℕ → AggRep
  pub aggregate_rep : AggRep → AggRep → AggRep
  pub aggregate_one : AggRep → ℕ → AggRep
  pub get_double : AggRep → ℕ

-- `+` and `/` of doubles, and the conversion of a `size_t`.
pub record Doubles : Type 0 where
  pub add : ℕ → ℕ → ℕ
  pub div : ℕ → ℕ → ℕ
  pub of_size : ℕ → ℕ

module _ (lt : ℕ → ℕ → Bool) where
  -- `std::min` and `std::max`
  abbrev pub std_min : ℕ → ℕ → ℕ
  std_min a b = if lt b a then b else a

  abbrev pub std_max : ℕ → ℕ → ℕ
  std_max a b = if lt a b then b else a

  abbrev pub min_func : Func ℕ
  min_func = record {
    aggregate_first = λ val. val;
    aggregate_rep = std_min;
    aggregate_one = std_min;
    get_double = λ val. val;
  }

  abbrev pub max_func : Func ℕ
  max_func = record {
    aggregate_first = λ val. val;
    aggregate_rep = std_max;
    aggregate_one = std_max;
    get_double = λ val. val;
  }

module _ (doubles : Doubles) where
  abbrev pub sum_func : Func ℕ
  sum_func = record {
    aggregate_first = λ val. val;
    aggregate_rep = doubles.add;
    aggregate_one = doubles.add;
    get_double = λ val. val;
  }

  abbrev pub average_func : Func (ℕ × ℕ)
  average_func = record {
    aggregate_first = λ val. (1, val);
    aggregate_rep = λ old val. ((old.0 + val.0) % 2 ^ 64, doubles.add old.1 val.1);
    aggregate_one = λ old val. ((old.0 + 1) % 2 ^ 64, doubles.add old.1 val);
    get_double = λ val. doubles.div val.1 (doubles.of_size val.0);
  }

module _ {AggRep : Type 0} (func : Func AggRep) where
  abbrev pub feed : Option AggRep → ℕ → Option AggRep
  feed none val = some (func.aggregate_first val)
  feed (some old) val = some (func.aggregate_one old val)

  abbrev pub merge_rep : Option AggRep → Option AggRep → Option AggRep
  merge_rep val none = val
  merge_rep none (some other) = some other
  merge_rep (some old) (some other) = some (func.aggregate_rep old other)

  abbrev terminate : Option AggRep → Json
  terminate none = scalar null
  terminate (some val) = scalar (double (func.get_double val))

module _ (machine : Machine) (array_double : Items → ℕ) (enable_array : Bool) where
  -- The elements of an array `whole`: the source reads `whole`, not the element.
  item_numbers : Items → Items → List ℕ
  item_numbers whole nil = []
  item_numbers whole (cons (scalar x) items) =
      let rest = item_numbers whole items in if is_number x then array_double whole ∷ rest else rest
  item_numbers whole (cons x items) = item_numbers whole items

  -- The doubles that a value hands to `T`.
  unfoldable pub value_numbers : Option Json → List ℕ
  unfolding item_numbers
  value_numbers (some (scalar x)) = if is_number x then machine.get_double x ∷ [] else []
  value_numbers (some (arr items)) = if enable_array then item_numbers items items else []
  value_numbers _ = []

module _ {ℓ} {D : Type ℓ} {AggRep : Type 0} (machine : Machine) (array_double : Items → ℕ)
    (enable_array : Bool) (func : Func AggRep) (value : D → Option Json) where
  -- The doubles of a document.
  abbrev pub numbers : D → List ℕ
  numbers d = value_numbers machine array_double enable_array (value d)

  unfoldable pub number_aggregator : Aggregator D (Option AggRep)
  number_aggregator = record {
    fresh = none;
    accumulate = λ s d. fold (feed func) s (numbers d);
    merge = merge_rep func;
    terminate = terminate func;
  }

  pub aggregate-numbers :
      (docs : List D)
      → aggregate number_aggregator docs ≡ fold (feed func) none (concat (map numbers docs))
  unfolding aggregate number_aggregator concat
  aggregate-numbers docs = go none docs
    where
      go :
          (s : Option AggRep) (docs : List D)
          → fold (λ s d. fold (feed func) s (numbers d)) s docs
            ≡ fold (feed func) s (concat (map numbers docs))
      go s [] = refl
      go s (d ∷ docs) =
          go (fold (feed func) s (numbers d)) docs
          ∙ sym (fold-append (feed func) s (numbers d) (concat (map numbers docs)))

-- What `merge` needs of `T`.
pub record IsAssociative {AggRep : Type 0} (func : Func AggRep) : Type 0 where
  pub rep-first :
      (v : AggRep) (x : ℕ) → func.aggregate_rep v (func.aggregate_first x) ≡ func.aggregate_one v x
  pub rep-one :
      (v w : AggRep) (x : ℕ)
      → func.aggregate_rep v (func.aggregate_one w x)
        ≡ func.aggregate_one (func.aggregate_rep v w) x

module _ {AggRep : Type 0} (func : Func AggRep) (a : IsAssociative func) where
  merge_rep-feed :
      (s t : Option AggRep) (x : ℕ)
      → merge_rep func s (feed func t x) ≡ feed func (merge_rep func s t) x
  merge_rep-feed none none x = refl
  merge_rep-feed (some v) none x = ap some (a.rep-first v x)
  merge_rep-feed none (some w) x = refl
  merge_rep-feed (some v) (some w) x = ap some (a.rep-one v w x)

  merge_rep-fold :
      (s t : Option AggRep) (xs : List ℕ)
      → merge_rep func s (fold (feed func) t xs) ≡ fold (feed func) (merge_rep func s t) xs
  merge_rep-fold s t [] = refl
  merge_rep-fold s t (x ∷ xs) =
      merge_rep-fold s (feed func t x) xs ∙ ap (λ u. fold (feed func) u xs) (merge_rep-feed s t x)

  module _ {ℓ} {D : Type ℓ} (machine : Machine) (array_double : Items → ℕ) (enable_array : Bool)
      (value : D → Option Json) where
    pub number_aggregator-IsMergeable :
        IsMergeable (number_aggregator machine array_double enable_array func value)
    unfolding number_aggregator
    number_aggregator-IsMergeable = record {
      merge-fresh = λ docs. refl;
      merge-accumulate =
          λ s t d. merge_rep-fold s t (numbers machine array_double enable_array func value d);
    }
