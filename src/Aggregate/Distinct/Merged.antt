-- ===== src/Aggregate/Distinct/Merged.antt =====
-- The states of DistinctAggregator.cpp: what the aggregator holds after documents, and merging.
use joda.Base.{
  ℕ, Option, Bool, true, false, ◌||◌, List, [], ◌∷◌, ◌++◌, ◌≡◌, refl, ◌∙◌, sym, subst, ap, ap₂,
  fold, map, concat, arith,
}
use joda.Base.Dict.{IsPartialEquivalence, str_eq-IsPartialEquivalence}
use joda.Base.Text.{Str, str_eq}
use joda.Json.{Json}
use joda.Values.Eval.{Machine}
use joda.Aggregate.{aggregate, IsMergeable, merge-aggregate}
use joda.Aggregate.Distinct.{
  contains, merge_set, Distinct, Enabled, Branch, insert_string, insert_number, set_bool, skip,
  branch_of, take_branch, merge_distinct, distinct_aggregator,
}
use joda.Aggregate.Distinct.Sets.{
  Different, contains-merge_set, merge_set-insert, merge_set-Different,
}

-- The strings, the numbers and the Boolean value of a branch.
abbrev pub strings_of : Branch → List Str
strings_of (insert_string t) = t ∷ []
strings_of _ = []

abbrev pub numbers_of : Branch → List ℕ
numbers_of (insert_number x) = x ∷ []
numbers_of _ = []

abbrev pub sets : Bool → Branch → Bool
sets true (set_bool true) = true
sets false (set_bool false) = true
sets _ _ = false

abbrev pub some_sets : Bool → List Branch → Bool
some_sets b [] = false
some_sets b (x ∷ xs) = sets b x || some_sets b xs

-- A state that holds what the branches inserted, and no element twice.
pub record Holds (double_eq : ℕ → ℕ → Bool) (branches : List Branch) (s : Distinct) : Type 0 where
  pub strings-same :
      (t : Str) → contains str_eq t s.str_set ≡ contains str_eq t (concat (map strings_of branches))
  pub strings-Different : Different str_eq s.str_set
  pub numbers-same :
      (x : ℕ)
      → contains double_eq x s.num_set ≡ contains double_eq x (concat (map numbers_of branches))
  pub numbers-Different : Different double_eq s.num_set
  pub true-same : s.has_true ≡ some_sets true branches
  pub false-same : s.has_false ≡ some_sets false branches

module _ (double_eq : ℕ → ℕ → Bool) where
  run : Distinct → List Branch → Distinct
  run s branches = fold (take_branch double_eq) s branches

  run-str_set :
      (branches : List Branch) (s : Distinct)
      → (run s branches).str_set ≡ merge_set str_eq s.str_set (concat (map strings_of branches))
  unfolding run take_branch concat
  run-str_set [] s = refl
  run-str_set (insert_string t ∷ bs) s = run-str_set bs (take_branch double_eq s (insert_string t))
  run-str_set (insert_number x ∷ bs) s = run-str_set bs (take_branch double_eq s (insert_number x))
  run-str_set (set_bool true ∷ bs) s = run-str_set bs (take_branch double_eq s (set_bool true))
  run-str_set (set_bool false ∷ bs) s = run-str_set bs (take_branch double_eq s (set_bool false))
  run-str_set (skip ∷ bs) s = run-str_set bs s

  run-num_set :
      (branches : List Branch) (s : Distinct)
      → (run s branches).num_set ≡ merge_set double_eq s.num_set (concat (map numbers_of branches))
  unfolding run take_branch concat
  run-num_set [] s = refl
  run-num_set (insert_string t ∷ bs) s = run-num_set bs (take_branch double_eq s (insert_string t))
  run-num_set (insert_number x ∷ bs) s = run-num_set bs (take_branch double_eq s (insert_number x))
  run-num_set (set_bool true ∷ bs) s = run-num_set bs (take_branch double_eq s (set_bool true))
  run-num_set (set_bool false ∷ bs) s = run-num_set bs (take_branch double_eq s (set_bool false))
  run-num_set (skip ∷ bs) s = run-num_set bs s

  run-has_true :
      (branches : List Branch) (s : Distinct)
      → (run s branches).has_true ≡ (s.has_true || some_sets true branches)
  unfolding run take_branch
  run-has_true [] s = ground arith
  run-has_true (insert_string t ∷ bs) s =
      run-has_true bs (take_branch double_eq s (insert_string t))
  run-has_true (insert_number x ∷ bs) s =
      run-has_true bs (take_branch double_eq s (insert_number x))
  run-has_true (set_bool true ∷ bs) s =
      run-has_true bs (take_branch double_eq s (set_bool true)) ∙ (ground arith)
  run-has_true (set_bool false ∷ bs) s = run-has_true bs (take_branch double_eq s (set_bool false))
  run-has_true (skip ∷ bs) s = run-has_true bs s

  run-has_false :
      (branches : List Branch) (s : Distinct)
      → (run s branches).has_false ≡ (s.has_false || some_sets false branches)
  unfolding run take_branch
  run-has_false [] s = ground arith
  run-has_false (insert_string t ∷ bs) s =
      run-has_false bs (take_branch double_eq s (insert_string t))
  run-has_false (insert_number x ∷ bs) s =
      run-has_false bs (take_branch double_eq s (insert_number x))
  run-has_false (set_bool true ∷ bs) s = run-has_false bs (take_branch double_eq s (set_bool true))
  run-has_false (set_bool false ∷ bs) s =
      run-has_false bs (take_branch double_eq s (set_bool false)) ∙ (ground arith)
  run-has_false (skip ∷ bs) s = run-has_false bs s

module _ (machine : Machine) (double_eq : ℕ → ℕ → Bool) (e : IsPartialEquivalence double_eq) where
  run-Holds :
      (branches : List Branch)
      → Holds double_eq branches (
          run double_eq
            (record { str_set = []; num_set = []; has_true = false; has_false = false })
            branches)
  run-Holds bs = record {
    strings-same = λ t.
        rw
          (
            run-str_set double_eq bs empty,
            contains-merge_set str_eq str_eq-IsPartialEquivalence t [] (concat (map strings_of bs)),
          )
          refl;
    strings-Different =
        rw (run-str_set double_eq bs empty) (
          merge_set-Different str_eq str_eq-IsPartialEquivalence [] (concat (map strings_of bs))
            tt);
    numbers-same = λ x.
        rw
          (
            run-num_set double_eq bs empty,
            contains-merge_set double_eq e x [] (concat (map numbers_of bs)),
          )
          refl;
    numbers-Different =
        rw (run-num_set double_eq bs empty)
          (merge_set-Different double_eq e [] (concat (map numbers_of bs)) tt);
    true-same = run-has_true double_eq bs empty;
    false-same = run-has_false double_eq bs empty;
  }
    where
      empty : Distinct
      empty = record { str_set = []; num_set = []; has_true = false; has_false = false }

  module _ {ℓ} {D : Type ℓ} (enabled : Enabled) (value : D → Option Json) where
    distinct_aggregator-run :
        (docs : List D) (s : Distinct)
        → fold (λ s d. take_branch double_eq s (branch_of machine enabled (value d))) s docs
          ≡ run double_eq s (map (λ d. branch_of machine enabled (value d)) docs)
    unfolding run
    distinct_aggregator-run [] s = refl
    distinct_aggregator-run (d ∷ docs) s =
        distinct_aggregator-run docs (take_branch double_eq s (branch_of machine enabled (value d)))

    -- For every sequence of documents, over an equality of doubles that is symmetric and transitive,
    -- the DISTINCT aggregator after them holds the strings and the numbers of the branches that its
    -- documents take and no other, none of them twice by that equality, and its two flags say whether
    -- `true` and `false` were among them.
    pub aggregate-Holds :
        (docs : List D)
        → Holds double_eq
            (map (λ d. branch_of machine enabled (value d)) docs)
            (aggregate (distinct_aggregator machine double_eq enabled value) docs)
    unfolding aggregate distinct_aggregator
    aggregate-Holds docs =
        rw
          (distinct_aggregator-run docs
            (record { str_set = []; num_set = []; has_true = false; has_false = false }))
          (run-Holds (map (λ d. branch_of machine enabled (value d)) docs))

    take_branch-merge :
        (s t : Distinct) (b : Branch)
        → merge_distinct double_eq s (take_branch double_eq t b)
          ≡ take_branch double_eq (merge_distinct double_eq s t) b
    unfolding take_branch merge_distinct
    take_branch-merge s t (insert_string x) =
        rw (merge_set-insert str_eq str_eq-IsPartialEquivalence s.str_set t.str_set x) refl
    take_branch-merge s t (insert_number x) =
        rw (merge_set-insert double_eq e s.num_set t.num_set x) refl
    take_branch-merge s t (set_bool true) =
        ap (λ b. record (merge_distinct double_eq s t) { has_true = b }) (ground arith)
    take_branch-merge s t (set_bool false) =
        ap (λ b. record (merge_distinct double_eq s t) { has_false = b }) (ground arith)
    take_branch-merge s t skip = refl

    pub distinct_aggregator-IsMergeable :
        IsMergeable (distinct_aggregator machine double_eq enabled value)
    unfolding distinct_aggregator merge_distinct
    distinct_aggregator-IsMergeable = record {
      merge-fresh = λ docs.
          merge_distinct-empty
            (aggregate (distinct_aggregator machine double_eq enabled value) docs);
      merge-accumulate = λ s t d. take_branch-merge s t (branch_of machine enabled (value d));
    }
      where
        merge_distinct-empty :
            (s : Distinct)
            → merge_distinct double_eq s
                (record { str_set = []; num_set = []; has_true = false; has_false = false })
              ≡ s
        merge_distinct-empty s =
            ap₂ (λ t f. record s { has_true = t; has_false = f }) (ground arith) (ground arith)

    -- For every two sequences of documents, over an equality of doubles that is symmetric and
    -- transitive, as that of IEEE is where NaN differs from itself, the merge of the DISTINCT
    -- aggregators after them holds the strings and the numbers of the branches that the documents of
    -- both take and no other, none of them twice by that equality, and the same for its flags.
    pub merge-Holds :
        (xs ys : List D)
        → let g = distinct_aggregator machine double_eq enabled value in
          Holds double_eq
            (map (λ d. branch_of machine enabled (value d)) (xs ++ ys))
            (g.merge (aggregate g xs) (aggregate g ys))
    merge-Holds xs ys =
        let g = distinct_aggregator machine double_eq enabled value in
        subst (Holds double_eq (map (λ d. branch_of machine enabled (value d)) (xs ++ ys)))
          (sym (merge-aggregate g distinct_aggregator-IsMergeable xs ys))
          (aggregate-Holds (xs ++ ys))
