-- ===== src/Aggregate/AttributeStat/Accepted.antt =====
-- AttributeStatAggregator.h: what the calls for a document do to the tree of nodes.
use joda.Base.{
  ℕ, ◌+◌, Option, some, Bool, true, false, List, [], ◌∷◌, ◌++◌, ◌≡◌, refl, ap, fold-append,
  if◌then◌else◌, ◌&&◌, arith, ◌∙◌, ◌>>=◌,
}
use joda.Base.Text.{Str}
use joda.Json.{
  Json, scalar, arr, obj, Items, Members, member, end, Scalar, Event, value, start_object,
  end_object, key, start_array, end_array, item_events, member_events, size_items, size_members,
  Sax, nil as no_items, cons as more_items,
}
use joda.Aggregate.AttributeStat.{
  DoubleLimits, Node, Slot, child, item, at, past, Handler, with_counters, see_scalar, see_object,
  see_array, see_members, see_elements, find_slot, place, enter, update, finish_value, check_array,
  on, on_value, on_start, on_end, on_key, is_empty, run, root, accumulate, seen,
}

module _ (limits : DoubleLimits) where
  -- The statistics of a document, by recursion on it.
  unfoldable mutual
    pub stat : Json → Node → Node
    stat (scalar x) n = with_counters limits (λ c. see_scalar limits c x) n
    stat (arr xs) n =
        with_counters limits (see_elements limits (size_items xs))
          (stat_items 0 xs (with_counters limits (see_array limits) n))
    stat (obj ms) n =
        with_counters limits (see_members limits (size_members ms))
          (stat_members ms (with_counters limits (see_object limits) n))

    pub stat_items : ℕ → Items → Node → Node
    stat_items i no_items n = n
    stat_items i (more_items x xs) n =
        stat_items (i + 1) xs (place limits (item i) (stat x (find_slot limits (item i) n)) n)

    pub stat_members : Members → Node → Node
    stat_members end n = n
    stat_members (member k v ms) n =
        stat_members ms (place limits (child k) (stat v (find_slot limits (child k) n)) n)

  -- DCHECK accepts every name of a member: none is empty, or it is not checked.
  abbrev mutual
    pub NamesPass : Json → Type 0
    NamesPass (scalar x) = Unit
    NamesPass (arr xs) = ItemsPass xs
    NamesPass (obj ms) = MembersPass ms

    pub ItemsPass : Items → Type 0
    ItemsPass no_items = Unit
    ItemsPass (more_items x xs) = NamesPass x × ItemsPass xs

    pub MembersPass : Members → Type 0
    MembersPass end = Unit
    MembersPass (member k v ms) =
        ((limits.dcheck && is_empty limits k) ≡ false) × NamesPass v × MembersPass ms

  run-append :
      (o : Option Handler) (xs ys : List Event)
      → run limits o (xs ++ ys) ≡ run limits (run limits o xs) ys
  unfolding run
  run-append o xs ys = fold-append (λ p e. p >>= λ h. on limits h e) o xs ys

  -- The handler at a node, and after the node's value.
  abbrev here : Node → List (Node × Slot) → List (Bool × ℕ) → Handler
  here n above levels = record { curr_node = at n above; levels = levels }

  finished : Node → List (Node × Slot) → List (Bool × ℕ) → Option Handler
  unfolding finish_value
  finished n above levels =
      finish_value limits (at n above) >>= λ d. some (record { curr_node = d; levels = levels })

  on_value-finished :
      (x : Scalar) (h : Handler) (n : Node) (above : List (Node × Slot)) (levels : List (Bool × ℕ))
      → check_array limits h ≡ some (here n above levels)
      → on limits h (value x)
        ≡ finished (with_counters limits (λ c. see_scalar limits c x) n) above levels
  unfolding on on_value update finished
  on_value-finished x h n above levels e =
      ap
        (λ o. o >>= λ g. update limits (λ c. see_scalar limits c x) g.curr_node >>= λ c.
          finish_value limits c >>= λ d. some (record g { curr_node = d }))
        e

  on_start-here :
      (is_arr : Bool) (h : Handler) (n : Node) (above : List (Node × Slot))
      (levels : List (Bool × ℕ))
      → check_array limits h ≡ some (here n above levels)
      → on limits h (if is_arr then start_array else start_object)
        ≡ some (
            here
              (with_counters limits (if is_arr then see_array limits else see_object limits) n)
              above
              ((is_arr, 0) ∷ levels))
  unfolding on on_start update
  on_start-here true h n above levels e =
      ap
        (λ o. o >>= λ g. update limits (see_array limits) g.curr_node >>= λ c.
          some (record { curr_node = c; levels = (true, 0) ∷ g.levels }))
        e
  on_start-here false h n above levels e =
      ap
        (λ o. o >>= λ g. update limits (see_object limits) g.curr_node >>= λ c.
          some (record { curr_node = c; levels = (false, 0) ∷ g.levels }))
        e

  on_key-here :
      (k : Str) (n : Node) (above : List (Node × Slot)) (levels : List (Bool × ℕ))
      → (limits.dcheck && is_empty limits k) ≡ false
      → on limits (here n above levels) (key k)
        ≡ some (here (find_slot limits (child k) n) ((n, child k) ∷ above) levels)
  unfolding on on_key enter
  on_key-here k n above levels p = rw p refl

  module _ (sax : Sax) where
    mutual
      unfolding stat on on_end on_key update enter finish_value finished check_array run

      run-stat :
          (x : Json)
          → NamesPass x
          → (h : Handler) (n : Node) (above : List (Node × Slot)) (levels : List (Bool × ℕ))
          → check_array limits h ≡ some (here n above levels)
          → run limits (some h) (sax.accept x) ≡ finished (stat x n) above levels
      run-stat (scalar x) p h n above levels e =
          rw (sax.accept-scalar x) (on_value-finished x h n above levels e)
      run-stat (arr xs) p h n above levels e =
          let m = with_counters limits (see_array limits) n in
          rw (sax.accept-arr xs) (
            ap (λ o. run limits o (item_events sax.accept xs ++ end_array (size_items xs) ∷ []))
              (on_start-here true h n above levels e)
            ∙ run-append (some (here m above ((true, 0) ∷ levels))) (item_events sax.accept xs)
                (end_array (size_items xs) ∷ [])
            ∙ ap (λ o. run limits o (end_array (size_items xs) ∷ []))
                (run-stat_items xs p m above 0 levels))
      run-stat (obj ms) p h n above levels e =
          let m = with_counters limits (see_object limits) n in
          rw (sax.accept-obj ms) (
            ap
              (λ o. run limits o (member_events sax.accept ms ++ end_object (size_members ms) ∷ []))
              (on_start-here false h n above levels e)
            ∙ run-append (some (here m above ((false, 0) ∷ levels))) (member_events sax.accept ms)
                (end_object (size_members ms) ∷ [])
            ∙ ap (λ o. run limits o (end_object (size_members ms) ∷ []))
                (run-stat_members ms p m above levels))

      run-stat_items :
          (xs : Items)
          → ItemsPass xs
          → (n : Node) (above : List (Node × Slot)) (i : ℕ) (levels : List (Bool × ℕ))
          → run limits (some (here n above ((true, i) ∷ levels))) (item_events sax.accept xs)
            ≡ some (here (stat_items i xs n) above ((true, i + size_items xs) ∷ levels))
      run-stat_items no_items p n above i levels =
          ap (λ k. some (here n above ((true, k) ∷ levels))) (omega arith)
      run-stat_items (more_items x xs) p n above i levels =
          let m = place limits (item i) (stat x (find_slot limits (item i) n)) n in
          run-append (some (here n above ((true, i) ∷ levels))) (sax.accept x)
            (item_events sax.accept xs)
          ∙ ap (λ o. run limits o (item_events sax.accept xs))
              (run-stat x p.0 (here n above ((true, i) ∷ levels)) (find_slot limits (item i) n)
                ((n, item i) ∷ above) ((true, i + 1) ∷ levels) refl)
          ∙ run-stat_items xs p.1 m above (i + 1) levels
          ∙ ap (λ k. some (here (stat_items (i + 1) xs m) above ((true, k) ∷ levels))) (omega arith)

      run-stat_members :
          (ms : Members)
          → MembersPass ms
          → (n : Node) (above : List (Node × Slot)) (levels : List (Bool × ℕ))
          → run limits (some (here n above ((false, 0) ∷ levels))) (member_events sax.accept ms)
            ≡ some (here (stat_members ms n) above ((false, 0) ∷ levels))
      run-stat_members end p n above levels = refl
      run-stat_members (member k v ms) p n above levels =
          let m = place limits (child k) (stat v (find_slot limits (child k) n)) n in
          ap (λ o. run limits o (sax.accept v ++ member_events sax.accept ms))
            (on_key-here k n above ((false, 0) ∷ levels) p.0)
          ∙ run-append
              (some
                (here (find_slot limits (child k) n) ((n, child k) ∷ above) ((false, 0) ∷ levels)))
              (sax.accept v) (member_events sax.accept ms)
          ∙ ap (λ o. run limits o (member_events sax.accept ms))
              (run-stat v p.1
                (here (find_slot limits (child k) n) ((n, child k) ∷ above) ((false, 0) ∷ levels))
                (find_slot limits (child k) n) ((n, child k) ∷ above) ((false, 0) ∷ levels) refl)
          ∙ run-stat_members ms p.2 m above levels

    run-accept :
        (x : Json)
        → NamesPass x
        → (n : Node)
        → run limits (some (record { curr_node = at n []; levels = [] })) (sax.accept x)
          ≡ some (record { curr_node = past (stat x n); levels = [] })
    unfolding finished check_array finish_value
    run-accept x p n = run-stat x p (here n [] []) n [] [] refl

  -- For every state and every document in whose value no member has an empty name, or any document
  -- where DCHECK is compiled out, `accumulate` of ATTSTAT neither aborts nor follows a null pointer,
  -- and the tree of nodes that it leaves is the one that a recursion on the document's value makes:
  -- it counts the value at its node, then each element and member, in order, at the node of its index
  -- or name, and last the number of these. A document without the value counts as null.
  pub accumulate-stat {ℓ} :
      {D : Type ℓ} (sax : Sax) (fetched : D → Option Json) (n : Node) (d : D)
      → NamesPass (seen limits sax fetched d)
      → accumulate limits sax fetched n d ≡ some (stat (seen limits sax fetched d) n)
  unfolding accumulate
  accumulate-stat sax fetched n d p =
      ap (λ o. o >>= λ h. some (root limits h.curr_node))
        (run-accept sax (seen limits sax fetched d) p n)
