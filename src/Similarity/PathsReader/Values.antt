-- ===== src/Similarity/PathsReader/Values.antt =====
-- What the calls for one value do to the handler, and that the paths are those of the traversal in
-- memory.
use joda.Base.{
  ℕ, ◌+◌, ◌%◌, ◌^◌, ◌<◌, ltb, true, List, [], ◌∷◌, ◌++◌, ◌≡◌, ◌≢◌, refl, ap, ◌∙◌, fold-append,
  arith,
}
use native.Mathlib.Nat.{add-zero}
use joda.Base.Int.{ℤ, pos, negsuc}
use joda.Base.Text.{Str, to_string}
use joda.Json.{
  Json, scalar, null, arr, obj, Items, nil, cons, Members, end, member, Scalar, Event, value,
  end_array, end_object, item_events, member_events, size_items, size_members, Sax,
}
use joda.Similarity.PathsReader.{
  PathsReader, cleared, clear, path_of, read, on, inc_array, pop_stack,
}
use joda.Similarity.PathsDom.{c_str, int_text, get_paths, get_item_paths, get_member_paths}

-- Every array in the document has fewer than 2^31 elements, so that the `int` of the traversal in
-- memory does not overflow.
abbrev mutual
  pub ArraysFit : Json → Type 0
  ArraysFit (scalar x) = Unit
  ArraysFit (arr xs) = (size_items xs < 2 ^ 31) × ItemsFit xs
  ArraysFit (obj ms) = MembersFit ms

  pub ItemsFit : Items → Type 0
  ItemsFit nil = Unit
  ItemsFit (cons x xs) = ArraysFit x × ItemsFit xs

  pub MembersFit : Members → Type 0
  MembersFit end = Unit
  MembersFit (member k v ms) = ArraysFit v × MembersFit ms

int_text-to_string : (i : ℕ) → i < 2 ^ 31 → int_text i ≡ to_string i
unfolding int_text
int_text-to_string i h = let small : ltb i (2 ^ 31) ≡ true = ground (arith, h) in rw small refl

next_int : (i : ℕ) → i < 2 ^ 31 → (i + 1) % 2 ^ 32 ≡ i + 1
next_int i h = omega (arith, h)

-- A name without a zero byte.
abbrev pub NoNul : Str → Type 0
NoNul [] = Unit
NoNul (c ∷ cs) = (c ≢ 0) × NoNul cs

-- Every name in the document is one.
abbrev mutual
  pub NamesNoNul : Json → Type 0
  NamesNoNul (scalar x) = Unit
  NamesNoNul (arr xs) = ItemsNoNul xs
  NamesNoNul (obj ms) = MembersNoNul ms

  pub ItemsNoNul : Items → Type 0
  ItemsNoNul nil = Unit
  ItemsNoNul (cons x xs) = NamesNoNul x × ItemsNoNul xs

  pub MembersNoNul : Members → Type 0
  MembersNoNul end = Unit
  MembersNoNul (member k v ms) = NoNul k × NamesNoNul v × MembersNoNul ms

pub c_str-eq : (s : Str) → NoNul s → c_str s ≡ s
unfolding c_str
c_str-eq [] h = refl
c_str-eq (c ∷ cs) h = ground (arith, c_str-eq cs h.1)

read-append : (s : PathsReader) (xs ys : List Event) → read s (xs ++ ys) ≡ read (read s xs) ys
unfolding read
read-append s xs ys = fold-append on s xs ys

-- What every scalar does: it takes its own name or index off the stack, and counts.
consume : PathsReader → PathsReader
unfolding inc_array pop_stack
consume s = inc_array (pop_stack s)

scalar_lem : (x : Scalar) (s : PathsReader) → on s (value x) ≡ consume s
unfolding on consume
scalar_lem null s = refl
scalar_lem _ s = refl

abbrev at : List Str → List Str → List ℤ → PathsReader
at S P A = record { stack = S; paths = P; arr_stack = A }

module _ (sax : Sax) where
  open sax use {accept, accept-scalar, accept-arr, accept-obj}

  mutual
    unfolding read on consume get_paths path_of

    value_lem :
        (j : Json)
        → NamesNoNul j
        → ArraysFit j
        → (S P : List Str) (A : List ℤ)
        → read (at S P A) (accept j) ≡ consume (at S (get_paths j (path_of S) P) A)
    value_lem (scalar x) h g S P A = rw accept-scalar (scalar_lem x (at S P A))
    value_lem (arr xs) h g S P A =
        let s = at (to_string 0 ∷ S) P (pos 0 ∷ A) in
        let last = end_array (size_items xs) ∷ [] in
        rw accept-arr (
          read-append s (item_events accept xs) last
          ∙ ap (λ t. read t last) (items_lem xs h g.1 0 (omega (arith, g.0)) S P A))
    value_lem (obj ms) h g S P A =
        let s = at S P (negsuc 0 ∷ A) in
        let last = end_object (size_members ms) ∷ [] in
        rw accept-obj (
          read-append s (member_events accept ms) last
          ∙ ap (λ t. read t last) (members_lem ms h g S P A))

    items_lem :
        (xs : Items)
        → ItemsNoNul xs
        → ItemsFit xs
        → (i : ℕ) → i + size_items xs < 2 ^ 31
        → (S P : List Str) (A : List ℤ)
        → read (at (to_string i ∷ S) P (pos i ∷ A)) (item_events accept xs)
          ≡ at
              (to_string (i + size_items xs) ∷ S)
              (get_item_paths xs i (path_of S) P)
              (pos (i + size_items xs) ∷ A)
    items_lem nil h g i b S P A = rw add-zero
    items_lem (cons x xs) h g i b S P A =
        rw (int_text-to_string i (omega (arith, b)), next_int i (omega (arith, b)))
          (read-append (at (to_string i ∷ S) P (pos i ∷ A)) (accept x) (item_events accept xs)
            ∙ (ap (λ t. read t (item_events accept xs))
                  (value_lem x h.0 g.0 (to_string i ∷ S) P (pos i ∷ A))
                ∙ (items_lem xs h.1 g.1 (i + 1) (omega (arith, b)) S
                      (get_paths x (path_of (to_string i ∷ S)) P) A
                    ∙ ap
                        (λ n.
                          at (to_string n ∷ S)
                            (get_item_paths xs (i + 1) (path_of S)
                              (get_paths x (path_of (to_string i ∷ S)) P))
                            (pos n ∷ A))
                        (omega arith))))

    members_lem :
        (ms : Members)
        → MembersNoNul ms
        → MembersFit ms
        → (S P : List Str) (A : List ℤ)
        → read (at S P (negsuc 0 ∷ A)) (member_events accept ms)
          ≡ at S (get_member_paths ms (path_of S) P) (negsuc 0 ∷ A)
    members_lem end h g S P A = refl
    members_lem (member k v ms) h g S P A =
        let s = at (k ∷ S) (P ++ path_of (k ∷ S) ∷ []) (negsuc 0 ∷ A) in
        rw (c_str-eq k h.0) (
          read-append s (accept v) (member_events accept ms)
          ∙ (ap (λ t. read t (member_events accept ms))
                (value_lem v h.1 g.0 (k ∷ S) (P ++ path_of (k ∷ S) ∷ []) (negsuc 0 ∷ A))
              ∙ members_lem ms h.2 g.1 S (get_paths v (path_of (k ∷ S)) (P ++ path_of (k ∷ S) ∷ []))
                  A))

-- From any earlier state, once cleared, `RJPathsReader` reads a document whose names hold no zero byte
-- and whose arrays have fewer than 2^31 elements to the paths that the traversal in memory collects, in
-- the same order, and leaves its two stacks empty again.
pub paths_reader-get_paths :
    (sax : Sax) (s : PathsReader) (j : Json)
    → NamesNoNul j
    → ArraysFit j
    → read (clear s) (sax.accept j) ≡ record cleared { paths = get_paths j [] [] }
unfolding clear consume path_of
paths_reader-get_paths sax s j h g = value_lem sax j h g [] [] []
