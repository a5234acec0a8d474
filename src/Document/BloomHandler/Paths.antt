-- ===== src/Document/BloomHandler/Paths.antt =====
-- What the calls for one value do to the handler.
use joda.Base.{ℕ, ◌+◌, List, [], ◌∷◌, ◌++◌, ◌≡◌, refl, ap, ◌∙◌, fold-append, arith}
use joda.Base.Int.{ℤ, pos, negsuc}
use joda.Base.Text.{Str, to_string}
use native.Mathlib.Nat.{add-zero}
use joda.Json.{
  Json, scalar, null, arr, obj, Items, nil, cons, Members, end, member, Scalar, Event, value,
  end_array, end_object, item_events, member_events, size_items, size_members, Sax,
}
use joda.Document.BloomHandler.{BloomHandler, cleared, clear, read, on, inc_array, pop_stack}

read-append : (s : BloomHandler) (xs ys : List Event) → read s (xs ++ ys) ≡ read (read s xs) ys
unfolding read
read-append s xs ys = fold-append on s xs ys

-- What every scalar does: it takes its own name or index off the stack, and counts.
consume : BloomHandler → BloomHandler
unfolding inc_array pop_stack
consume s = inc_array (pop_stack s)

scalar_lem : (x : Scalar) (s : BloomHandler) → on s (value x) ≡ consume s
unfolding on consume
scalar_lem null s = refl
scalar_lem _ s = refl

abbrev at : List Str → List Str → List ℤ → BloomHandler
at S P A = record { stack = S; paths = P; arr_stack = A }

module _ (sax : Sax) where
  open sax use {accept, accept-scalar, accept-arr, accept-obj}

  mutual
    unfolding read on consume

    value_lem :
        (j : Json) → (S P : List Str) (A : List ℤ) → read (at S P A) (accept j) ≡ consume (at S P A)
    value_lem (scalar x) S P A = rw accept-scalar (scalar_lem x (at S P A))
    value_lem (arr xs) S P A =
        let s = at (to_string 0 ∷ S) P (pos 0 ∷ A) in
        let last = end_array (size_items xs) ∷ [] in
        rw accept-arr (
          read-append s (item_events accept xs) last ∙ ap (λ t. read t last) (items_lem xs 0 S P A))
    value_lem (obj ms) S P A =
        let s = at S P (negsuc 0 ∷ A) in
        let last = end_object (size_members ms) ∷ [] in
        rw accept-obj (
          read-append s (member_events accept ms) last
          ∙ ap (λ t. read t last) (members_lem ms S P A))

    items_lem :
        (xs : Items) (i : ℕ) (S P : List Str) (A : List ℤ)
        → read (at (to_string i ∷ S) P (pos i ∷ A)) (item_events accept xs)
          ≡ at (to_string (i + size_items xs) ∷ S) P (pos (i + size_items xs) ∷ A)
    items_lem nil i S P A = rw add-zero
    items_lem (cons x xs) i S P A =
        read-append (at (to_string i ∷ S) P (pos i ∷ A)) (accept x) (item_events accept xs)
        ∙ (ap (λ t. read t (item_events accept xs)) (value_lem x (to_string i ∷ S) P (pos i ∷ A))
            ∙ (items_lem xs (i + 1) S P A
                ∙ ap (λ n. at (to_string n ∷ S) P (pos n ∷ A)) (omega arith)))

    members_lem :
        (ms : Members) (S P : List Str) (A : List ℤ)
        → read (at S P (negsuc 0 ∷ A)) (member_events accept ms) ≡ at S P (negsuc 0 ∷ A)
    members_lem end S P A = refl
    members_lem (member k v ms) S P A =
        let s = at (k ∷ S) P (negsuc 0 ∷ A) in
        read-append s (accept v) (member_events accept ms)
        ∙ (ap (λ t. read t (member_events accept ms)) (value_lem v (k ∷ S) P (negsuc 0 ∷ A))
            ∙ members_lem ms S P A)

-- After any document the cleared `BloomAttributeHandler` has collected no path and is back in its
-- cleared state.
pub bloom_handler_collects_nothing :
    (sax : Sax) (s : BloomHandler) (j : Json) → read (clear s) (sax.accept j) ≡ cleared
unfolding clear consume
bloom_handler_collects_nothing sax s j = value_lem sax j [] [] []
