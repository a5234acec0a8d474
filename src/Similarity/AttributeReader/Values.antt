-- ===== src/Similarity/AttributeReader/Values.antt =====
-- The SAX handler and the traversal in memory collect the same set of attribute names.
use joda.Base.{List, [], ◌∷◌, ◌++◌, ◌≡◌, refl, ap, ◌∙◌, fold-append}
use joda.Base.Text.{Str}
use joda.Json.{
  Json, scalar, arr, obj, Items, nil, cons, Members, end, member, Event, end_array, end_object,
  item_events, member_events, size_items, size_members, Sax,
}
use joda.Similarity.PathsReader.Values.{NamesNoNul, ItemsNoNul, MembersNoNul, c_str-eq}
use joda.Similarity.AttributeReader.{
  insert, on, read, get_attributes, get_member_attributes, get_item_attributes,
}

read-append : (s : List Str) (xs ys : List Event) → read s (xs ++ ys) ≡ read (read s xs) ys
unfolding read
read-append s xs ys = fold-append on s xs ys

module _ (sax : Sax) where
  open sax use {accept, accept-scalar, accept-arr, accept-obj}

  mutual
    unfolding read get_attributes

    value_lem : (j : Json) → NamesNoNul j → (s : List Str) → read s (accept j) ≡ get_attributes j s
    value_lem (scalar x) h s = rw accept-scalar
    value_lem (arr xs) h s =
        let last = end_array (size_items xs) ∷ [] in
        rw accept-arr
          (read-append s (item_events accept xs) last ∙ ap (λ t. read t last) (items_lem xs h s))
    value_lem (obj ms) h s =
        let last = end_object (size_members ms) ∷ [] in
        rw accept-obj (
          read-append s (member_events accept ms) last ∙ ap (λ t. read t last) (members_lem ms h s))

    items_lem :
        (xs : Items)
        → ItemsNoNul xs
        → (s : List Str) → read s (item_events accept xs) ≡ get_item_attributes xs s
    items_lem nil h s = refl
    items_lem (cons x xs) h s =
        read-append s (accept x) (item_events accept xs)
        ∙ (ap (λ t. read t (item_events accept xs)) (value_lem x h.0 s)
            ∙ items_lem xs h.1 (get_attributes x s))

    members_lem :
        (ms : Members)
        → MembersNoNul ms
        → (s : List Str) → read s (member_events accept ms) ≡ get_member_attributes ms s
    members_lem end h s = refl
    members_lem (member k v ms) h s = rw (c_str-eq k h.0) (
        read-append (insert k s) (accept v) (member_events accept ms)
        ∙ (ap (λ t. read t (member_events accept ms)) (value_lem v h.1 (insert k s))
            ∙ members_lem ms h.2 (get_attributes v (insert k s))))

-- `RJAttributeReader` adds to its set the attribute names that the traversal in memory adds to it, for a
-- document whose names hold no zero byte.
pub attribute_reader-get_attributes :
    (sax : Sax) (attributes : List Str) (j : Json)
    → NamesNoNul j
    → read attributes (sax.accept j) ≡ get_attributes j attributes
attribute_reader-get_attributes sax attributes j h = value_lem sax j h attributes
