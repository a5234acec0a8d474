-- ===== src/Json/Order.antt =====
-- A traversal that meets the laws of `Sax`.
use joda.Base.{List, [], ◌∷◌, ◌++◌, ◌≡◌, refl, ap}
use joda.Json.{
  Json, scalar, arr, obj, Items, nil, cons, Members, end, member, Event, value, start_object, key,
  end_object, start_array, end_array, size_items, size_members, item_events, member_events, Sax,
}

mutual
  events : Json → List Event
  events (scalar x) = value x ∷ []
  events (arr xs) = start_array ∷ (events_of_items xs ++ end_array (size_items xs) ∷ [])
  events (obj ms) = start_object ∷ (events_of_members ms ++ end_object (size_members ms) ∷ [])

  events_of_items : Items → List Event
  events_of_items nil = []
  events_of_items (cons x xs) = events x ++ events_of_items xs

  events_of_members : Members → List Event
  events_of_members end = []
  events_of_members (member k v ms) = key k ∷ (events v ++ events_of_members ms)

items_lem : (xs : Items) → events_of_items xs ≡ item_events events xs
unfolding events
items_lem nil = refl
items_lem (cons x xs) = ap (λ es. events x ++ es) (items_lem xs)

members_lem : (ms : Members) → events_of_members ms ≡ member_events events ms
unfolding events
members_lem end = refl
members_lem (member k v ms) = ap (λ es. key k ∷ (events v ++ es)) (members_lem ms)

arr_lem :
    (xs : Items)
    → events (arr xs) ≡ start_array ∷ (item_events events xs ++ end_array (size_items xs) ∷ [])
unfolding events
arr_lem xs = ap (λ es. start_array ∷ (es ++ end_array (size_items xs) ∷ [])) (items_lem xs)

obj_lem :
    (ms : Members)
    → events (obj ms)
      ≡ start_object ∷ (member_events events ms ++ end_object (size_members ms) ∷ [])
unfolding events
obj_lem ms = ap (λ es. start_object ∷ (es ++ end_object (size_members ms) ∷ [])) (members_lem ms)

unfoldable pub document_order : Sax
unfolding events arr_lem obj_lem items_lem members_lem
document_order = record {
  accept = events;
  accept-scalar = λ x. refl;
  accept-arr = arr_lem;
  accept-obj = obj_lem;
}
