-- ===== src/Similarity/AttributeReader.antt =====
-- The attribute names of a document: the SAX handler of
-- libs/joda/core/modules/similarity/src/RJAttributeReader.cpp, and the traversal `getAttributes` of
-- libs/joda/core/modules/similarity/include/joda/similarity/measures/AttributeJaccard.h.
pub mod Values
use joda.Base.{List, [], ◌∷◌, Bool, true, false, fold, if◌then◌else◌}
use joda.Base.Text.{Str, str_eq, str_lt}
use joda.Json.{
  Json, scalar, arr, obj, Items, nil, cons, Members, end, member, Event, value, start_object, key,
  end_object, start_array, end_array,
}
use joda.Similarity.PathsDom.{c_str}

-- `std::set<std::string>::insert`, on the elements in order.
unfoldable pub insert : Str → List Str → List Str
insert a [] = a ∷ []
insert a (x ∷ xs) =
    let rest = insert a xs in
    if str_lt a x then a ∷ x ∷ xs else if str_lt x a then x ∷ rest else x ∷ xs

-- Only `Key` changes the handler's set.
on : List Str → Event → List Str
on attributes (key str) = insert str attributes
on attributes (value x) = attributes
on attributes start_object = attributes
on attributes (end_object n) = attributes
on attributes start_array = attributes
on attributes (end_array n) = attributes

unfoldable pub read : List Str → List Event → List Str
unfolding on
read attributes es = fold on attributes es

-- The handler after `clear()`.
abbrev pub cleared : List Str
cleared = []

unfoldable mutual
  pub get_attributes : Json → List Str → List Str
  get_attributes (scalar x) set = set
  get_attributes (obj ms) set = get_member_attributes ms set
  get_attributes (arr xs) set = get_item_attributes xs set

  pub get_member_attributes : Members → List Str → List Str
  get_member_attributes end set = set
  get_member_attributes (member name v ms) set =
      get_member_attributes ms (get_attributes v (insert (c_str name) set))

  pub get_item_attributes : Items → List Str → List Str
  get_item_attributes nil set = set
  get_item_attributes (cons item xs) set = get_item_attributes xs (get_attributes item set)
