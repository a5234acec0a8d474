-- ===== src/Json.antt =====
-- JSON documents and the events of the SAX interface that the handlers of
-- libs/joda/core/modules/similarity/src and libs/joda/core/modules/storage/document/src receive.
-- The traversal of a document is RapidJSON's: it is the parameter `Sax`, with its documented order
-- of calls as laws.
pub mod Order
use joda.Base.{ℕ, zero, suc, List, [], ◌∷◌, ◌++◌, ◌≡◌, refl, Bool, true, false, ◌&&◌}
use joda.Base.Int.{ℤ}
use joda.Base.Text.{Str}

-- A value that is neither an array nor an object. A double is its bit pattern.
pub data Scalar : Type 0 where
  null : Scalar
  bool : Bool → Scalar
  int : ℤ → Scalar
  uint : ℕ → Scalar
  int64 : ℤ → Scalar
  uint64 : ℕ → Scalar
  double : ℕ → Scalar
  raw_number : Str → Scalar
  string : Str → Scalar

mutual
  pub data Json : Type 0 where
    scalar : Scalar → Json
    arr : Items → Json
    obj : Members → Json

  pub data Items : Type 0 where
    nil : Items
    cons : Json → Items → Items

  pub data Members : Type 0 where
    end : Members
    member : Str → Json → Members → Members

-- One call of a handler.
pub data Event : Type 0 where
  value : Scalar → Event
  start_object : Event
  key : Str → Event
  end_object : ℕ → Event
  start_array : Event
  end_array : ℕ → Event

abbrev pub size_items : Items → ℕ
size_items nil = 0
size_items (cons x xs) = suc (size_items xs)

abbrev pub size_members : Members → ℕ
size_members end = 0
size_members (member k v ms) = suc (size_members ms)

-- The calls for the elements of an array and the members of an object, in order.
abbrev pub item_events : (Json → List Event) → Items → List Event
item_events accept nil = []
item_events accept (cons x xs) = accept x ++ item_events accept xs

abbrev pub member_events : (Json → List Event) → Members → List Event
member_events accept end = []
member_events accept (member k v ms) = key k ∷ (accept v ++ member_events accept ms)

-- `Value::Accept` and `Reader::Parse`, as the calls that they make on a handler that goes on.
pub record Sax : Type 0 where
  pub accept : Json → List Event
  pub accept-scalar : (x : Scalar) → accept (scalar x) ≡ value x ∷ []
  pub accept-arr :
      (xs : Items)
      → accept (arr xs) ≡ start_array ∷ (item_events accept xs ++ end_array (size_items xs) ∷ [])
  pub accept-obj :
      (ms : Members)
      → accept (obj ms)
        ≡ start_object ∷ (member_events accept ms ++ end_object (size_members ms) ∷ [])
