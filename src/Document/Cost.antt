-- ===== src/Document/Cost.antt =====
-- libs/joda/core/modules/storage/document/src/DocumentCostHandler.h, as RapidJSON calls it and on a
-- document in memory. The sizes of the machine's types and the lengths up to which a string is short
-- are parameters, and so are RapidJSON's copy flag and its capacities. A `size_t` has 64 bits.
pub mod Held
pub mod Spare
pub mod Views
use joda.Base.{
  ℕ, ◌+◌, ◌-◌, ◌*◌, ◌%◌, ◌^◌, ◌≤◌, Bool, true, false, not, ◌&&◌, leb, List, [], ◌∷◌, fold, length,
  if◌then◌else◌,
}
use joda.Base.Text.{Str}
use joda.Json.{
  Scalar, string, raw_number, null, bool, int, uint, int64, uint64, double, Json, scalar, arr, obj,
  Items, nil, cons, Members, end, member, Event, value, key, start_object, end_object, start_array,
  end_array, size_items, size_members, Sax,
}

-- `sizeof` of `RJValue`, `RJValue::Member`, `RJValue::Ch`, `RJDocument` and a vector of strings.
pub record Sizes : Type 0 where
  pub value_size : ℕ
  pub member_size : ℕ
  pub char_size : ℕ
  pub document_size : ℕ
  pub vector_size : ℕ
  -- 13 or 21, by the platform.
  pub short_length : ℕ
  pub value-document : value_size ≤ document_size

pub record Capacities : Type 0 where
  pub capacity : Items → ℕ
  pub member_capacity : Members → ℕ
  pub size-capacity : (xs : Items) → size_items xs ≤ capacity xs
  pub size-member_capacity : (ms : Members) → size_members ms ≤ member_capacity ms

pub record Costs : Type 0 where
  pub cost : ℕ
  pub theoretical_cost : ℕ

-- `a += b`
abbrev pub plus : ℕ → ℕ → ℕ
plus a b = (a + b) % 2 ^ 64

module _ (sizes : Sizes) where
  unfoldable pub can_be_short_string : ℕ → Bool
  can_be_short_string len = leb len sizes.short_length

  module _ (copied : Str → Bool) where
    -- `String`, `RawNumber` and `Key`
    unfoldable pub on_string : ℕ → Str → ℕ
    on_string cost s =
        if copied s && not (can_be_short_string (length s))
        then plus (plus cost sizes.value_size) (sizes.char_size * length s)
        else plus cost sizes.value_size

    unfoldable pub on_value : ℕ → Scalar → ℕ
    unfolding on_string
    on_value cost (string s) = on_string cost s
    on_value cost (raw_number s) = on_string cost s
    on_value cost x = plus cost sizes.value_size

    -- A call of the handler, on `theoreticalCost`.
    unfoldable pub on : ℕ → Event → ℕ
    unfolding on_value on_string
    on cost (value x) = on_value cost x
    on cost (key s) = on_string cost s
    on cost start_object = cost
    on cost start_array = cost
    on cost (end_object n) = plus cost sizes.value_size
    on cost (end_array n) = plus cost sizes.value_size

  -- `case kStringType`
  unfoldable pub check_string : ℕ → Str → ℕ
  unfolding can_be_short_string
  check_string cost s =
      if not (can_be_short_string (length s))
      then plus (plus cost sizes.value_size) (sizes.char_size * length s)
      else plus cost sizes.value_size

  unfoldable pub check_scalar : ℕ → Scalar → ℕ
  unfolding check_string
  check_scalar cost (string s) = check_string cost s
  check_scalar cost (raw_number s) = check_string cost s
  check_scalar cost x = plus cost sizes.value_size

  module _ (capacities : Capacities) where
    -- `checkValue`, on `cost`.
    unfoldable mutual
      unfolding check_scalar check_string

      pub check_value : ℕ → Json → ℕ
      check_value cost (scalar x) = check_scalar cost x
      check_value cost (arr xs) =
          check_items (plus cost (sizes.value_size * (capacities.capacity xs - size_items xs))) xs
      check_value cost (obj ms) =
          check_members
            (plus cost (sizes.member_size * (capacities.member_capacity ms - size_members ms))) ms

      pub check_items : ℕ → Items → ℕ
      check_items cost nil = cost
      check_items cost (cons x xs) = check_items (check_value cost x) xs

      pub check_members : ℕ → Members → ℕ
      check_members cost end = cost
      check_members cost (member k v ms) = check_members (check_value (check_string cost k) v) ms

    -- `checkDocument`
    unfoldable pub check_document : Sax → (Str → Bool) → Costs → Json → Costs
    unfolding on check_value
    check_document sax copied s doc = record {
      theoretical_cost = fold (on copied) s.theoretical_cost (sax.accept doc);
      cost = check_value (plus s.cost (sizes.document_size - sizes.value_size)) doc;
    }

  -- `addViewPaths`; `sizeof(char)` is one.
  abbrev pub add_view_path : Costs → Str → Costs
  add_view_path s path = record {
    cost = plus s.cost (length path);
    theoretical_cost = plus s.theoretical_cost (length path);
  }

  unfoldable pub add_view_paths : Costs → List Str → Costs
  add_view_paths s paths =
      fold add_view_path
        (record {
          cost = plus s.cost (sizes.vector_size + length paths);
          theoretical_cost = plus s.theoretical_cost (sizes.vector_size + length paths);
        })
        paths
