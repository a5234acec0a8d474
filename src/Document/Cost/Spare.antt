-- ===== src/Document/Cost/Spare.antt =====
-- DocumentCostHandler.h: the cost of a document in memory, and by how much it differs from the
-- theoretical one.
use joda.Base.{ℕ, ◌+◌, ◌-◌, ◌*◌, ◌%◌, ◌^◌, Bool, true, ◌≡◌, ◌∙◌, arith}
use joda.Base.Text.{Str}
use joda.Json.{
  Json, scalar, arr, obj, Items, nil, cons, Members, end, member, size_items, size_members, Sax,
}
use joda.Document.Cost.{
  Sizes, Capacities, plus, check_string, check_value, check_items, check_members, check_document,
}
use joda.Document.Cost.Held.{
  bytes, item_bytes, member_bytes, check_string-bytes, check_scalar-bytes, on-bytes,
}

module _ (sizes : Sizes) where
  module _ (capacities : Capacities) where
    -- The room that the arrays and objects of a document keep for more elements.
    unfoldable mutual
      pub spare : Json → ℕ
      spare (scalar x) = 0
      spare (arr xs) = sizes.value_size * (capacities.capacity xs - size_items xs) + spare_items xs
      spare (obj ms) =
          sizes.member_size * (capacities.member_capacity ms - size_members ms) + spare_members ms

      pub spare_items : Items → ℕ
      spare_items nil = 0
      spare_items (cons x xs) = spare x + spare_items xs

      pub spare_members : Members → ℕ
      spare_members end = 0
      spare_members (member k v ms) = spare v + spare_members ms

    -- The values that are arrays or objects.
    unfoldable mutual
      pub nested : Json → ℕ
      nested (scalar x) = 0
      nested (arr xs) = sizes.value_size + nested_items xs
      nested (obj ms) = sizes.value_size + nested_members ms

      pub nested_items : Items → ℕ
      nested_items nil = 0
      nested_items (cons x xs) = nested x + nested_items xs

      pub nested_members : Members → ℕ
      nested_members end = 0
      nested_members (member k v ms) = nested v + nested_members ms

    mutual
      unfolding check_value check_items check_members bytes item_bytes member_bytes spare
          spare_items spare_members nested nested_items nested_members

      check_value-bytes :
          (x : Json) (c : ℕ)
          → (check_value sizes capacities c x + nested x) % 2 ^ 64
            ≡ (c + bytes sizes x + spare x) % 2 ^ 64
      check_value-bytes (scalar x) c = omega (arith, check_scalar-bytes sizes c x)
      check_value-bytes (arr xs) c = omega (
        arith,
        check_items-bytes xs (plus c (sizes.value_size * (capacities.capacity xs - size_items xs))),
      )
      check_value-bytes (obj ms) c = omega (
        arith,
        check_members-bytes ms
            (plus c (sizes.member_size * (capacities.member_capacity ms - size_members ms))),
      )

      check_items-bytes :
          (xs : Items) (c : ℕ)
          → (check_items sizes capacities c xs + nested_items xs) % 2 ^ 64
            ≡ (c + item_bytes sizes xs + spare_items xs) % 2 ^ 64
      check_items-bytes nil c = omega arith
      check_items-bytes (cons x xs) c =
          omega
            (arith, check_value-bytes x c, check_items-bytes xs (check_value sizes capacities c x))

      check_members-bytes :
          (ms : Members) (c : ℕ)
          → (check_members sizes capacities c ms + nested_members ms) % 2 ^ 64
            ≡ (c + member_bytes sizes ms + spare_members ms) % 2 ^ 64
      check_members-bytes end c = omega arith
      check_members-bytes (member k v ms) c = omega (
        arith,
        check_string-bytes sizes c k,
        check_value-bytes v (check_string sizes c k),
        check_members-bytes ms (check_value sizes capacities (check_string sizes c k) v),
      )

    -- For every document whose strings RapidJSON has copied, after a new handler has checked it the
    -- theoretical cost is the bytes of its values, names and long strings, and the cost is that, the
    -- room that its arrays and objects keep for more, and what a document has more than a value, less
    -- one value for every array and object in it, all modulo 2^64.
    pub check_document-bytes :
        (sax : Sax) (copied : Str → Bool) (copies : (s : Str) → copied s ≡ true) (doc : Json)
        → let s =
            check_document sizes capacities sax copied
              (record { cost = 0; theoretical_cost = 0 })
              doc in
          (s.theoretical_cost % 2 ^ 64 ≡ bytes sizes doc % 2 ^ 64)
          × ((s.cost + nested doc) % 2 ^ 64
              ≡ (s.theoretical_cost + spare doc + (sizes.document_size - sizes.value_size))
                % 2 ^ 64)
    unfolding check_document
    check_document-bytes sax copied copies doc = (
      on-bytes sizes copied copies sax doc 0 ∙ (omega arith),
      omega (
        arith,
        on-bytes sizes copied copies sax doc 0,
        check_value-bytes doc (plus 0 (sizes.document_size - sizes.value_size)),
      ),
    )
