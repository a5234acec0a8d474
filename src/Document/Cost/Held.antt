-- ===== src/Document/Cost/Held.antt =====
-- DocumentCostHandler.h: the theoretical cost of a document, by the calls of the SAX interface.
use joda.Base.{
  ℕ, ◌+◌, ◌*◌, ◌%◌, ◌^◌, Bool, true, List, [], ◌∷◌, ◌++◌, ◌≡◌, refl, ap, fold, fold-append, length,
  if◌then◌else◌, arith, Bool-cases, inl, inr,
}
use joda.Base.Text.{Str}
use joda.Json.{
  Scalar, string, raw_number, null, bool, int, uint, int64, uint64, double, Json, scalar, arr, obj,
  Items, nil, cons, Members, end, member, Event, key, end_object, end_array, size_items,
  size_members, Sax, item_events, member_events,
}
use joda.Document.Cost.{
  Sizes, can_be_short_string, on_string, on_value, on, check_string, check_scalar,
}

module _ (sizes : Sizes) where
  -- The bytes of a string, with its value.
  unfoldable pub string_bytes : Str → ℕ
  string_bytes s =
      if can_be_short_string sizes (length s)
      then sizes.value_size
      else sizes.value_size + sizes.char_size * length s

  unfoldable pub scalar_bytes : Scalar → ℕ
  unfolding string_bytes
  scalar_bytes (string s) = string_bytes s
  scalar_bytes (raw_number s) = string_bytes s
  scalar_bytes x = sizes.value_size

  -- The values, the names and the long strings of a document.
  unfoldable mutual
    unfolding scalar_bytes string_bytes

    pub bytes : Json → ℕ
    bytes (scalar x) = scalar_bytes x
    bytes (arr xs) = sizes.value_size + item_bytes xs
    bytes (obj ms) = sizes.value_size + member_bytes ms

    pub item_bytes : Items → ℕ
    item_bytes nil = 0
    item_bytes (cons x xs) = bytes x + item_bytes xs

    pub member_bytes : Members → ℕ
    member_bytes end = 0
    member_bytes (member k v ms) = string_bytes k + bytes v + member_bytes ms

  pub check_string-bytes :
      (c : ℕ) (s : Str) → check_string sizes c s % 2 ^ 64 ≡ (c + string_bytes s) % 2 ^ 64
  unfolding check_string string_bytes
  check_string-bytes c s = elim (Bool-cases (can_be_short_string sizes (length s))) [
    | inl short ↦ rw short (omega arith)
    | inr long ↦ rw long (omega arith)
  ]

  pub check_scalar-bytes :
      (c : ℕ) (x : Scalar) → check_scalar sizes c x % 2 ^ 64 ≡ (c + scalar_bytes x) % 2 ^ 64
  unfolding check_scalar scalar_bytes
  check_scalar-bytes c (string s) = check_string-bytes c s
  check_scalar-bytes c (raw_number s) = check_string-bytes c s
  check_scalar-bytes c null = omega arith
  check_scalar-bytes c (bool b) = omega arith
  check_scalar-bytes c (int i) = omega arith
  check_scalar-bytes c (uint i) = omega arith
  check_scalar-bytes c (int64 i) = omega arith
  check_scalar-bytes c (uint64 i) = omega arith
  check_scalar-bytes c (double d) = omega arith

  module _ (copied : Str → Bool) (copies : (s : Str) → copied s ≡ true) where
    on_string-check_string : (c : ℕ) (s : Str) → on_string sizes copied c s ≡ check_string sizes c s
    unfolding on_string check_string
    on_string-check_string c s = rw (copies s) refl

    on_value-check_scalar :
        (c : ℕ) (x : Scalar) → on_value sizes copied c x ≡ check_scalar sizes c x
    unfolding on_value check_scalar
    on_value-check_scalar c (string s) = on_string-check_string c s
    on_value-check_scalar c (raw_number s) = on_string-check_string c s
    on_value-check_scalar c null = refl
    on_value-check_scalar c (bool b) = refl
    on_value-check_scalar c (int i) = refl
    on_value-check_scalar c (uint i) = refl
    on_value-check_scalar c (int64 i) = refl
    on_value-check_scalar c (uint64 i) = refl
    on_value-check_scalar c (double d) = refl

    fold-key :
        (c : ℕ) (k : Str) (events : List Event)
        → fold (on sizes copied) c (key k ∷ events)
          ≡ fold (on sizes copied) (check_string sizes c k) events
    unfolding on on_string
    fold-key c k events = ap (λ b. fold (on sizes copied) b events) (on_string-check_string c k)

    module _ (sax : Sax) where
      mutual
        unfolding on bytes item_bytes member_bytes

        pub on-bytes :
            (x : Json) (c : ℕ)
            → fold (on sizes copied) c (sax.accept x) % 2 ^ 64 ≡ (c + bytes x) % 2 ^ 64
        on-bytes (scalar x) c =
            rw (sax.accept-scalar x, on_value-check_scalar c x) (check_scalar-bytes c x)
        on-bytes (arr xs) c =
            rw
              (
                sax.accept-arr xs,
                fold-append (on sizes copied) c (item_events sax.accept xs)
                    (end_array (size_items xs) ∷ []),
              )
              (omega (arith, on-item_bytes xs c))
        on-bytes (obj ms) c =
            rw
              (
                sax.accept-obj ms,
                fold-append (on sizes copied) c (member_events sax.accept ms)
                    (end_object (size_members ms) ∷ []),
              )
              (omega (arith, on-member_bytes ms c))

        on-item_bytes :
            (xs : Items) (c : ℕ)
            → fold (on sizes copied) c (item_events sax.accept xs) % 2 ^ 64
              ≡ (c + item_bytes xs) % 2 ^ 64
        on-item_bytes nil c = omega arith
        on-item_bytes (cons x xs) c =
            rw (fold-append (on sizes copied) c (sax.accept x) (item_events sax.accept xs)) (
              omega
                (arith, on-bytes x c, on-item_bytes xs (fold (on sizes copied) c (sax.accept x))))

        on-member_bytes :
            (ms : Members) (c : ℕ)
            → fold (on sizes copied) c (member_events sax.accept ms) % 2 ^ 64
              ≡ (c + member_bytes ms) % 2 ^ 64
        on-member_bytes end c = omega arith
        on-member_bytes (member k v ms) c =
            rw
              (
                fold-key c k (sax.accept v ++ member_events sax.accept ms),
                fold-append (on sizes copied) (check_string sizes c k) (sax.accept v)
                    (member_events sax.accept ms),
              )
              (omega (
                arith,
                check_string-bytes c k,
                on-bytes v (check_string sizes c k),
                on-member_bytes ms (fold (on sizes copied) (check_string sizes c k) (sax.accept v)),
              ))
