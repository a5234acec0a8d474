-- ===== src/Values/MemberCount.antt =====
-- libs/joda/core/modules/query/values/include/joda/query/values/MemberCountProvider.h,
-- by way of UnaryPointerAcceptProvider.h. `none` is a call that returns false:
-- the traversal then ends and returns false. `stack` counts from 0 and never falls below it.
use joda.Base.{
  ℕ, ◌+◌, ◌-◌, ◌%◌, ◌^◌, Option, none, some, Bool, true, false, List, [], ◌∷◌, ◌++◌, ◌≡◌, refl, ap,
  ◌∙◌, arith, fold, fold-append, if◌then◌else◌, ◌==◌, ◌>>=◌, suc,
}
use joda.Base.Text.{Str}
use joda.Json.{
  Json, scalar, arr, obj, Items, nil, cons, Members, end, member, null, uint, uint64, Event, value,
  key, start_object, end_object, start_array, end_array, Sax, item_events, member_events,
  size_items, size_members,
}

-- `MemberCountHandler`
pub record Handler : Type 0 where
  pub stack : ℕ
  pub count : ℕ
  pub first_object : Bool

unfoldable pub on : Handler → Event → Option Handler
on h (value x) = if h.first_object then some h else none
on h start_object = some (record {
  stack = h.stack + 1;
  count = h.count;
  first_object = if h.stack == 0 then true else h.first_object;
})
on h (key k) = some (record h { count = if h.stack == 1 then (h.count + 1) % 2 ^ 64 else h.count })
on h (end_object n) = some (record h { stack = h.stack - 1 })
on h start_array = if h.first_object then some (record h { stack = h.stack + 1 }) else none
on h (end_array n) = some (record h { stack = h.stack - 1 })

-- What `getAtomValue` has of its parameter's value: the value of an atom, or of a pointer that can be
-- followed; an object that spans several documents; or what `ValueAccepter::Accept` passes on. For a
-- missing value the provider calls `h.Null()`, does not look at its result and returns true.
pub data Source : Type 0 where
  pointer : Json → Source
  virtual_object : ℕ → Source
  accepted : Option Json → Source

run : Option Handler → List Event → Option Handler
unfolding on
run o events = fold (λ p e. p >>= λ h. on h e) o events

abbrev fresh : Handler
fresh = record { stack = 0; count = 0; first_object = false }

abbrev counted : Option Handler → Json
counted none = scalar null
counted (some h) = scalar (uint64 h.count)

module _ (sax : Sax) where
  -- `MemberCountCalculator`
  unfoldable pub member_count : Source → Json
  unfolding run
  member_count (pointer (obj ms)) = scalar (uint (size_members ms))
  member_count (pointer v) = scalar null
  member_count (virtual_object n) = scalar (uint64 n)
  member_count (accepted none) = scalar (uint64 fresh.count)
  member_count (accepted (some v)) = counted (run (some fresh) (sax.accept v))

  run-append : (o : Option Handler) (xs ys : List Event) → run o (xs ++ ys) ≡ run (run o xs) ys
  unfolding run
  run-append o xs ys = fold-append (λ p e. p >>= λ h. on h e) o xs ys

  -- The handler inside an object, at some depth.
  abbrev inside : ℕ → ℕ → Handler
  inside s n = record { stack = s; count = n; first_object = true }

  start-inside : (s n : ℕ) → on (inside (suc s) n) start_object ≡ some (inside (suc (suc s)) n)
  unfolding on
  start-inside s n = ground arith

  key-inside :
      (k : Str) (s n : ℕ) → on (inside (suc (suc s)) n) (key k) ≡ some (inside (suc (suc s)) n)
  unfolding on
  key-inside k s n = ground arith

  -- Calls that leave the handler as it is, between a call that goes one deeper and one that comes back.
  run-around :
      (first last : Event) (body : List Event) (s n : ℕ)
      → on (inside (suc s) n) first ≡ some (inside (suc (suc s)) n)
      → run (some (inside (suc (suc s)) n)) body ≡ some (inside (suc (suc s)) n)
      → on (inside (suc (suc s)) n) last ≡ some (inside (suc s) n)
      → run (some (inside (suc s) n)) (first ∷ (body ++ last ∷ [])) ≡ some (inside (suc s) n)
  unfolding run
  run-around first last body s n opens stays closes =
      ap (λ o. run o (body ++ last ∷ [])) opens
      ∙ run-append (some (inside (suc (suc s)) n)) body (last ∷ [])
      ∙ ap (λ o. run o (last ∷ [])) stays
      ∙ closes

  -- A value in an object leaves the handler as it is.
  mutual
    unfolding run on

    run-inside :
        (v : Json) (s n : ℕ)
        → run (some (inside (suc s) n)) (sax.accept v) ≡ some (inside (suc s) n)
    run-inside (scalar x) s n = rw (sax.accept-scalar x) refl
    run-inside (arr xs) s n = rw (sax.accept-arr xs) (
        run-around start_array (end_array (size_items xs)) (item_events sax.accept xs) s n
          (ground arith) (run-inside_items xs (suc s) n) (ground arith))
    run-inside (obj ms) s n = rw (sax.accept-obj ms) (
        run-around start_object (end_object (size_members ms)) (member_events sax.accept ms) s n
          (start-inside s n) (run-inside_members ms s n) (ground arith))

    run-inside_items :
        (xs : Items) (s n : ℕ)
        → run (some (inside (suc s) n)) (item_events sax.accept xs) ≡ some (inside (suc s) n)
    run-inside_items nil s n = refl
    run-inside_items (cons x xs) s n =
        run-append (some (inside (suc s) n)) (sax.accept x) (item_events sax.accept xs)
        ∙ ap (λ o. run o (item_events sax.accept xs)) (run-inside x s n)
        ∙ run-inside_items xs s n

    run-inside_members :
        (ms : Members) (s n : ℕ)
        → run (some (inside (suc (suc s)) n)) (member_events sax.accept ms)
          ≡ some (inside (suc (suc s)) n)
    run-inside_members end s n = refl
    run-inside_members (member k v ms) s n =
        ap (λ o. run o (sax.accept v ++ member_events sax.accept ms)) (key-inside k s n)
        ∙ run-append (some (inside (suc (suc s)) n)) (sax.accept v) (member_events sax.accept ms)
        ∙ ap (λ o. run o (member_events sax.accept ms)) (run-inside v (suc s) n)
        ∙ run-inside_members ms s n
