-- ===== src/Aggregate/AttributeStat.antt =====
-- libs/joda/core/modules/query/aggregate/include/joda/query/aggregation/AttributeStatAggregator.h and
-- its .cpp. A node's name stands beside it in its parent's list. The node that `currnode` points to and
-- those above it are kept apart from their parents, which hold their earlier states, and are put back
-- when the handler returns to the parent. `none` is a null pointer that is followed.
pub mod Accepted
pub mod Merged
use joda.Base.{
  ◌&&◌, ℕ, zero, suc, ◌+◌, ◌-◌, ◌%◌, ◌^◌, max, min, length, fold, Option, none, some, Bool, true,
  false, List, [], ◌∷◌, if◌then◌else◌, ltb, ◌>>=◌,
}
use joda.Base.Int.{ℤ, pos, negsuc, int_lt}
use joda.Base.Text.{Str, str_eq, to_string}
use joda.Json.{
  Scalar, null, bool, int, uint, int64, uint64, double, raw_number, string, Event, value, key,
  start_object, end_object, start_array, end_array, Sax, Json, scalar,
}
use joda.Aggregate.Count.{to_int64}

abbrev std_min : {A : Type 0} → (A → A → Bool) → A → A → A
std_min lt a b = if lt b a then b else a

abbrev std_max : {A : Type 0} → (A → A → Bool) → A → A → A
std_max lt a b = if lt a b then b else a

-- `std::numeric_limits<double>` and `<`, and whether the build checks a `DCHECK`, which then aborts.
pub record DoubleLimits : Type 0 where
  pub double_max : ℕ
  pub double_lowest : ℕ
  pub double_lt : ℕ → ℕ → Bool
  pub dcheck : Bool

-- The counters of a `Node`.
pub record Counters : Type 0 where
  pub count_obj : ℕ
  pub max_member : ℕ
  pub min_member : ℕ
  pub count_arr : ℕ
  pub max_size : ℕ
  pub min_size : ℕ
  pub count_null : ℕ
  pub count_str : ℕ
  pub max_strsize : ℕ
  pub min_strsize : ℕ
  pub count_double : ℕ
  pub max_double : ℕ
  pub min_double : ℕ
  pub count_int : ℕ
  pub max_int : ℤ
  pub min_int : ℤ
  pub count_bool : ℕ
  pub count_true : ℕ
  pub count_false : ℕ

mutual
  -- With its `children` and its `arrMembers`.
  pub data Node : Type 0 where
    node : Counters → Nodes → Nodes → Node

  pub data Nodes : Type 0 where
    nil : Nodes
    cons : Str → Node → Nodes → Nodes

-- Where a node stands in its parent.
pub data Slot : Type 0 where
  child : Str → Slot
  item : ℕ → Slot

-- `currnode`, with the nodes above it, or a null pointer after the root.
pub data Cursor : Type 0 where
  at : Node → List (Node × Slot) → Cursor
  past : Node → Cursor

pub record Handler : Type 0 where
  pub curr_node : Cursor
  -- `isArr` and `count`; the last level first.
  pub levels : List (Bool × ℕ)

-- `x++` of a `size_t`.
abbrev pub inc : ℕ → ℕ
inc x = (x + 1) % 2 ^ 64

module _ (limits : DoubleLimits) where
  abbrev pub new_counters : Counters
  new_counters = record {
    count_obj = 0;
    max_member = 0;
    min_member = 2 ^ 64 - 1;
    count_arr = 0;
    max_size = 0;
    min_size = 2 ^ 64 - 1;
    count_null = 0;
    count_str = 0;
    max_strsize = 0;
    min_strsize = 2 ^ 64 - 1;
    count_double = 0;
    max_double = limits.double_lowest;
    min_double = limits.double_max;
    count_int = 0;
    max_int = negsuc (2 ^ 63 - 1);
    min_int = pos (2 ^ 63 - 1);
    count_bool = 0;
    count_true = 0;
    count_false = 0;
  }

  abbrev pub new_node : Node
  new_node = node new_counters nil nil

  see_int : Counters → ℤ → Counters
  see_int c i = record c {
    count_int = inc c.count_int;
    min_int = std_min int_lt i c.min_int;
    max_int = std_max int_lt i c.max_int;
  }

  -- What a scalar does to the counters of its node.
  unfoldable pub see_scalar : Counters → Scalar → Counters
  unfolding see_int
  see_scalar c null = record c { count_null = inc c.count_null }
  see_scalar c (bool true) = record c {
    count_bool = inc c.count_bool;
    count_true = inc c.count_true;
  }
  see_scalar c (bool false) = record c {
    count_bool = inc c.count_bool;
    count_false = inc c.count_false;
  }
  see_scalar c (int i) = see_int c i
  see_scalar c (uint i) = see_int c (pos i)
  see_scalar c (int64 i) = see_int c i
  see_scalar c (uint64 i) = see_int c (to_int64 i)
  see_scalar c (double d) = record c {
    count_double = inc c.count_double;
    min_double = std_min limits.double_lt d c.min_double;
    max_double = std_max limits.double_lt d c.max_double;
  }
  see_scalar c (raw_number s) = record c { count_double = inc c.count_double }
  see_scalar c (string s) = record c {
    count_str = inc c.count_str;
    min_strsize = min (length s) c.min_strsize;
    max_strsize = max (length s) c.max_strsize;
  }

  abbrev pub see_object : Counters → Counters
  see_object c = record c { count_obj = inc c.count_obj }

  abbrev pub see_array : Counters → Counters
  see_array c = record c { count_arr = inc c.count_arr }

  abbrev pub see_members : ℕ → Counters → Counters
  see_members n c = record c { min_member = min n c.min_member; max_member = max n c.max_member }

  abbrev pub see_elements : ℕ → Counters → Counters
  see_elements n c = record c { min_size = min n c.min_size; max_size = max n c.max_size }

  abbrev pub with_counters : (Counters → Counters) → Node → Node
  with_counters f (node c children arr_members) = node (f c) children arr_members

  abbrev find_named : Str → Nodes → Node
  find_named name nil = new_node
  find_named name (cons k n rest) =
      let later = find_named name rest in if str_eq k name then n else later

  abbrev find_nth : ℕ → Nodes → Node
  find_nth i nil = new_node
  find_nth zero (cons k n rest) = n
  find_nth (suc i) (cons k n rest) = find_nth i rest

  -- `findChild` and `findArrElt`: the node in the slot, or a new one.
  unfoldable pub find_slot : Slot → Node → Node
  find_slot (child name) (node c children arr_members) = find_named name children
  find_slot (item i) (node c children arr_members) = find_nth i arr_members

  abbrev place_named : Str → Node → Nodes → Nodes
  place_named name m nil = cons name m nil
  place_named name m (cons k n rest) =
      let later = cons k n (place_named name m rest) in
      if str_eq k name then cons k m rest else later

  abbrev place_nth : ℕ → Str → Node → Nodes → Nodes
  place_nth i name m nil = cons name m nil
  place_nth zero name m (cons k n rest) = cons k m rest
  place_nth (suc i) name m (cons k n rest) = cons k n (place_nth i name m rest)

  -- The parent with the node in its slot; a new one is its last.
  unfoldable pub place : Slot → Node → Node → Node
  place (child name) m (node c children arr_members) =
      node c (place_named name m children) arr_members
  place (item i) m (node c children arr_members) =
      node c children (place_nth i (to_string i) m arr_members)

  unfoldable pub enter : Slot → Cursor → Option Cursor
  unfolding find_slot
  enter slot (at n above) = some (at (find_slot slot n) ((n, slot) ∷ above))
  enter slot (past n) = none

  unfoldable pub update : (Counters → Counters) → Cursor → Option Cursor
  update f (at n above) = some (at (with_counters f n) above)
  update f (past n) = none

  -- `finishValue`
  unfoldable pub finish_value : Cursor → Option Cursor
  unfolding place
  finish_value (at n []) = some (past n)
  finish_value (at n ((parent, slot) ∷ above)) = some (at (place slot n parent) above)
  finish_value (past n) = none

  abbrev check_array_at : Cursor → List (Bool × ℕ) → Option Handler
  check_array_at c [] = some (record { curr_node = c; levels = [] })
  check_array_at c ((true, count) ∷ rest) = enter (item count) c >>= λ d.
      some (record { curr_node = d; levels = (true, count + 1) ∷ rest })
  check_array_at c ((false, count) ∷ rest) =
      some (record { curr_node = c; levels = (false, count) ∷ rest })

  unfoldable pub check_array : Handler → Option Handler
  unfolding enter
  check_array h = check_array_at h.curr_node h.levels

  abbrev pop_back : List (Bool × ℕ) → Option (List (Bool × ℕ))
  pop_back [] = none
  pop_back (l ∷ levels) = some levels

  -- `Null`, `Bool` and so on.
  unfoldable pub on_value : Scalar → Handler → Option Handler
  unfolding check_array update finish_value see_scalar
  on_value x h = check_array h >>= λ g. update (λ c. see_scalar c x) g.curr_node >>= λ c.
      finish_value c >>= λ d. some (record g { curr_node = d })

  -- `StartObject` and `StartArray`
  unfoldable pub on_start : Bool → (Counters → Counters) → Handler → Option Handler
  unfolding check_array update
  on_start is_arr see h = check_array h >>= λ g. update see g.curr_node >>= λ c.
      some (record { curr_node = c; levels = (is_arr, 0) ∷ g.levels })

  -- `EndObject` and `EndArray`
  unfoldable pub on_end : (Counters → Counters) → Handler → Option Handler
  unfolding update finish_value
  on_end see h = update see h.curr_node >>= λ c.
      finish_value c >>= λ d. pop_back h.levels >>= λ l. some (record { curr_node = d; levels = l })

  abbrev pub is_empty : Str → Bool
  is_empty [] = true
  is_empty (c ∷ cs) = false

  -- Of the tests of DCHECK, that for a null pointer is `none` in every build.
  unfoldable pub on_key : Str → Handler → Option Handler
  unfolding enter
  on_key name h =
      if limits.dcheck && is_empty name
      then none
      else enter (child name) h.curr_node >>= λ c. some (record h { curr_node = c })

  unfoldable pub on : Handler → Event → Option Handler
  unfolding on_value on_start on_end on_key
  on h (value x) = on_value x h
  on h start_object = on_start false see_object h
  on h (key name) = on_key name h
  on h (end_object n) = on_end (see_members n) h
  on h start_array = on_start true see_array h
  on h (end_array n) = on_end (see_elements n) h

  -- The calls that a value makes, one after another.
  unfoldable pub run : Option Handler → List Event → Option Handler
  unfolding on
  run o events = fold (λ p e. p >>= λ h. on h e) o events

abbrev put_back : DoubleLimits → Node → List (Node × Slot) → Node
put_back limits n [] = n
put_back limits n ((parent, slot) ∷ above) = put_back limits (place limits slot n parent) above

-- What `root` is when the handler is at the cursor.
unfoldable pub root : DoubleLimits → Cursor → Node
unfolding place
root limits (at n above) = put_back limits n above
root limits (past n) = n

module _ {ℓ} {D : Type ℓ} (limits : DoubleLimits) (sax : Sax) (fetched : D → Option Json) where
  -- `PointerProvider::Accept` calls `Null` for a document that has no such value.
  abbrev pub seen : D → Json
  seen d = elim (fetched d) [ none ↦ scalar null | some v ↦ v ]

  -- `accumulate`, which ends with `finishDocument`: the handler's state is then its root. It is
  -- `none` when the handler follows a null pointer or a DCHECK aborts.
  unfoldable pub accumulate : Node → D → Option Node
  unfolding run root
  accumulate n d =
      run limits (some (record { curr_node = at n []; levels = [] })) (sax.accept (seen d)) >>= λ h.
      some (root limits h.curr_node)
