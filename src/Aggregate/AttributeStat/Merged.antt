-- ===== src/Aggregate/AttributeStat/Merged.antt =====
-- AttributeStatAggregator.h and .cpp: `Node::merge` and `Node::toValue`.
use Prim.Native.String.{String}
use joda.Base.{ℕ, ◌+◌, ◌-◌, ◌%◌, ◌^◌, max, min, [], ◌∷◌, if◌then◌else◌, ltb}
use joda.Base.Int.{int_lt}
use joda.Base.Text.{Str, codes}
use joda.Json.{
  Json, scalar, obj, arr, Items, Members, member, end, int64, uint64, double, string,
  nil as no_items, cons as more_items,
}
use joda.Aggregate.AttributeStat.{
  DoubleLimits, std_min, std_max, Counters, Node, node, Nodes, nil, cons, child, item,
  with_counters, find_slot, place,
}

module _ (limits : DoubleLimits) where
  -- `Node::merge`, without the children.
  unfoldable pub add_counters : Counters → Counters → Counters
  add_counters o c = record {
    count_obj = (c.count_obj + o.count_obj) % 2 ^ 64;
    max_member = max c.max_member o.max_member;
    min_member = min c.min_member o.min_member;
    count_arr = (c.count_arr + o.count_arr) % 2 ^ 64;
    max_size = max c.max_size o.max_size;
    min_size = min c.min_size o.min_size;
    count_null = (c.count_null + o.count_null) % 2 ^ 64;
    count_str = (c.count_str + o.count_str) % 2 ^ 64;
    max_strsize = max c.max_strsize o.max_strsize;
    min_strsize = min c.min_strsize o.min_strsize;
    count_double = (c.count_double + o.count_double) % 2 ^ 64;
    max_double = std_max limits.double_lt c.max_double o.max_double;
    min_double = std_min limits.double_lt c.min_double o.min_double;
    count_int = (c.count_int + o.count_int) % 2 ^ 64;
    max_int = std_max int_lt c.max_int o.max_int;
    min_int = std_min int_lt c.min_int o.min_int;
    count_bool = (c.count_bool + o.count_bool) % 2 ^ 64;
    count_true = (c.count_true + o.count_true) % 2 ^ 64;
    count_false = (c.count_false + o.count_false) % 2 ^ 64;
  }

  -- `o` is merged into `n`.
  unfoldable mutual
    unfolding add_counters

    pub merge : Node → Node → Node
    merge (node o children arr_members) n =
        merge_items 0 arr_members
          (merge_children children (with_counters limits (add_counters o) n))

    pub merge_children : Nodes → Node → Node
    merge_children nil n = n
    merge_children (cons k o rest) n =
        merge_children rest (place limits (child k) (merge o (find_slot limits (child k) n)) n)

    pub merge_items : ℕ → Nodes → Node → Node
    merge_items i nil n = n
    merge_items i (cons k o rest) n =
        merge_items (i + 1) rest (place limits (item i) (merge o (find_slot limits (item i) n)) n)

-- `Node::getCount`
unfoldable pub get_count : Counters → ℕ
get_count c =
    (c.count_null + c.count_obj + c.count_arr + c.count_int + c.count_double + c.count_bool
      + c.count_str)
    % 2 ^ 64

abbrev counted : String → ℕ → Members → Members
counted name n rest = member (codes name) (scalar (uint64 n)) rest

-- The members before `Children`.
counter_members : Str → Counters → Members → Members
unfolding get_count
counter_members name c rest =
    let numbers = counted "Count_Number" ((c.count_int + c.count_double) % 2 ^ 64) rest in
    let floats = counted "Count_Float" c.count_double (
      if ltb 0 c.count_double
      then member (codes "Min_Float") (scalar (double c.min_double))
          (member (codes "Max_Float") (scalar (double c.max_double)) numbers)
      else numbers) in
    let ints = counted "Count_Int" c.count_int (
      if ltb 0 c.count_int
      then member (codes "Min_Int") (scalar (int64 c.min_int))
          (member (codes "Max_Int") (scalar (int64 c.max_int)) floats)
      else floats) in
    let strings = counted "Count_String" c.count_str (
      if ltb c.min_strsize (2 ^ 64 - 1)
      then counted "Min_StrSize" c.min_strsize (counted "Max_StrSize" c.max_strsize ints)
      else ints) in
    let bools =
      counted "Count_Boolean" c.count_bool
        (counted "Count_True" c.count_true (counted "Count_False" c.count_false strings)) in
    let arrays = counted "Count_Array" c.count_arr (
      if ltb c.min_size (2 ^ 64 - 1)
      then counted "Min_Size" c.min_size
          (counted "Max_Size" c.max_size (counted "Count_Null" c.count_null bools))
      else counted "Count_Null" c.count_null bools) in
    let objects = counted "Count_Total" (get_count c) (
      counted "Count_Object" c.count_obj (
        if ltb c.min_member (2 ^ 64 - 1)
        then counted "Min_Member" c.min_member (counted "Max_Member" c.max_member arrays)
        else arrays)) in
    elim name [ [] ↦ objects | x ∷ xs ↦ member (codes "Key") (scalar (string (x ∷ xs))) objects ]

abbrev listed : String → Items → Members → Members
listed name no_items rest = rest
listed name (more_items x xs) rest = member (codes name) (arr (more_items x xs)) rest

-- `Node::toValue`, of a node with its name.
unfoldable mutual
  unfolding counter_members

  pub to_value : Str → Node → Json
  to_value name (node c children arr_members) =
      let items = listed "Array_Items" (to_values arr_members) end in
      obj (counter_members name c (listed "Children" (to_values children) items))

  to_values : Nodes → Items
  to_values nil = no_items
  to_values (cons k n rest) = more_items (to_value k n) (to_values rest)
