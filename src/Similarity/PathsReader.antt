-- ===== src/Similarity/PathsReader.antt =====
-- libs/joda/core/modules/similarity/src/RJPathsReader.cpp: the SAX handler that collects the paths of
-- a document. The head of a list is the back of the source's vector, for `stack` and `arr_stack`;
-- `paths` is in the source's order. A `long` in `arr_stack` is an integer without a bound.
pub mod Values
use joda.Base.{ℕ, suc, ◌+◌, List, [], ◌∷◌, ◌++◌, Bool, true, false, fold}
use joda.Base.Int.{ℤ, pos, negsuc}
use joda.Base.Text.{Str, to_string}
use joda.Json.{
  Scalar, null, bool, int, uint, int64, uint64, double, raw_number, string, Event, value,
  start_object, key, end_object, start_array, end_array,
}

pub record PathsReader : Type 0 where
  pub stack : List Str
  pub paths : List Str
  pub arr_stack : List ℤ

abbrev pub cleared : PathsReader
cleared = record { stack = []; paths = []; arr_stack = [] }

-- `clear()`
pub clear : PathsReader → PathsReader
clear s = record s { stack = []; arr_stack = []; paths = [] }

add_stack : Str → PathsReader → PathsReader
add_stack str s = record s { stack = str ∷ s.stack }

drop_back {ℓ} : {A : Type ℓ} → List A → List A
drop_back [] = []
drop_back (x ∷ xs) = xs

-- The early return on an empty stack leaves it empty.
pop_stack : PathsReader → PathsReader
unfolding drop_back
pop_stack s = record s { stack = drop_back s.stack }

add_array : PathsReader → PathsReader
unfolding add_stack
add_array s = add_stack (to_string 0) (record s { arr_stack = pos 0 ∷ s.arr_stack })

inc_top : List ℤ → PathsReader → PathsReader
unfolding add_stack
inc_top [] s = s
inc_top (negsuc n ∷ rest) s = s
inc_top (pos n ∷ rest) s =
    add_stack (to_string (n + 1)) (record s { arr_stack = pos (n + 1) ∷ rest })

inc_array : PathsReader → PathsReader
unfolding inc_top
inc_array s = inc_top s.arr_stack s

stop_array : PathsReader → PathsReader
unfolding drop_back
stop_array s = record s { arr_stack = drop_back s.arr_stack }

-- The loop of `addPath`: "/" and the item, from the bottom of the stack.
pub path_of : List Str → Str
path_of [] = []
path_of (item ∷ below) = path_of below ++ b'/' ∷ item

add_path : PathsReader → PathsReader
unfolding path_of
add_path s = record s { paths = s.paths ++ path_of s.stack ∷ [] }

on_null : PathsReader → PathsReader
on_null s = inc_array (pop_stack s)

on_bool : PathsReader → PathsReader
on_bool s = inc_array (pop_stack s)

on_int : PathsReader → PathsReader
on_int s = inc_array (pop_stack s)

on_uint : PathsReader → PathsReader
on_uint s = inc_array (pop_stack s)

on_int64 : PathsReader → PathsReader
on_int64 s = inc_array (pop_stack s)

on_uint64 : PathsReader → PathsReader
on_uint64 s = inc_array (pop_stack s)

on_double : PathsReader → PathsReader
on_double s = inc_array (pop_stack s)

on_raw_number : PathsReader → PathsReader
on_raw_number s = inc_array (pop_stack s)

on_string : PathsReader → PathsReader
on_string s = inc_array (pop_stack s)

on_start_object : PathsReader → PathsReader
on_start_object s = record s { arr_stack = negsuc 0 ∷ s.arr_stack }

on_key : Str → PathsReader → PathsReader
on_key str s = add_path (add_stack str s)

on_end_object : PathsReader → PathsReader
unfolding drop_back
on_end_object s =
    let popped = pop_stack s in inc_array (record popped { arr_stack = drop_back popped.arr_stack })

on_start_array : PathsReader → PathsReader
on_start_array s = add_array s

on_end_array : PathsReader → PathsReader
on_end_array s = inc_array (pop_stack (pop_stack (stop_array s)))

-- The overloads of the handler. Each returns true, so the traversal always goes on.
on : PathsReader → Event → PathsReader
unfolding on_null on_bool on_int on_uint on_int64 on_uint64 on_double on_raw_number on_string
    on_start_object on_key on_end_object on_start_array on_end_array add_stack pop_stack add_array
    inc_array stop_array add_path
on s (value null) = on_null s
on s (value (bool b)) = on_bool s
on s (value (int i)) = on_int s
on s (value (uint i)) = on_uint s
on s (value (int64 i)) = on_int64 s
on s (value (uint64 i)) = on_uint64 s
on s (value (double d)) = on_double s
on s (value (raw_number str)) = on_raw_number s
on s (value (string str)) = on_string s
on s start_object = on_start_object s
on s (key str) = on_key str s
on s (end_object n) = on_end_object s
on s start_array = on_start_array s
on s (end_array n) = on_end_array s

-- The state after a document's calls.
unfoldable pub read : PathsReader → List Event → PathsReader
unfolding on
read s es = fold on s es
