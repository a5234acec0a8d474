-- ===== src/Document/BloomHandler.antt =====
-- libs/joda/core/modules/storage/document/src/BloomAttributeHandler.cpp: the SAX handler that is to
-- collect the attribute paths of a document. The head of a list is the back of the source's vector,
-- for `stack` and `arr_stack`. A `long` in `arr_stack` is an integer without a bound.
pub mod Paths
use joda.Base.{ℕ, suc, ◌+◌, List, [], ◌∷◌, ◌++◌, Bool, true, false, fold}
use joda.Base.Int.{ℤ, pos, negsuc}
use joda.Base.Text.{Str, to_string}
use joda.Json.{
  Scalar, null, bool, int, uint, int64, uint64, double, raw_number, string, Event, value,
  start_object, key, end_object, start_array, end_array,
}

pub record BloomHandler : Type 0 where
  pub stack : List Str
  pub paths : List Str
  pub arr_stack : List ℤ

abbrev pub cleared : BloomHandler
cleared = record { stack = []; paths = []; arr_stack = [] }

-- `clear()`
pub clear : BloomHandler → BloomHandler
clear s = record s { stack = []; arr_stack = []; paths = [] }

add_stack : Str → BloomHandler → BloomHandler
add_stack str s = record s { stack = str ∷ s.stack }

drop_back {ℓ} : {A : Type ℓ} → List A → List A
drop_back [] = []
drop_back (x ∷ xs) = xs

-- The early return on an empty stack leaves it empty.
pop_stack : BloomHandler → BloomHandler
unfolding drop_back
pop_stack s = record s { stack = drop_back s.stack }

add_array : BloomHandler → BloomHandler
unfolding add_stack
add_array s = add_stack (to_string 0) (record s { arr_stack = pos 0 ∷ s.arr_stack })

inc_top : List ℤ → BloomHandler → BloomHandler
unfolding add_stack
inc_top [] s = s
inc_top (negsuc n ∷ rest) s = s
inc_top (pos n ∷ rest) s =
    add_stack (to_string (n + 1)) (record s { arr_stack = pos (n + 1) ∷ rest })

inc_array : BloomHandler → BloomHandler
unfolding inc_top
inc_array s = inc_top s.arr_stack s

stop_array : BloomHandler → BloomHandler
unfolding drop_back
stop_array s = record s { arr_stack = drop_back s.arr_stack }

-- The loop of `addPath`: "/" and the item, from the bottom of the stack.
pub path_of : List Str → Str
path_of [] = []
path_of (item ∷ below) = path_of below ++ b'/' ∷ item

-- Inside of an array or an object `addPath` returns early.
add_path : BloomHandler → BloomHandler
unfolding path_of
add_path s = elim s.arr_stack [
  | [] ↦ record s { paths = s.paths ++ path_of s.stack ∷ [] }
  | _ ∷ _ ↦ s
]

on_null : BloomHandler → BloomHandler
on_null s = inc_array (pop_stack s)

on_bool : BloomHandler → BloomHandler
on_bool s = inc_array (pop_stack s)

on_int : BloomHandler → BloomHandler
on_int s = inc_array (pop_stack s)

on_uint : BloomHandler → BloomHandler
on_uint s = inc_array (pop_stack s)

on_int64 : BloomHandler → BloomHandler
on_int64 s = inc_array (pop_stack s)

on_uint64 : BloomHandler → BloomHandler
on_uint64 s = inc_array (pop_stack s)

on_double : BloomHandler → BloomHandler
on_double s = inc_array (pop_stack s)

on_raw_number : BloomHandler → BloomHandler
on_raw_number s = inc_array (pop_stack s)

on_string : BloomHandler → BloomHandler
on_string s = inc_array (pop_stack s)

on_start_object : BloomHandler → BloomHandler
on_start_object s = record s { arr_stack = negsuc 0 ∷ s.arr_stack }

on_key : Str → BloomHandler → BloomHandler
on_key str s = add_path (add_stack str s)

on_end_object : BloomHandler → BloomHandler
unfolding drop_back
on_end_object s =
    let popped = pop_stack s in inc_array (record popped { arr_stack = drop_back popped.arr_stack })

on_start_array : BloomHandler → BloomHandler
on_start_array s = add_array s

on_end_array : BloomHandler → BloomHandler
on_end_array s = inc_array (pop_stack (pop_stack (stop_array s)))

-- The overloads of the handler. Each returns true, so the traversal always goes on.
on : BloomHandler → Event → BloomHandler
unfolding on_null on_bool on_int on_uint on_int64 on_uint64 on_double on_raw_number on_string
    on_start_object on_key on_end_object on_start_array on_end_array add_stack pop_stack add_array
    inc_array stop_array add_path
on s (value null) = on_null s
on s (value (bool b)) = on_bool s
on s (value (int i)) = on_int s
on s (value (uint i)) = on_uint s
on s (value (int64 i)) = on_int64 s
on s (value (uint64 i)) = on_uint64 s
on s (value (double d)) = on_double s
on s (value (raw_number str)) = on_raw_number s
on s (value (string str)) = on_string s
on s start_object = on_start_object s
on s (key str) = on_key str s
on s (end_object n) = on_end_object s
on s start_array = on_start_array s
on s (end_array n) = on_end_array s

-- The state after a document's calls.
unfoldable pub read : BloomHandler → List Event → BloomHandler
unfolding on
read s es = fold on s es
