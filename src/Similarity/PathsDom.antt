-- ===== src/Similarity/PathsDom.antt =====
-- `getPaths` of libs/joda/core/modules/similarity/include/joda/similarity/measures/PathJaccard.h: the
-- paths of a document that is in memory. The `int` that counts the elements of an array is its 32
-- bits: where it overflows, which C++ leaves undefined, it wraps here.
use joda.Base.{ℕ, ◌+◌, ◌-◌, ◌%◌, ◌^◌, ltb, List, [], ◌∷◌, ◌++◌, ◌==◌, if◌then◌else◌}
use joda.Base.Text.{Str, to_string}
use joda.Json.{Json, scalar, arr, obj, Items, nil, cons, Members, end, member}

-- A C string ends at its first zero byte: what `std::string + GetString()` appends of a name.
unfoldable pub c_str : Str → Str
c_str [] = []
c_str (c ∷ cs) = if c == 0 then [] else c ∷ c_str cs

-- `std::to_string` of an `int`, of its 32 bits.
unfoldable pub int_text : ℕ → Str
int_text i = if ltb i (2 ^ 31) then to_string i else b'-' ∷ to_string (2 ^ 32 - i)

-- `set` is filled in order. A value that is neither an object nor an array adds nothing, so the
-- source's tests before its recursive calls are the first clause.
unfoldable mutual
  pub get_paths : Json → Str → List Str → List Str
  get_paths (scalar x) prefix set = set
  get_paths (obj ms) prefix set = get_member_paths ms prefix set
  get_paths (arr xs) prefix set = get_item_paths xs 0 prefix set

  pub get_member_paths : Members → Str → List Str → List Str
  get_member_paths end prefix set = set
  get_member_paths (member name v ms) prefix set =
      let path = prefix ++ b'/' ∷ c_str name in
      get_member_paths ms prefix (get_paths v path (set ++ path ∷ []))

  pub get_item_paths : Items → ℕ → Str → List Str → List Str
  get_item_paths nil i prefix set = set
  get_item_paths (cons item xs) i prefix set =
      get_item_paths xs ((i + 1) % 2 ^ 32) prefix (get_paths item (prefix ++ b'/' ∷ int_text i) set)
