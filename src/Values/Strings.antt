-- ===== src/Values/Strings.antt =====
-- libs/joda/core/modules/query/values/include/joda/query/values: UnaryStringProvider.h,
-- BinaryStringProvider.h and `getParamString` of IValueProvider.h. A parameter's value is what
-- `fetch` of the module Values gives; a string is its bytes. `toupper`, `tolower` and `isspace` are
-- those of the C locale.
pub mod Split
use joda.Base.{
  ℕ, zero, suc, ◌+◌, ◌-◌, Option, none, some, Bool, true, false, not, ◌&&◌, ◌||◌, List, [], ◌∷◌,
  ◌++◌, leb, ltb, ◌==◌, if◌then◌else◌, map, length, ◌^◌,
}
use joda.Base.Int.{ℤ, pos, negsuc}
use joda.Base.Text.{Str, str_eq}
use joda.Json.{Json, Items, nil, cons, scalar, null, bool, int64, uint64, string, raw_number, arr}
use joda.Similarity.PathsDom.{c_str}
use joda.Aggregate.Count.{to_int64}

abbrev pub take {ℓ} : {A : Type ℓ} → ℕ → List A → List A
take n [] = []
take zero (x ∷ xs) = []
take (suc n) (x ∷ xs) = x ∷ take n xs

abbrev pub drop {ℓ} : {A : Type ℓ} → ℕ → List A → List A
drop n [] = []
drop zero (x ∷ xs) = x ∷ xs
drop (suc n) (x ∷ xs) = drop n xs

-- `getParamString`; `GetString` ends at a zero byte.
abbrev pub get_param_string : Option Json → Option Str
get_param_string (some (scalar (string s))) = some (c_str s)
get_param_string (some (scalar (raw_number s))) = some (c_str s)
get_param_string _ = none

is_prefix : Str → Str → Bool
is_prefix [] s = true
is_prefix (p ∷ ps) [] = false
is_prefix (p ∷ ps) (c ∷ cs) = p == c && is_prefix ps cs

-- The first place, in a suffix that starts at `i`, where the pattern stands.
find_from : Str → ℕ → Str → Option ℕ
unfolding is_prefix
find_from pat i [] = if is_prefix pat [] then some i else none
find_from pat i (c ∷ cs) =
    let later = find_from pat (i + 1) cs in if is_prefix pat (c ∷ cs) then some i else later

-- `s.find(pat, start)`; `none` is `npos`.
unfoldable pub find : Str → Str → ℕ → Option ℕ
unfolding find_from
find s pat start = if ltb (length s) start then none else find_from pat start (drop start s)

-- `s.substr(start, n)`, for a `start` in `s`.
abbrev substr : Str → ℕ → ℕ → Str
substr s start n = take n (drop start s)

to_upper : ℕ → ℕ
to_upper c = if leb b'a' c && leb c b'z' then c - 32 else c

to_lower : ℕ → ℕ
to_lower c = if leb b'A' c && leb c b'Z' then c + 32 else c

is_space : ℕ → Bool
is_space c = c == 32 || (leb 9 c && leb c 13)

-- `erase` up to the first byte that is not a space.
ltrim : Str → Str
unfolding is_space
ltrim [] = []
ltrim (c ∷ cs) = let rest = ltrim cs in if is_space c then rest else c ∷ cs

-- `erase` behind the last byte that is not a space.
rtrim : Str → Str
unfolding is_space
rtrim [] = []
rtrim (c ∷ cs) =
    let rest = rtrim cs in
    elim rest [ [] ↦ (if is_space c then [] else c ∷ []) | d ∷ ds ↦ c ∷ d ∷ ds ]

-- `LenProvider` and so on.
pub data UnaryString : Type 0 where
  len upper lower left_trim right_trim : UnaryString

unfoldable pub unary_string : UnaryString → Str → Json
unfolding to_upper to_lower ltrim rtrim
unary_string len s = scalar (uint64 (length s))
unary_string upper s = scalar (string (c_str (map to_upper s)))
unary_string lower s = scalar (string (c_str (map to_lower s)))
unary_string left_trim s = scalar (string (c_str (ltrim s)))
unary_string right_trim s = scalar (string (c_str (rtrim s)))

-- `UnaryStringProvider::getAtomValue`, on its parameter's value.
unfoldable pub unary_string_value : UnaryString → Option Json → Json
unfolding unary_string
unary_string_value f v = elim (get_param_string v) [
  | none ↦ scalar null
  | some s ↦ unary_string f s
]

-- The `while` loop of SPLIT, with the array made so far; `none` when it has not ended.
unfoldable pub split_loop : ℕ → Str → Str → ℕ → List Str → Option (List Str)
unfolding find
split_loop zero lhs rhs last made = none
split_loop (suc fuel) lhs rhs last made = elim (find lhs rhs last) [
  | none ↦ some (made ++ drop last lhs ∷ [])
  | some next ↦
      split_loop fuel lhs rhs (next + length rhs) (made ++ substr lhs last (next - last) ∷ [])
]

-- A separator that is not empty moves `last` by one in each round, up to the end.
unfoldable pub split : Str → Str → Option (List Str)
unfolding split_loop find
split lhs rhs = split_loop (suc (length lhs)) lhs rhs 0 []

pub data BinaryString : Type 0 where
  s_contains starts_with concat find_str : BinaryString

-- Their `calculate`; `npos` as an `int64_t` is -1.
unfoldable pub binary_string : BinaryString → Str → Str → Json
unfolding find
binary_string s_contains lhs rhs =
    scalar (bool (elim (find lhs rhs 0) [ none ↦ false | some i ↦ true ]))
binary_string starts_with lhs rhs =
    scalar (
      bool
        (if ltb (length lhs) (length rhs) then false else str_eq (substr lhs 0 (length rhs)) rhs))
binary_string concat lhs rhs = scalar (string (c_str (lhs ++ rhs)))
binary_string find_str lhs rhs =
    scalar (int64 (elim (find lhs rhs 0) [ none ↦ negsuc 0 | some i ↦ to_int64 i ]))

abbrev with_strings : Option Json → Option Json → (Str → Str → Option Json) → Option Json
with_strings x y f = elim (get_param_string x) [
  | none ↦ some (scalar null)
  | some lhs ↦ elim (get_param_string y) [ none ↦ some (scalar null) | some rhs ↦ f lhs rhs ]
]

-- `BinaryStringProvider::getAtomValue`, on its parameters' values.
unfoldable pub binary_string_value : BinaryString → Option Json → Option Json → Option Json
unfolding binary_string
binary_string_value f x y = with_strings x y (λ lhs rhs. some (binary_string f lhs rhs))

abbrev string_items : List Str → Items
string_items [] = nil
string_items (s ∷ ss) = cons (scalar (string s)) (string_items ss)

-- The same for SPLIT.
unfoldable pub split_value : Option Json → Option Json → Option Json
unfolding split
split_value x y =
    with_strings x y
      λ lhs rhs. elim (split lhs rhs) [ none ↦ none | some parts ↦ some (arr (string_items parts)) ]
