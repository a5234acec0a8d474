-- ===== src/Values/Substring.antt =====
-- SUBSTR: `utf8_substr` of libs/joda/core/modules/query/values/include/joda/query/values/SubStringProvider.h
-- and `getAtomValue` of its .cpp. Where an `int` overflows the outcome is `undefined`. Where
-- `start + length` overflows it is that also for a string that ends before `start`, for which the
-- source does not add them, and so it is wherever the index may overflow behind a last character of
-- four bytes, whether or not the string ends in one.
pub mod Steps
pub mod Chars
pub mod Slices
use joda.Base.{
  ℕ, zero, suc, ◌+◌, ◌-◌, ◌%◌, ◌^◌, Option, none, some, Bool, true, false, not, ◌&&◌, ◌||◌, List,
  [], ◌∷◌, ◌==◌, leb, ltb, min, if◌then◌else◌, length,
}
use joda.Base.Int.{ℤ, pos, negsuc, int_eq, int_lt, ◌+ℤ◌, ◌-ℤ◌}
use joda.Base.Text.{Str}
use joda.Json.{Json, scalar, null, string}
use joda.Similarity.PathsDom.{c_str}
use joda.Values.Strings.{take, drop, get_param_string}

pub data Outcome : Type 0 where
  text : Str → Outcome
  -- `std::out_of_range`
  out_of_range : Outcome
  undefined : Outcome

-- The bytes that a first byte skips; none for those that no character starts with. A byte that
-- continues a character counts as one of its own.
unfoldable pub skipped : ℕ → Option ℕ
skipped c =
    if leb c 191
    then some 0
    else if leb c 223
    then some 1
    else if leb c 239
    then some 2
    else if leb c 247
    then some 3
    else none

-- `j` after the first loop, `utf8_strlen`, with the bytes still to skip.
count_chars : Str → ℕ → ℕ → Option ℕ
unfolding skipped
count_chars [] skip j = some j
count_chars (c ∷ cs) (suc skip) j = count_chars cs skip j
count_chars (c ∷ cs) zero j = elim (skipped c) [ none ↦ none | some w ↦ count_chars cs w (j + 1) ]

-- The variables of the second loop.
pub record Walk : Type 0 where
  pub i : ℕ
  pub j : ℕ
  pub realstart : ℕ
  pub reallength : ℕ

abbrev pub zeros : Walk
zeros = record { i = 0; j = 0; realstart = 0; reallength = 0 }

-- `j == start`, and `j >= start && (length == INT_MAX || j <= start + length)`.
module _ (at_start : ℕ → Bool) (inside : ℕ → Bool) where
  unfoldable pub mark : Walk → Walk
  mark w =
      let start = if at_start w.j then w.i else w.realstart in
      record w { realstart = start; reallength = if inside w.j then w.i - start else w.reallength }

  -- The loop, with the bytes still to skip, and the tests behind it.
  unfoldable pub walk : Str → ℕ → Walk → Option Walk
  unfolding mark skipped
  walk [] skip w = some (mark (record w { i = w.i + skip }))
  walk (c ∷ cs) (suc skip) w = walk cs skip (record w { i = w.i + 1 })
  walk (c ∷ cs) zero w = elim (skipped c) [
    | none ↦ none
    | some n ↦ let m = mark w in walk cs n (record m { i = m.i + 1; j = m.j + 1 })
  ]

abbrev pub int_max : ℤ
int_max = pos (2 ^ 31 - 1)

abbrev pub overflows : ℤ → Bool
overflows (pos n) = leb (2 ^ 31) n
overflows (negsuc n) = leb (2 ^ 31) n

-- A `u_int64_t` as an `int`.
abbrev pub to_int : ℕ → ℤ
to_int n = let low = n % 2 ^ 32 in if ltb low (2 ^ 31) then pos low else negsuc (2 ^ 32 - 1 - low)

-- The bytes that the loops go over: `ix` is an `int`.
abbrev pub first_bytes : ℤ → Str → Str
first_bytes (pos ix) s = take ix s
first_bytes (negsuc n) s = []

-- `i += 1` behind `i += 3` may overflow.
abbrev pub runs_over : ℤ → Bool
runs_over (pos ix) = leb (2 ^ 31 - 4) ix
runs_over (negsuc n) = false

abbrev pub has_reached : ℤ → ℕ → Bool
has_reached start j = not (int_lt (pos j) start)

unfoldable pub is_inside : ℤ → ℤ → ℕ → Bool
is_inside start size j =
    has_reached start j && (int_eq size int_max || not (int_lt (start +ℤ size) (pos j)))

-- `str.substr(realstart, reallength)`
abbrev pub substr : Str → Walk → Outcome
substr s w =
    if ltb (length s) w.realstart
    then out_of_range
    else text (take w.reallength (drop w.realstart s))

-- From the second loop on.
unfoldable pub substr_from : Str → ℤ → ℤ → Outcome
unfolding walk is_inside
substr_from s start size =
    if not (int_eq size int_max) && overflows (start +ℤ size)
    then undefined
    else elim (walk (λ j. int_eq (pos j) start) (is_inside start size)
        (first_bytes (to_int (length s)) s) 0 zeros) [ none ↦ text [] | some w ↦ substr s w ]

is_below_zero : ℤ → Bool
is_below_zero i = int_lt i (pos 0)

unfoldable pub utf8_substr : Str → ℤ → ℤ → Outcome
unfolding count_chars substr_from is_below_zero
utf8_substr s start size =
    if int_eq size (pos 0)
    then text []
    else if runs_over (to_int (length s))
    then undefined
    else if is_below_zero start || is_below_zero size
    then elim (count_chars (first_bytes (to_int (length s)) s) 0 0) [
      | none ↦ text []
      | some j ↦
          if not (int_eq size int_max)
            && (overflows (pos j +ℤ size) || overflows ((pos j +ℤ size) -ℤ start))
          then undefined
          else if not (int_eq size int_max) && not (int_lt (pos 0) ((pos j +ℤ size) -ℤ start))
          then text []
          else let from = if is_below_zero start then start +ℤ pos j else start in
            substr_from s from (if is_below_zero size then (pos j +ℤ size) -ℤ from else size)
    ]
    else substr_from s start size

abbrev to_value : Outcome → Option Json
to_value (text s) = some (scalar (string (c_str s)))
to_value out_of_range = none
to_value undefined = none

abbrev or_else : Option ℕ → ℕ → ℕ
or_else none n = n
or_else (some m) n = m

-- `getAtomValue`: the string's value, and the `uint64_t` that the other parameters have, if they are
-- atoms with one. `first` and `second` are `none` for an atom without, and for no atom `begin` is 0
-- and `len` the string's size too. `none` is an exception or undefined.
unfoldable pub substring_value : Option Json → Option ℕ → Option (Option ℕ) → Option Json
unfolding utf8_substr
substring_value v first second = elim (get_param_string v) [
  | none ↦ some (scalar null)
  | some s ↦
      let begin = min (or_else first 0) (length s) in
      elim second [
        | none ↦ to_value (utf8_substr s (to_int begin) int_max)
        | some third ↦ to_value (utf8_substr s (to_int begin) (to_int (or_else third (length s))))
      ]
]
