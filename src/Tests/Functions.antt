-- ===== src/Tests/Functions.antt =====
-- What is proved of the functions of queries, on a few values.
use joda.Base.{
  true, false, none, some, List, [], ◌∷◌, ◌≡◌, ◌≢◌, ◌↔◌, refl, arith, All, concat, if◌then◌else◌,
  ltb, ◌-◌, ◌==◌, ◌^◌,
}
use joda.Base.Int.{pos, negsuc, in_int64, sub_ℕ}
use joda.Base.Text.{Str, codes}
use joda.Json.{scalar, null, bool, uint, uint64, int64, string}
use joda.Values.Provider.{iv_any, iv_number, pointer_provider}
use joda.Values.Cast.{Conversions, int_cast, string_cast, stoll, int_to_string}
use joda.Values.Cast.Returns.{int_cast-string_cast}
use joda.Values.Substring.{skipped, text, out_of_range, utf8_substr}
use joda.Values.Substring.Steps.{IsChar}
use joda.Values.Substring.Slices.{utf8_substr-take-drop}
use joda.Values.Strings.{take, drop, find, split, split_loop}
use joda.Values.Strings.Split.{join, join-split, split_loop-empty}
use joda.Values.Kinds.{is_x_value, type_value, type_name, is_x_value-type_value}
use joda.Values.Math.{DoubleMath, sub, binary_uint64, binary_uint64-sub}

-- Doubles without a fraction.
abbrev whole_numbers : Conversions
whole_numbers = record {
  from_double = λ d. pos d;
  to_double = λ i. elim i [ pos n ↦ n | negsuc n ↦ 0 ];
  stod = λ s. elim (stoll s) [ some (pos n) ↦ some n | _ ↦ none ];
  double_to_string = λ d. int_to_string (pos d);
  write = λ v. codes "{}";
}

int_cast-string_cast_example :
    int_cast whole_numbers (string_cast whole_numbers false (scalar (int64 (negsuc 41))))
    ≡ scalar (if in_int64 (negsuc 41) then int64 (negsuc 41) else null)
int_cast-string_cast_example =
    int_cast-string_cast whole_numbers (int64 (negsuc 41)) (negsuc 41) refl

join-split_example :
    (parts : List Str) × (split (codes "a, b,c") (codes ",") ≡ some parts)
    × (join (codes ",") parts ≡ codes "a, b,c")
    × All (λ part. find part (codes ",") 0 ≡ none) parts
join-split_example = join-split (codes "a, b,c") b',' []

split_parts : split (codes "a--b-c") (codes "--") ≡ some (codes "a" ∷ codes "b-c" ∷ [])
unfolding split
split_parts = refl

split_loop-empty_example : split_loop 5 (codes "ab") [] 0 [] ≡ none
split_loop-empty_example = split_loop-empty 5 (codes "ab") 0 [] (omega arith)

iv_number-ne-iv_any : iv_number ≢ iv_any
iv_number-ne-iv_any h = ground arith

is_x_value-type_value_example :
    let p = pointer_provider (codes "/a") in
    (is_x_value iv_number p (some (scalar (uint 7))) ≡ scalar (bool true))
    ↔ (type_value p (some (scalar (uint 7))) ≡ scalar (string (type_name iv_number)))
is_x_value-type_value_example =
    is_x_value-type_value iv_number (pointer_provider (codes "/a")) (scalar (uint 7))
      iv_number-ne-iv_any refl

-- An "a", a character of two bytes and a "b".
abbrev three_chars : List Str
three_chars = (b'a' ∷ []) ∷ (0xC3 ∷ 0xA9 ∷ []) ∷ (b'b' ∷ []) ∷ []

three_chars-IsChar : All IsChar three_chars
unfolding skipped
three_chars-IsChar = (refl, (refl, (refl, tt)))

utf8_substr-take-drop_example :
    utf8_substr (concat three_chars) (pos 1) (pos 5) ≡ text (concat (take 5 (drop 1 three_chars)))
unfolding concat
utf8_substr-take-drop_example =
    utf8_substr-take-drop three_chars 1 5 three_chars-IsChar (omega arith) (omega arith)
      (omega arith)

-- A string that ends within a character.
broken_char : utf8_substr (0xC3 ∷ []) (pos 1) (pos (2 ^ 31 - 1)) ≡ out_of_range
unfolding utf8_substr
broken_char = refl

-- A machine whose doubles are never used.
abbrev no_doubles : DoubleMath
no_doubles = record {
  apply = λ f d. d;
  apply_two = λ f l r. l;
  below_zero = λ d. false;
  beyond_one = λ d. false;
  is_zero = λ d. d == 0;
  is_finite = λ d. true;
  apply_uint64 = λ f n. n;
  apply_int64 = λ f i. 0;
  apply_two_uint64 = λ f l r. l;
  apply_two_int64 = λ f l r. 0;
}

binary_uint64-sub_example :
    binary_uint64 no_doubles sub 3 10 ≡ (if ltb 3 10 then int64 (sub_ℕ 3 10) else uint64 (3 - 10))
binary_uint64-sub_example =
    binary_uint64-sub no_doubles 3 10 (omega arith) (omega arith) (omega arith)
