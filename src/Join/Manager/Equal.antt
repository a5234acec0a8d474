-- ===== src/Join/Manager/Equal.antt =====
-- What it means that a document has the value of a group, without the keys of MemoryJoinManager.cpp.
use joda.Base.{Option, none, some, Bool, true, false, ◌≡◌, refl}
use joda.Base.Int.{ℤ, int_eq}
use joda.Base.Text.{Str, str_eq}
use joda.Json.{Json, scalar, bool, string, raw_number, arr, obj}
use joda.Similarity.PathsDom.{c_str}
use joda.Values.Eval.{Machine, text_of}
use joda.Join.Manager.{Key, bool_key, int_key, string_key, key_of}
use joda.Join.Manager.Invariant.{same_key}

-- Whether a value is the Boolean; is a number that RapidJSON reads as the `int64_t`; or is a string
-- (a raw number is one too) that is the given one up to its first zero byte.
abbrev pub has_value : Machine → Key → Json → Bool
has_value machine (bool_key true) (scalar (bool b)) = b
has_value machine (bool_key false) (scalar (bool true)) = false
has_value machine (bool_key false) (scalar (bool false)) = true
has_value machine (int_key i) (scalar (bool b)) = false
has_value machine (int_key i) (scalar x) = elim (machine.get_int64 x) [
  | none ↦ false
  | some d ↦ int_eq d i
]
has_value machine (string_key s) (scalar (string t)) = elim (machine.get_int64 (string t)) [
  | none ↦ str_eq (c_str t) s
  | some d ↦ false
]
has_value machine (string_key s) (scalar (raw_number t)) = elim (machine.get_int64 (raw_number t)) [
  | none ↦ str_eq (c_str t) s
  | some d ↦ false
]
has_value machine _ _ = false

-- Whether a key is another, where both may be missing.
abbrev is_key : Option Key → Key → Bool
is_key o j = elim o [ none ↦ false | some k ↦ same_key k j ]

-- The key of a scalar that is not a Boolean, from what it is as an integer and as a string.
abbrev scalar_key : Option ℤ → Option Str → Option Key
scalar_key o t = elim o [
  | some d ↦ some (int_key d)
  | none ↦ elim t [ none ↦ none | some s ↦ some (string_key (c_str s)) ]
]

is_key-bool_key :
    (b : Bool) (o : Option ℤ) (t : Option Str) → is_key (scalar_key o t) (bool_key b) ≡ false
is_key-bool_key b (some d) t = refl
is_key-bool_key b none none = refl
is_key-bool_key b none (some s) = refl

is_key-int_key :
    (i : ℤ) (o : Option ℤ) (t : Option Str)
    → is_key (scalar_key o t) (int_key i) ≡ elim o [ none ↦ false | some d ↦ int_eq d i ]
is_key-int_key i (some d) t = refl
is_key-int_key i none none = refl
is_key-int_key i none (some s) = refl

is_key-string_key :
    (s : Str) (o : Option ℤ) (t : Str)
    → is_key (scalar_key o (some t)) (string_key s)
      ≡ elim o [ none ↦ str_eq (c_str t) s | some d ↦ false ]
is_key-string_key s (some d) t = refl
is_key-string_key s none t = refl

is_key-no_string : (s : Str) (o : Option ℤ) → is_key (scalar_key o none) (string_key s) ≡ false
is_key-no_string s (some d) = refl
is_key-no_string s none = refl

-- The keys tell exactly the values apart that `has_value` does.
pub key_of-has_value :
    (machine : Machine) (j : Key) (v : Json) → is_key (key_of machine v) j ≡ has_value machine j v
unfolding key_of
key_of-has_value machine (bool_key true) (scalar (bool true)) = refl
key_of-has_value machine (bool_key true) (scalar (bool false)) = refl
key_of-has_value machine (bool_key false) (scalar (bool true)) = refl
key_of-has_value machine (bool_key false) (scalar (bool false)) = refl
key_of-has_value machine (int_key i) (scalar (bool b)) = refl
key_of-has_value machine (string_key s) (scalar (bool b)) = refl
key_of-has_value machine (bool_key true) (scalar x) =
    is_key-bool_key true (machine.get_int64 x) (text_of x)
key_of-has_value machine (bool_key false) (scalar x) =
    is_key-bool_key false (machine.get_int64 x) (text_of x)
key_of-has_value machine (int_key i) (scalar x) = is_key-int_key i (machine.get_int64 x) (text_of x)
key_of-has_value machine (string_key s) (scalar (string t)) =
    is_key-string_key s (machine.get_int64 (string t)) t
key_of-has_value machine (string_key s) (scalar (raw_number t)) =
    is_key-string_key s (machine.get_int64 (raw_number t)) t
key_of-has_value machine (string_key s) (scalar x) = is_key-no_string s (machine.get_int64 x)
key_of-has_value machine (bool_key true) (arr xs) = refl
key_of-has_value machine (bool_key false) (arr xs) = refl
key_of-has_value machine (int_key i) (arr xs) = refl
key_of-has_value machine (string_key s) (arr xs) = refl
key_of-has_value machine (bool_key true) (obj ms) = refl
key_of-has_value machine (bool_key false) (obj ms) = refl
key_of-has_value machine (int_key i) (obj ms) = refl
key_of-has_value machine (string_key s) (obj ms) = refl
