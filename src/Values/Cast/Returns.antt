-- ===== src/Values/Cast/Returns.antt =====
-- CastProvider.h: what INT reads back of what STRING prints.
use joda.Base.{
  ℕ, zero, suc, ◌+◌, ◌/◌, ◌%◌, ◌<◌, Option, none, some, false, [], ◌∷◌, ◌≡◌, refl, ap, ◌∙◌, sym,
  ltb, arith, if◌then◌else◌, Bool-cases, inl, inr, ◌>>=◌,
}
use joda.Base.Int.{ℤ, pos, negsuc, in_int64}
use joda.Base.Text.{Str, to_string, digits_from}
use joda.Json.{Scalar, null, int, uint, int64, uint64, scalar}
use joda.Values.Cast.{
  read_digits, read_number, positive, negative, stoll, int_to_string, Conversions, int_cast,
  string_cast, is_digit, is_space,
}

read_digits-digits_from :
    (fuel n : ℕ) (acc : Str) → n < fuel → read_digits 0 (digits_from fuel n acc) ≡ read_digits n acc
unfolding digits_from read_digits is_digit
read_digits-digits_from zero n acc h = elim h [ ]
read_digits-digits_from (suc fuel) n acc h =
    ground (arith, read_digits-digits_from fuel (n / 10) ((48 + n % 10) ∷ acc))

-- The first byte of a number is a digit.
digits_from-first :
    (fuel n : ℕ) (acc : Str)
    → n < fuel
    → (d : ℕ) × (rest : Str) × (d < 10) × (digits_from fuel n acc ≡ (48 + d) ∷ rest)
unfolding digits_from
digits_from-first zero n acc h = elim h [ ]
digits_from-first (suc fuel) n acc h = elim (Bool-cases (ltb n 10)) [
  | inl small ↦ (n % 10, acc, omega arith, rw small refl)
  | inr large ↦
      let (d, rest, b, e) = digits_from-first fuel (n / 10) ((48 + n % 10) ∷ acc) (ground arith) in
      (d, rest, b, rw large e)
]

-- What starts with a digit has no space or sign to skip.
read_number-digit :
    (d : ℕ) (rest : Str)
    → d < 10
    → read_number ((48 + d) ∷ rest) ≡ some (read_digits 0 ((48 + d) ∷ rest))
unfolding read_number is_digit
read_number-digit d rest h = ground arith

stoll-digit :
    (d : ℕ) (rest : Str)
    → d < 10
    → stoll ((48 + d) ∷ rest) ≡ (read_number ((48 + d) ∷ rest) >>= positive)
unfolding stoll is_space
stoll-digit d rest h = ground arith

read_number-to_string : (n : ℕ) → read_number (to_string n) ≡ some n
unfolding to_string read_digits
read_number-to_string n =
    let (d, rest, b, e) = digits_from-first (suc n) n [] (omega arith) in
    ap read_number e
    ∙ read_number-digit d rest b
    ∙ ap (λ s. some (read_digits 0 s)) (sym e)
    ∙ ap some (read_digits-digits_from (suc n) n [] (omega arith))

stoll-to_string : (n : ℕ) → stoll (to_string n) ≡ positive n
stoll-to_string n =
    let (d, rest, b, e) = digits_from-first (suc n) n [] (omega arith) in
    let f : to_string n ≡ (48 + d) ∷ rest = unfold to_string in e in
    ap stoll f
    ∙ stoll-digit d rest b
    ∙ ap (λ s. read_number s >>= positive) (sym f)
    ∙ ap (λ o. o >>= positive) (read_number-to_string n)

stoll-minus : (n : ℕ) → stoll (b'-' ∷ to_string n) ≡ negative n
unfolding stoll is_space
stoll-minus n = ap (λ o. o >>= negative) (read_number-to_string n)

abbrev pub int_value : Scalar → Option ℤ
int_value (int i) = some i
int_value (int64 i) = some i
int_value (uint n) = some (pos n)
int_value (uint64 n) = some (pos n)
int_value x = none

stoll-int_to_string : (i : ℤ) → stoll (int_to_string i) ≡ (if in_int64 i then some i else none)
unfolding int_to_string positive negative
stoll-int_to_string (pos n) = stoll-to_string n
stoll-int_to_string (negsuc n) = stoll-minus (n + 1) ∙ (ground arith)

-- For every integer of a document, INT of what STRING makes of it, without the writer, is the same
-- integer as an `int64_t` when it lies in the range of `int64_t`, and null otherwise.
pub int_cast-string_cast :
    (conv : Conversions) (x : Scalar) (i : ℤ)
    → int_value x ≡ some i
    → int_cast conv (string_cast conv false (scalar x))
      ≡ scalar (if in_int64 i then int64 i else null)
unfolding int_cast string_cast
int_cast-string_cast conv (int j) i h = ground (arith, stoll-int_to_string j)
int_cast-string_cast conv (int64 j) i h = ground (arith, stoll-int_to_string j)
int_cast-string_cast conv (uint n) i h = ground (arith, stoll-int_to_string (pos n))
int_cast-string_cast conv (uint64 n) i h = ground (arith, stoll-int_to_string (pos n))
int_cast-string_cast conv x i h = cc
