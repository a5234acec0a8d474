-- ===== src/Values/Substring/Slices.antt =====
-- SubStringProvider.h: the characters that `utf8_substr` takes from text in UTF-8.
use joda.Base.{
  ℕ, zero, suc, ◌+◌, ◌-◌, ◌%◌, ◌^◌, ◌<◌, ◌≤◌, none, some, Bool, true, false, List, [], ◌∷◌, ◌++◌,
  ◌≡◌, refl, ap, ap₂, sym, ◌∙◌, arith, length, length-append, append_assoc, concat, All, ◌≢◌, ◌⊎◌,
  inl, inr, if◌then◌else◌, ltb, Bool-cases, ◌==◌,
}
use joda.Base.Int.{pos, int_eq, ◌+ℤ◌}
use joda.Base.Text.{Str}
use joda.Values.Strings.{take, drop}
use joda.Values.Strings.Split.{drop-append, take-append}
use joda.Values.Substring.{
  Walk, walk, zeros, is_inside, Outcome, text, out_of_range, substr, substr_from, overflows,
  int_max, is_below_zero, utf8_substr, to_int, first_bytes,
}
use joda.Values.Substring.Steps.{IsChar}
use joda.Values.Substring.Chars.{walk-short, walk-chosen}

module _ {ℓ} {A : Type ℓ} where
  take-zero : (xs : List A) → take zero xs ≡ []
  take-zero [] = refl
  take-zero (x ∷ xs) = refl

  take-append-drop : (n : ℕ) (xs : List A) → take n xs ++ drop n xs ≡ xs
  take-append-drop n [] = refl
  take-append-drop zero (x ∷ xs) = refl
  take-append-drop (suc n) (x ∷ xs) = ap (λ l. x ∷ l) (take-append-drop n xs)

  length-take-le : (n : ℕ) (xs : List A) → length (take n xs) ≤ n
  length-take-le n [] = omega arith
  length-take-le zero (x ∷ xs) = omega arith
  length-take-le (suc n) (x ∷ xs) = omega (arith, length-take-le n xs)

  -- Either all is taken or as much as is asked for.
  take_cases : (n : ℕ) (xs : List A) → (drop n xs ≡ []) ⊎ (length (take n xs) ≡ n)
  take_cases n [] = inl refl
  take_cases zero (x ∷ xs) = inr refl
  take_cases (suc n) (x ∷ xs) = elim (take_cases n xs) [ inl e ↦ inl e | inr e ↦ inr (omega arith) ]

  drop-past : (n : ℕ) (xs : List A) → length xs ≤ n → drop n xs ≡ []
  drop-past n [] h = refl
  drop-past zero (x ∷ xs) h = absurd (omega arith)
  drop-past (suc n) (x ∷ xs) h = drop-past n xs (omega arith)

  length-take-eq : (n : ℕ) (xs : List A) → n ≤ length xs → length (take n xs) ≡ n
  length-take-eq n [] h = omega arith
  length-take-eq zero (x ∷ xs) h = omega arith
  length-take-eq (suc n) (x ∷ xs) h = omega (arith, length-take-eq n xs)

  concat-append : (xs ys : List (List A)) → concat (xs ++ ys) ≡ concat xs ++ concat ys
  unfolding concat
  concat-append [] ys = refl
  concat-append (x ∷ xs) ys =
      ap (λ l. x ++ l) (concat-append xs ys) ∙ sym (append_assoc x (concat xs) (concat ys))

module _ {ℓ κ} {A : Type ℓ} (P : A → Type κ) where
  All-take : (n : ℕ) (xs : List A) → All P xs → All P (take n xs)
  All-take n [] h = tt
  All-take zero (x ∷ xs) h = tt
  All-take (suc n) (x ∷ xs) h = (h.0, All-take n xs h.1)

  All-drop : (n : ℕ) (xs : List A) → All P xs → All P (drop n xs)
  All-drop n [] h = tt
  All-drop zero (x ∷ xs) h = h
  All-drop (suc n) (x ∷ xs) h = All-drop n xs h.1

cut : Str → ℕ → ℕ → Outcome
cut s r l = if ltb (length s) r then out_of_range else text (take l (drop r s))

cut-parts : (a b c : Str) → cut (a ++ (b ++ c)) (length a) (length b) ≡ text b
unfolding cut
cut-parts a b c =
    let inside_of : ltb (length (a ++ (b ++ c))) (length a) ≡ false =
      ground (arith, length-append a (b ++ c)) in
    rw (inside_of, drop-append a (b ++ c), take-append b c) refl

cut_zero : (s : Str) → cut s 0 0 ≡ text []
unfolding cut
cut_zero s = ground (arith, take-zero (drop 0 s))

module _ (start len : ℕ) (small : len < 2 ^ 31 - 1) (sum_small : start + len < 2 ^ 31) where
  abbrev at : ℕ → Bool
  at k = k == start

  abbrev inside : ℕ → Bool
  inside k = is_inside (pos start) (pos len) k

  elsewhere : (k : ℕ) → k ≢ start → at k ≡ false
  elsewhere k h = ground arith

  inside-before : (k : ℕ) → k < start → inside k ≡ false
  unfolding is_inside
  inside-before k h = ground arith

  inside-inner : (k : ℕ) → start ≤ k → k ≤ start + len → inside k ≡ true
  unfolding is_inside
  inside-inner k h m = ground arith

  inside-past : (k : ℕ) → start + len < k → inside k ≡ false
  unfolding is_inside
  inside-past k h = ground arith

  starts : at start ≡ true
  starts = ground arith

  no_overflow : overflows (pos start +ℤ pos len) ≡ false
  no_overflow = ground arith

  not_max : int_eq (pos len) int_max ≡ false
  not_max = ground arith

  substr_from-walk :
      (s : Str) (w : Walk)
      → first_bytes (to_int (length s)) s ≡ s
      → walk at inside s 0 zeros ≡ some w
      → substr_from s (pos start) (pos len) ≡ substr s w
  unfolding substr_from
  substr_from-walk s w b e =
      rw (not_max, no_overflow, b) (ap (λ o. elim o [ none ↦ text [] | some v ↦ substr s v ]) e)

  module _ (chars : List Str) (good : All IsChar chars)
      (bytes : first_bytes (to_int (length (concat chars))) (concat chars) ≡ concat chars) where
    abbrev behind : List Str
    behind = drop start chars

    whole :
        concat chars
        ≡ concat (take start chars) ++ (concat (take len behind) ++ concat (drop len behind))
    whole =
        ap concat (sym (take-append-drop start chars))
        ∙ concat-append (take start chars) behind
        ∙ ap (λ s. concat (take start chars) ++ s)
            (ap concat (sym (take-append-drop len behind))
              ∙ concat-append (take len behind) (drop len behind))

    substr_from-short :
        length chars < start
        → substr_from (concat chars) (pos start) (pos len) ≡ text (concat (take len behind))
    unfolding cut concat
    substr_from-short h =
        let (w, e, l, r) = walk-short at inside start elsewhere inside-before chars good h in
        substr_from-walk (concat chars) w bytes e
        ∙ ap₂ (λ a b. cut (concat chars) a b) r l
        ∙ cut_zero (concat chars)
        ∙ ap (λ xs. text (concat (take len xs))) (sym (drop-past start chars (omega arith)))

    substr_from-long :
        start ≤ length chars
        → substr_from (concat chars) (pos start) (pos len) ≡ text (concat (take len behind))
    unfolding cut concat
    substr_from-long h =
        let chosen = take len behind in
        let left =
          walk-chosen at inside start elsewhere (start + len) inside-past starts inside-inner
            inside-before (take start chars) chosen (drop len behind)
            (All-take IsChar start chars good)
            (All-take IsChar len behind (All-drop IsChar start chars good))
            (All-drop IsChar len behind (All-drop IsChar start chars good))
            (length-take-eq start chars h) (omega (arith, length-take-le len behind))
            (elim (take_cases len behind) [ inl e ↦ inl e | inr e ↦ inr (omega arith) ])
            (omega arith) in
        substr_from-walk (concat chars) left.result bytes
          (ap (λ s. walk at inside s 0 zeros) whole ∙ left.ends)
        ∙ ap₂ (λ a b. cut (concat chars) a b) left.real_start left.real_length
        ∙ ap (λ s. cut s (length (concat (take start chars))) (length (concat chosen))) whole
        ∙ cut-parts (concat (take start chars)) (concat chosen) (concat (drop len behind))

to_int-pos : (n : ℕ) → n < 2 ^ 31 → to_int n ≡ pos n
to_int-pos n h = let low : n % 2 ^ 32 ≡ n = omega (arith, h) in rw low (ground (arith, h))

take-length : (s : Str) → take (length s) s ≡ s
take-length [] = refl
take-length (c ∷ cs) = ap (λ l. c ∷ l) (take-length cs)

all_bytes : (s : Str) → length s < 2 ^ 31 - 4 → first_bytes (to_int (length s)) s ≡ s
all_bytes s h = ap (λ i. first_bytes i s) (to_int-pos (length s) (omega (arith, h))) ∙ take-length s

utf8_substr-pos :
    (s : Str) (start len : ℕ)
    → length s < 2 ^ 31 - 4
    → utf8_substr s (pos start) (pos (suc len)) ≡ substr_from s (pos start) (pos (suc len))
unfolding utf8_substr is_below_zero
utf8_substr-pos s start len h = rw (to_int-pos (length s) (omega (arith, h))) (ground (arith, h))

-- For every text in UTF-8 of fewer than 2^31 - 4 bytes, every start and every length below the largest `int`, where their sum is
-- not above it, `utf8_substr` gives the characters from the start on, as many as the length says and
-- there are.
pub utf8_substr-take-drop :
    (chars : List Str) (start len : ℕ)
    → All IsChar chars
    → length (concat chars) < 2 ^ 31 - 4
    → len < 2 ^ 31 - 1
    → start + len < 2 ^ 31
    → utf8_substr (concat chars) (pos start) (pos len) ≡ text (concat (take len (drop start chars)))
unfolding utf8_substr concat
utf8_substr-take-drop chars start zero good b h k =
    ap (λ xs. text (concat xs)) (sym (take-zero (drop start chars)))
utf8_substr-take-drop chars start (suc len) good b h k =
    elim (Bool-cases (ltb (length chars) start)) [
      | inl short ↦
          utf8_substr-pos (concat chars) start len b
          ∙ substr_from-short start (suc len) h k chars good (all_bytes (concat chars) b)
              (ground arith)
      | inr long ↦
          utf8_substr-pos (concat chars) start len b
          ∙ substr_from-long start (suc len) h k chars good (all_bytes (concat chars) b)
              (ground arith)
    ]
