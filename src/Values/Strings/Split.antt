-- ===== src/Values/Strings/Split.antt =====
-- BinaryStringProvider.h: the parts that SPLIT makes.
use joda.Base.{
  ℕ, zero, suc, ◌+◌, ◌-◌, ◌≤◌, ◌<◌, none, some, true, List, [], ◌∷◌, ◌++◌, ◌≡◌, refl, ap, sym, ◌∙◌,
  arith, length, length-append, Bool-cases, Option-cases, inl, inr, append_assoc, append-nil, All,
  List-cases,
}
use joda.Base.Text.{Str}
use joda.Values.Strings.{take, drop, is_prefix, find_from, find, substr, split_loop, split}

module _ {ℓ} {A : Type ℓ} where
  pub drop-append : (xs ys : List A) → drop (length xs) (xs ++ ys) ≡ ys
  drop-append [] [] = refl
  drop-append [] (y ∷ ys) = refl
  drop-append (x ∷ xs) ys = drop-append xs ys

  pub take-append : (xs ys : List A) → take (length xs) (xs ++ ys) ≡ xs
  take-append [] [] = refl
  take-append [] (y ∷ ys) = refl
  take-append (x ∷ xs) ys = ap (λ l. x ∷ l) (take-append xs ys)

  drop-drop : (m n : ℕ) (xs : List A) → drop n (drop m xs) ≡ drop (m + n) xs
  drop-drop m n [] = refl
  drop-drop zero n (x ∷ xs) = let e : n ≡ zero + n = omega arith in ap (λ k. drop k (x ∷ xs)) e
  drop-drop (suc m) n (x ∷ xs) =
      (let e : suc (m + n) ≡ suc m + n = omega arith in
        drop-drop m n xs ∙ ap (λ k. drop k (x ∷ xs)) e)

  pub drop-zero : (xs : List A) → drop zero xs ≡ xs
  drop-zero [] = refl
  drop-zero (x ∷ xs) = refl

  length-drop : (n : ℕ) (xs : List A) → length (drop n xs) ≡ length xs - n
  length-drop n [] = omega arith
  length-drop zero (x ∷ xs) = omega arith
  length-drop (suc n) (x ∷ xs) = omega (arith, length-drop n xs)

is_prefix-append : (pat s : Str) → is_prefix pat s ≡ true → (post : Str) × (s ≡ pat ++ post)
unfolding is_prefix
is_prefix-append [] s h = (s, refl)
is_prefix-append (p ∷ ps) [] h = cc
is_prefix-append (p ∷ ps) (c ∷ cs) h =
    let same : p ≡ c = ground arith in
    let (post, e) = is_prefix-append ps cs (ground arith) in (post, cc)

-- Where the pattern is found, it stands.
find_from-append :
    (pat : Str) (i : ℕ) (s : Str) {next : ℕ}
    → find_from pat i s ≡ some next
    → (pre : Str) × (post : Str) × (s ≡ pre ++ (pat ++ post)) × (next ≡ i + length pre)
unfolding find_from
find_from-append pat i [] h = elim (Bool-cases (is_prefix pat [])) [
  | inl hit ↦ let (post, e) = is_prefix-append pat [] hit in ([], post, e, ground arith)
  | inr miss ↦ ground arith
]
find_from-append pat i (c ∷ cs) {next} h = elim (Bool-cases (is_prefix pat (c ∷ cs))) [
  | inl hit ↦ let (post, e) = is_prefix-append pat (c ∷ cs) hit in ([], post, e, ground arith)
  | inr miss ↦
      let found : find_from pat (i + 1) cs ≡ some next = ground arith in
      let (pre, post, e, n) = find_from-append pat (i + 1) cs found in
      (c ∷ pre, post, cc, omega arith)
]

is_prefix-weaken : (pat s t : Str) → is_prefix pat s ≡ true → is_prefix pat (s ++ t) ≡ true
unfolding is_prefix
is_prefix-weaken [] s t h = refl
is_prefix-weaken (p ∷ ps) [] t h = cc
is_prefix-weaken (p ∷ ps) (c ∷ cs) t h = ground (arith, is_prefix-weaken ps cs t)

-- The pattern does not stand before the first place where it is found.
find_from-first :
    (p : ℕ) (ps pre post : Str) (i j : ℕ)
    → find_from (p ∷ ps) i (pre ++ post) ≡ some (i + length pre)
    → find_from (p ∷ ps) j pre ≡ none
unfolding find_from is_prefix
find_from-first p ps [] post i j h = refl
find_from-first p ps (c ∷ pre) post i j h =
    let later : find_from (p ∷ ps) (i + 1) (pre ++ post) ≡ some (i + 1 + length pre) =
      ground arith in
    ground (
      arith,
      find_from-first p ps pre post (i + 1) (j + 1) later,
      is_prefix-weaken (p ∷ ps) (c ∷ pre) post,
    )

find_from-none :
    (pat : Str) (i j : ℕ) (s : Str) → find_from pat i s ≡ none → find_from pat j s ≡ none
unfolding find_from
find_from-none pat i j [] h = ground arith
find_from-none pat i j (c ∷ cs) h = ground (arith, find_from-none pat (i + 1) (j + 1) cs)

find-zero : (s pat : Str) → find s pat 0 ≡ find_from pat 0 s
unfolding find
find-zero s pat = ground (arith, drop-zero s)

-- The parts with the separator between them.
abbrev glue : Str → List Str → Str
glue sep [] = []
glue sep (t ∷ ts) = sep ++ (t ++ glue sep ts)

abbrev pub join : Str → List Str → Str
join sep [] = []
join sep (s ∷ ss) = s ++ glue sep ss

-- What a place in the string that is found says of the bytes from the start on.
record FoundAt (lhs rhs : Str) (last next : ℕ) : Type 0 where
  pre : Str
  post : Str
  suffix : drop last lhs ≡ pre ++ (rhs ++ post)
  place : next ≡ last + length pre
  inside : next + length rhs ≤ length lhs
  first : find pre rhs 0 ≡ none

find-FoundAt :
    (lhs : Str) (p : ℕ) (ps : Str) (last next : ℕ)
    → last ≤ length lhs
    → find lhs (p ∷ ps) last ≡ some next
    → FoundAt lhs (p ∷ ps) last next
unfolding find
find-FoundAt lhs p ps last next le h =
    let within : find_from (p ∷ ps) last (drop last lhs) ≡ some next = ground arith in
    let (pre, post, e, n) = find_from-append (p ∷ ps) last (drop last lhs) within in
    let total = ap length e ∙ length-append pre ((p ∷ ps) ++ post) in
    let stands : find_from (p ∷ ps) last (pre ++ ((p ∷ ps) ++ post)) ≡ some (last + length pre) =
      rw (← e) (rw (← n) within) in
    record {
      pre = pre;
      post = post;
      suffix = e;
      place = n;
      inside = omega (arith, total, length-append (p ∷ ps) post, length-drop last lhs);
      first = find-zero pre (p ∷ ps) ∙ find_from-first p ps pre ((p ∷ ps) ++ post) last 0 stands;
    }

find-none :
    (lhs rhs : Str) (last : ℕ)
    → last ≤ length lhs
    → find lhs rhs last ≡ none
    → find (drop last lhs) rhs 0 ≡ none
unfolding find
find-none lhs rhs last le h =
    let within : find_from rhs last (drop last lhs) ≡ none = ground arith in
    find-zero (drop last lhs) rhs ∙ find_from-none rhs last 0 (drop last lhs) within

module _ {lhs rhs : Str} {last next : ℕ} (f : FoundAt lhs rhs last next) where
  FoundAt-rest : drop (next + length rhs) lhs ≡ f.post
  FoundAt-rest =
      let n = length f.pre + length rhs in
      let behind : next + length rhs ≡ last + n = omega (arith, f.place) in
      ap (λ k. drop k lhs) behind
      ∙ sym (drop-drop last n lhs)
      ∙ ap (λ s. drop n s) f.suffix
      ∙ sym (drop-drop (length f.pre) (length rhs) (f.pre ++ (rhs ++ f.post)))
      ∙ ap (λ s. drop (length rhs) s) (drop-append f.pre (rhs ++ f.post))
      ∙ drop-append rhs f.post

  FoundAt-part : substr lhs last (next - last) ≡ f.pre
  FoundAt-part =
      let size : next - last ≡ length f.pre = omega (arith, f.place) in
      ap (λ k. take k (drop last lhs)) size
      ∙ ap (λ s. take (length f.pre) s) f.suffix
      ∙ take-append f.pre (rhs ++ f.post)

-- What the loop adds to the parts that it has made.
record Ends (fuel : ℕ) (lhs rhs : Str) (last : ℕ) (made : List Str) : Type 0 where
  head : Str
  tail : List Str
  result : split_loop fuel lhs rhs last made ≡ some (made ++ head ∷ tail)
  whole : head ++ glue rhs tail ≡ drop last lhs
  free : All (λ part. find part rhs 0 ≡ none) (head ∷ tail)

split_loop-Ends :
    (fuel : ℕ) (lhs : Str) (p : ℕ) (ps : Str) (last : ℕ) (made : List Str)
    → last ≤ length lhs
    → length lhs - last < fuel
    → Ends fuel lhs (p ∷ ps) last made
unfolding split_loop
split_loop-Ends zero lhs p ps last made le enough = elim enough [ ]
split_loop-Ends (suc fuel) lhs p ps last made le enough =
    elim (Option-cases (find lhs (p ∷ ps) last)) [
      | inl e ↦ record {
        head = drop last lhs;
        tail = [];
        result = rw (e, split_loop) refl;
        whole = append-nil (drop last lhs);
        free = (find-none lhs (p ∷ ps) last le e, tt);
      }
      | inr (next, e) ↦
          let f = find-FoundAt lhs p ps last next le e in
          let sep = p ∷ ps in
          let more =
            split_loop-Ends fuel lhs p ps (next + length sep) (made ++ f.pre ∷ []) f.inside
              (omega (arith, f.inside)) in
          record {
            head = f.pre;
            tail = more.head ∷ more.tail;
            result =
                rw (e, split_loop, FoundAt-part f)
                  (more.result ∙ ap some (append_assoc made (f.pre ∷ []) (more.head ∷ more.tail)));
            whole = ap (λ s. f.pre ++ (sep ++ s)) (more.whole ∙ FoundAt-rest f) ∙ sym f.suffix;
            free = (f.first, more.free);
          }
    ]

-- For every string and every separator that is not empty, SPLIT ends with a list of parts that, with
-- the separator between them, make the string again, and in none of which the separator is found.
pub join-split :
    (lhs : Str) (p : ℕ) (ps : Str)
    → (parts : List Str) × (split lhs (p ∷ ps) ≡ some parts)
      × (join (p ∷ ps) parts ≡ lhs)
      × All (λ part. find part (p ∷ ps) 0 ≡ none) parts
unfolding split
join-split lhs p ps =
    let ends = split_loop-Ends (suc (length lhs)) lhs p ps 0 [] (omega arith) (omega arith) in
    (ends.head ∷ ends.tail, ends.result, ends.whole ∙ drop-zero lhs, ends.free)

find-empty : (s : Str) (start : ℕ) → start ≤ length s → find s [] start ≡ some start
unfolding find is_prefix
find-empty s start le = elim (List-cases (drop start s)) [
  | inl e ↦ ground arith
  | inr (c, cs, e) ↦ ground arith
]

-- With an empty separator, SPLIT's loop has not ended after any number of rounds, whatever the string.
pub split_loop-empty :
    (rounds : ℕ) (lhs : Str) (last : ℕ) (made : List Str)
    → last ≤ length lhs
    → split_loop rounds lhs [] last made ≡ none
unfolding split_loop
split_loop-empty zero lhs last made le = refl
split_loop-empty (suc rounds) lhs last made le =
    let stays : last + 0 ≤ length lhs = omega arith in
    rw (find-empty lhs last le, split_loop)
      (split_loop-empty rounds lhs (last + 0) (made ++ substr lhs last (last - last) ∷ []) stays)
