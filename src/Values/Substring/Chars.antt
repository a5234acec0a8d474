-- ===== src/Values/Substring/Chars.antt =====
-- SubStringProvider.h: the second loop of `utf8_substr` on text in UTF-8.
use joda.Base.{
  ℕ, suc, ◌+◌, ◌-◌, ◌<◌, ◌≤◌, some, Bool, true, false, List, [], ◌∷◌, ◌++◌, ◌≡◌, refl, ap, sym, ◌∙◌,
  arith, length, length-append, append_assoc, append-nil, concat, All, ◌≢◌, ◌⊎◌, inl, inr,
  if◌then◌else◌,
}
use joda.Base.Text.{Str}
use joda.Values.Substring.{Walk, mark, walk, zeros}
use joda.Values.Substring.Steps.{IsChar, moved, after, walk-after, walk_at}

module _ (at_start : ℕ → Bool) (inside : ℕ → Bool) where
  module _ (start : ℕ) (elsewhere : (k : ℕ) → k ≢ start → at_start k ≡ false) where
    module _ (before : (k : ℕ) → k < start → inside k ≡ false) where
      mark-before : (w : Walk) → w.j < start → mark at_start inside w ≡ w
      unfolding mark
      mark-before w h =
          let other : w.j ≢ start = λ e. absurd (omega arith) in
          rw (elsewhere w.j other, before w.j h) refl

      walk-before :
          (chars : List Str) (rest : Str) (w : Walk)
          → All IsChar chars
          → w.j + length chars ≤ start
          → walk at_start inside (concat chars ++ rest) 0 w
            ≡ walk at_start inside rest 0 (moved chars w)
      unfolding concat
      walk-before [] rest w good h =
          walk_at at_start inside rest w (w.i + 0) (w.j + 0) (omega arith) (omega arith)
      walk-before (ch ∷ chars) rest w good h =
          let next : Walk = record w { i = w.i + length ch; j = w.j + 1 } in
          ap (λ s. walk at_start inside s 0 w) (append_assoc ch (concat chars) rest)
          ∙ walk-after at_start inside ch (concat chars ++ rest) w good.0
          ∙ ap
              (λ m.
                walk at_start inside (concat chars ++ rest) 0
                  (record m { i = m.i + length ch; j = m.j + 1 }))
              (mark-before w (omega arith))
          ∙ walk-before chars rest next good.1 (omega arith)
          ∙ walk_at at_start inside rest (moved chars next) (w.i + length (ch ++ concat chars))
              (w.j + suc (length chars)) (omega (arith, length-append ch (concat chars)))
              (omega arith)

      -- A string that ends before the start.
      pub walk-short :
          (chars : List Str)
          → All IsChar chars
          → length chars < start
          → (w : Walk) × (walk at_start inside (concat chars) 0 zeros ≡ some w)
            × (w.reallength ≡ 0)
            × (w.realstart ≡ 0)
      unfolding walk
      walk-short chars good h =
          let w : Walk = moved chars zeros in
          let moved_on : Walk = record w { i = w.i + 0 } in
          (
            moved_on,
            ap (λ s. walk at_start inside s 0 zeros) (sym (append-nil (concat chars)))
                ∙ walk-before chars [] zeros good (omega arith)
                ∙ ap some (mark-before moved_on (omega arith)),
            refl,
            refl,
          )

    -- Behind the start only the length can change.
    abbrev length_at : Walk → ℕ
    length_at w = if inside w.j then w.i - w.realstart else w.reallength

    mark-behind :
        (w : Walk) → start < w.j → mark at_start inside w ≡ record w { reallength = length_at w }
    unfolding mark
    mark-behind w h =
        let other : w.j ≢ start = λ e. absurd (omega arith) in rw (elsewhere w.j other) refl

    walk-behind :
        (chars : List Str) (rest : Str) (w : Walk)
        → All IsChar chars
        → start < w.j
        → (n : ℕ) × (walk at_start inside (concat chars ++ rest) 0 w
            ≡ walk at_start inside rest 0 (record (moved chars w) { reallength = n }))
    unfolding concat
    walk-behind [] rest w good h = (
      w.reallength,
      walk_at at_start inside rest w (w.i + 0) (w.j + 0) (omega arith) (omega arith),
    )
    walk-behind (ch ∷ chars) rest w good h =
        let next : Walk = record w { i = w.i + length ch; j = w.j + 1; reallength = length_at w } in
        let (n, e) = walk-behind chars rest next good.1 (omega arith) in
        (
          n,
          ap (λ s. walk at_start inside s 0 w) (append_assoc ch (concat chars) rest)
              ∙ walk-after at_start inside ch (concat chars ++ rest) w good.0
              ∙ ap
                  (λ m.
                    walk at_start inside (concat chars ++ rest) 0
                      (record m { i = m.i + length ch; j = m.j + 1 }))
                  (mark-behind w h)
              ∙ e
              ∙ walk_at at_start inside rest (record (moved chars next) { reallength = n })
                  (w.i + length (ch ++ concat chars)) (w.j + suc (length chars))
                  (omega (arith, length-append ch (concat chars))) (omega arith),
        )

    module _ (last : ℕ) (past : (k : ℕ) → last < k → inside k ≡ false) where
      -- What the loop leaves when it ends.
      pub record Leaves (s : Str) (w : Walk) (realstart reallength : ℕ) : Type 0 where
        pub result : Walk
        pub ends : walk at_start inside s 0 w ≡ some result
        pub real_start : result.realstart ≡ realstart
        pub real_length : result.reallength ≡ reallength

      mark-past : (w : Walk) → start < w.j → last < w.j → mark at_start inside w ≡ w
      mark-past w h k = mark-behind w h ∙ rw (past w.j k) refl

      -- Behind the last place nothing changes.
      walk-past :
          (chars : List Str) (w : Walk)
          → All IsChar chars
          → start < w.j
          → last < w.j
          → Leaves (concat chars) w w.realstart w.reallength
      unfolding concat walk
      walk-past [] w good h k =
          let moved_on : Walk = record w { i = w.i + 0 } in
          record {
            result = moved_on;
            ends = ap some (mark-past moved_on h k);
            real_start = refl;
            real_length = refl;
          }
      walk-past (ch ∷ chars) w good h k =
          let next : Walk = record w { i = w.i + length ch; j = w.j + 1 } in
          let more = walk-past chars next good.1 (omega arith) (omega arith) in
          record {
            result = more.result;
            ends =
                walk-after at_start inside ch (concat chars) w good.0
                ∙ ap
                    (λ m.
                      walk at_start inside (concat chars) 0
                        (record m { i = m.i + length ch; j = m.j + 1 }))
                    (mark-past w h k)
                ∙ more.ends;
            real_start = more.real_start;
            real_length = more.real_length;
          }

      -- From the last place on, or where the string ends before it.
      walk-last :
          (chars : List Str) (w : Walk)
          → All IsChar chars
          → inside w.j ≡ true
          → start ≤ w.j
          → (chars ≡ []) ⊎ (w.j ≡ last)
          → let m = mark at_start inside w in
            Leaves (concat chars) w m.realstart (w.i - m.realstart)
      unfolding concat walk mark
      walk-last [] w good now h d =
          let e : w.i ≡ w.i + 0 = omega arith in
          record {
            result = mark at_start inside w;
            ends = ap (λ k. some (mark at_start inside (record w { i = k }))) (sym e);
            real_start = refl;
            real_length = rw now refl;
          }
      walk-last (ch ∷ chars) w good now h d =
          let here : w.j ≡ last = elim d [ inl e ↦ absurd (cc) | inr e ↦ e ] in
          let next = after at_start inside ch w in
          let more = walk-past chars next good.1 (omega arith) (omega arith) in
          record {
            result = more.result;
            ends = walk-after at_start inside ch (concat chars) w good.0 ∙ more.ends;
            real_start = more.real_start;
            real_length = more.real_length ∙ (rw now refl);
          }

      module _ (starts : at_start start ≡ true)
          (inner : (k : ℕ) → start ≤ k → k ≤ last → inside k ≡ true)
          (before : (k : ℕ) → k < start → inside k ≡ false) where
        mark-start : (w : Walk) → w.j ≡ start → (mark at_start inside w).realstart ≡ w.i
        unfolding mark
        mark-start w e = rw (ap at_start e ∙ starts) refl

        -- The characters before the start, those that are chosen, and those behind.
        pub walk-chosen :
            (first chosen others : List Str)
            → All IsChar first
            → All IsChar chosen
            → All IsChar others
            → length first ≡ start
            → length chosen ≤ last - start
            → (others ≡ []) ⊎ (length chosen ≡ last - start)
            → start ≤ last
            → Leaves
                (concat first ++ (concat chosen ++ concat others))
                zeros
                (length (concat first))
                (length (concat chosen))
        unfolding concat mark
        walk-chosen first [] others f c o l m d le =
            let w : Walk = moved first zeros in
            let more =
              walk-last others w o (inner w.j (omega arith) (omega arith)) (omega arith)
                (elim d [ inl e ↦ inl e | inr e ↦ inr (omega arith) ]) in
            let at : (mark at_start inside w).realstart ≡ w.i = mark-start w (omega arith) in
            record {
              result = more.result;
              ends = walk-before before first (concat others) zeros f (omega arith) ∙ more.ends;
              real_start = omega (arith, more.real_start, at);
              real_length = omega (arith, more.real_length, at);
            }
        walk-chosen first (ch ∷ chosen) others f c o l m d le =
            let w : Walk = moved first zeros in
            let at : (mark at_start inside w).realstart ≡ w.i = mark-start w (omega arith) in
            let w2 = after at_start inside ch w in
            let (n, e) = walk-behind chosen (concat others) w2 c.1 (omega arith) in
            let w3 : Walk = record (moved chosen w2) { reallength = n } in
            let more =
              walk-last others w3 o (inner w3.j (omega arith) (omega arith)) (omega arith)
                (elim d [ inl e ↦ inl e | inr e ↦ inr (omega arith) ]) in
            let same : (mark at_start inside w3).realstart ≡ w3.realstart =
              ap (λ v. v.realstart) (mark-behind w3 (omega arith)) in
            record {
              result = more.result;
              ends =
                  walk-before before first ((ch ++ concat chosen) ++ concat others) zeros f
                    (omega arith)
                  ∙ ap (λ s. walk at_start inside s 0 w)
                      (append_assoc ch (concat chosen) (concat others))
                  ∙ walk-after at_start inside ch (concat chosen ++ concat others) w c.0
                  ∙ e
                  ∙ more.ends;
              real_start = omega (arith, more.real_start, at, same);
              real_length =
                  omega (arith, more.real_length, at, same, length-append ch (concat chosen));
            }
