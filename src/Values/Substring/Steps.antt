-- ===== src/Values/Substring/Steps.antt =====
-- SubStringProvider.h: how the second loop of `utf8_substr` steps over characters.
use joda.Base.{
  ℕ, suc, ◌+◌, none, some, Bool, List, [], ◌∷◌, ◌++◌, ◌≡◌, ap, ap₂, ◌∙◌, arith, length, concat,
}
use joda.Base.Text.{Str}
use joda.Values.Substring.{skipped, Walk, mark, walk}

-- A character is a byte that says how many bytes follow, and those.
abbrev pub IsChar : Str → Type 0
IsChar [] = ⊥
IsChar (c ∷ cs) = skipped c ≡ some (length cs)

-- After characters that set nothing.
abbrev pub moved : List Str → Walk → Walk
moved chars w = record w { i = w.i + length (concat chars); j = w.j + length chars }

module _ (at_start : ℕ → Bool) (inside : ℕ → Bool) where
  walk-skip :
      (bytes rest : Str) (w : Walk)
      → walk at_start inside (bytes ++ rest) (length bytes) w
        ≡ walk at_start inside rest 0 (record w { i = w.i + length bytes })
  unfolding walk
  walk-skip [] rest w =
      ap (λ k. walk at_start inside rest 0 (record w { i = k }))
        (let e : w.i ≡ w.i + 0 = omega arith in e)
  walk-skip (c ∷ bytes) rest w =
      let e : w.i + 1 + length bytes ≡ w.i + suc (length bytes) = omega arith in
      walk-skip bytes rest (record w { i = w.i + 1 })
      ∙ ap (λ k. walk at_start inside rest 0 (record w { i = k })) e

  -- After a character.
  abbrev pub after : Str → Walk → Walk
  after ch w = let m = mark at_start inside w in record m { i = m.i + length ch; j = m.j + 1 }

  pub walk-after :
      (ch rest : Str) (w : Walk)
      → IsChar ch
      → walk at_start inside (ch ++ rest) 0 w ≡ walk at_start inside rest 0 (after ch w)
  unfolding walk
  walk-after [] rest w h = absurd h
  walk-after (c ∷ cs) rest w h =
      let m = mark at_start inside w in
      let e : m.i + 1 + length cs ≡ m.i + suc (length cs) = omega arith in
      ap
        (λ o. elim o [
          | none ↦ none
          | some n ↦ walk at_start inside (cs ++ rest) n (record m { i = m.i + 1; j = m.j + 1 })
        ])
        h
      ∙ walk-skip cs rest (record m { i = m.i + 1; j = m.j + 1 })
      ∙ ap (λ k. walk at_start inside rest 0 (record m { i = k; j = m.j + 1 })) e

  pub walk_at :
      (rest : Str) (w : Walk) (i' j' : ℕ)
      → w.i ≡ i'
      → w.j ≡ j'
      → walk at_start inside rest 0 w ≡ walk at_start inside rest 0 (record w { i = i'; j = j' })
  walk_at rest w i' j' p q =
      ap₂ (λ a b. walk at_start inside rest 0 (record w { i = a; j = b })) p q
