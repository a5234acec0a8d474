-- ===== src/Values/Junctions.antt =====
-- The optimisation of conjunctions and disjunctions on every document, and of the other connectives
-- where an operand has no Boolean value.
use joda.Base.{
  Option, none, some, Bool, true, false, ◌≡◌, refl, ap, ap₂, sym, ◌∙◌, inl, inr, arith, Bool-cases,
}
use joda.Base.Text.{Str}
use joda.Json.{Json, scalar, bool, null, arr, obj}
use joda.Values.Provider.{
  Calc, and, or, xor, implication, Provider, bool_provider, pointer_provider, not_provider,
  binary_bool_provider, comparison_provider, equality_provider,
}
use joda.Values.Eval.{Machine, non_truthy, not_value, calculate, get_atom_value, fetch, check}
use joda.Values.Optimize.{
  optimize_left, optimize_right, replaced, is_const_bool, const_bool, binary_rule, optimize,
  parse_optimize,
}
use joda.Values.Laws.{const_bool_lem}
use joda.Values.Soundness.{kept-replaced}

-- No connective.
abbrev pub Plain : Provider → Type 0
Plain (not_provider p) = ⊥
Plain (binary_bool_provider c p q) = ⊥
Plain (comparison_provider o p q) = Plain p × Plain q
Plain (equality_provider e p q) = Plain p × Plain q
Plain _ = Unit

abbrev pub IsAndOr : Calc → Type 0
IsAndOr and = Unit
IsAndOr or = Unit
IsAndOr _ = ⊥

-- Conjunctions and disjunctions of what holds no connective.
abbrev pub Junctions : Provider → Type 0
Junctions (binary_bool_provider c p q) = IsAndOr c × Junctions p × Junctions q
Junctions (not_provider p) = ⊥
Junctions p = Plain p

module _ {Doc : Type 0} (machine : Machine) (get : Doc → Str → Option Json) (empty d : Doc) where
  abbrev truth : Provider → Bool
  truth p = non_truthy (fetch machine get p d)

  abbrev after : Provider → Provider
  after p = replaced (optimize machine get empty p)

  after-Plain : (p : Provider) → Plain p → after p ≡ p
  unfolding optimize
  after-Plain (not_provider p) h = absurd h
  after-Plain (binary_bool_provider c p q) h = absurd h
  after-Plain (comparison_provider o p q) h =
      ap₂ (comparison_provider o) (after-Plain p h.0) (after-Plain q h.1)
  after-Plain (equality_provider e p q) h =
      ap₂ (equality_provider e) (after-Plain p h.0) (after-Plain q h.1)
  after-Plain _ h = refl

  truth-optimize_left :
      (c : Calc)
      → IsAndOr c
      → (b : Bool) (q : Provider) → truth (optimize_left c b q) ≡ calculate c b (truth q)
  unfolding optimize_left get_atom_value
  truth-optimize_left and h true q = refl
  truth-optimize_left and h false q = refl
  truth-optimize_left or h true q = refl
  truth-optimize_left or h false q = refl
  truth-optimize_left xor h b q = absurd h
  truth-optimize_left implication h b q = absurd h

  truth-optimize_right :
      (c : Calc)
      → IsAndOr c
      → (p : Provider) (b : Bool) → truth (optimize_right c p b) ≡ calculate c (truth p) b
  unfolding optimize_right get_atom_value
  truth-optimize_right and h p true = ground arith
  truth-optimize_right and h p false = ground arith
  truth-optimize_right or h p true = ground arith
  truth-optimize_right or h p false = ground arith
  truth-optimize_right xor h p b = absurd h
  truth-optimize_right implication h p b = absurd h

  truth-binary_rule :
      (c : Calc)
      → IsAndOr c
      → (p q : Provider)
      → truth (replaced (binary_bool_provider c p q, binary_rule machine get empty c p q))
        ≡ calculate c (truth p) (truth q)
  unfolding binary_rule
  truth-binary_rule c h p q = elim (Bool-cases (is_const_bool p)) [
    | inl l ↦ rw l (
        truth-optimize_left c h (const_bool machine get empty p) q
        ∙ ap (λ b. calculate c b (truth q)) (sym (const_bool_lem machine get empty d p l)))
    | inr l ↦ rw l (elim (Bool-cases (is_const_bool q)) [
      | inl r ↦ rw r (
          truth-optimize_right c h p (const_bool machine get empty q)
          ∙ ap (calculate c (truth p)) (sym (const_bool_lem machine get empty d q r)))
      | inr r ↦ rw r (unfold get_atom_value in refl)
    ])
  ]

  truth-after : (p : Provider) → Junctions p → truth (after p) ≡ truth p
  unfolding optimize get_atom_value
  truth-after (binary_bool_provider c p q) h =
      truth-binary_rule c h.0 (after p) (after q)
      ∙ ap₂ (calculate c) (truth-after p h.1) (truth-after q h.2)
  truth-after (not_provider p) h = absurd h
  truth-after (comparison_provider o p q) h = ap truth (after-Plain (comparison_provider o p q) h)
  truth-after (equality_provider e p q) h = ap truth (after-Plain (equality_provider e p q) h)
  truth-after _ h = refl

  check-truth : (p : Provider) → check machine get p d ≡ truth p
  unfolding check
  check-truth p = ground arith

  -- A predicate of conjunctions and disjunctions, with no other connective, selects a document after
  -- the parser's optimisation exactly if it selected it before, also where operands are missing or
  -- not Boolean.
  pub check-parse_optimize :
      (p : Provider)
      → Junctions p
      → check machine get (parse_optimize machine get empty p) d ≡ check machine get p d
  unfolding parse_optimize
  check-parse_optimize p h =
      kept-replaced (λ q. check machine get q d ≡ check machine get p d) p
        (optimize machine get empty p) refl
        (check-truth (after p) ∙ truth-after p h ∙ sym (check-truth p))

abbrev pub NotBoolean : Option Json → Type 0
NotBoolean (some (scalar (bool b))) = ⊥
NotBoolean _ = Unit

-- Such a value counts as false, and so does its negation.
both_false :
    (v : Option Json)
    → NotBoolean v
    → (non_truthy v ≡ false) × (non_truthy (some (not_value v)) ≡ false)
unfolding not_value
both_false none h = (refl, refl)
both_false (some (scalar (bool b))) h = absurd h
both_false (some (scalar null)) h = (refl, refl)
both_false (some (scalar _)) h = (refl, refl)
both_false (some (arr xs)) h = (refl, refl)
both_false (some (obj ms)) h = (refl, refl)

module _ {Doc : Type 0} (machine : Machine) (get : Doc → Str → Option Json) (empty d : Doc) where
  -- `XOR(true, x)` and `IMPLICATION(x, false)` select a document in which the attribute `x` is missing
  -- or not Boolean, and no longer select it once the parser has optimised them.
  pub optimize_drops :
      (x : Str)
      → NotBoolean (get d x)
      → (check machine get (binary_bool_provider xor (bool_provider true) (pointer_provider x)) d
          ≡ true)
        × (check machine get
              (parse_optimize machine get empty
                (binary_bool_provider xor (bool_provider true) (pointer_provider x)))
              d
            ≡ false)
        × (check machine get
              (binary_bool_provider implication (pointer_provider x) (bool_provider false))
              d
            ≡ true)
        × (check machine get
              (parse_optimize machine get empty
                (binary_bool_provider implication (pointer_provider x) (bool_provider false)))
              d
            ≡ false)
  unfolding parse_optimize check get_atom_value
  optimize_drops x h = let (f, g) = both_false (get d x) h in (rw f, g, rw f, g)
