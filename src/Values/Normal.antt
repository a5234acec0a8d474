-- ===== src/Values/Normal.antt =====
-- What the optimised predicate looks like: its constructors accept it, and no connective of two
-- operands has a constant of type Bool as an operand.
use joda.Base.{Option, Bool, true, false, ◌&&◌, ◌||◌, ◌≡◌, refl, inl, inr, arith, Bool-cases}
use joda.Base.Text.{Str}
use joda.Json.{Json}
use joda.Values.Provider.{
  Calc, and, or, xor, implication, Provider, null_provider, pointer_provider, not_provider,
  binary_bool_provider, comparison_provider, equality_provider, is_bool, is_any, well_typed,
  comparable, equalizable,
}
use joda.Values.Eval.{Machine}
use joda.Values.Optimize.{
  optimize_left, optimize_right, replaced, not_rule, is_const_bool, const_bool, binary_rule,
  optimize,
}
use joda.Values.Laws.{both}

-- A provider that a connective accepts as its parameter.
abbrev pub operand : Provider → Bool
operand p = well_typed p && (is_any p || is_bool p)

-- No operand of an AND, an OR, an XOR or an implication in the tree is a constant of type Bool. The
-- operand of a NOT may be one.
abbrev pub NoConstOperand : Provider → Type 0
NoConstOperand (not_provider p) = NoConstOperand p
NoConstOperand (binary_bool_provider c p q) =
    (is_const_bool p ≡ false) × (is_const_bool q ≡ false) × NoConstOperand p × NoConstOperand q
NoConstOperand (comparison_provider o p q) = NoConstOperand p × NoConstOperand q
NoConstOperand (equality_provider e p q) = NoConstOperand p × NoConstOperand q
NoConstOperand _ = Unit

operand-not_rule :
    (p : Provider) → operand p ≡ true → operand (replaced (not_provider p, not_rule p)) ≡ true
unfolding not_rule
operand-not_rule (not_provider p) h = ground arith
operand-not_rule _ h = ground arith

NoConstOperand-not_rule :
    (p : Provider) → NoConstOperand p → NoConstOperand (replaced (not_provider p, not_rule p))
unfolding not_rule
NoConstOperand-not_rule (not_provider p) h = h
NoConstOperand-not_rule (binary_bool_provider c p q) h = h
NoConstOperand-not_rule _ h = h

operand-optimize_left :
    (c : Calc) (b : Bool) (q : Provider) → operand q ≡ true → operand (optimize_left c b q) ≡ true
unfolding optimize_left
operand-optimize_left and true q h = h
operand-optimize_left and false q h = refl
operand-optimize_left or true q h = refl
operand-optimize_left or false q h = h
operand-optimize_left xor true q h = ground arith
operand-optimize_left xor false q h = h
operand-optimize_left implication true q h = h
operand-optimize_left implication false q h = refl

operand-optimize_right :
    (c : Calc) (p : Provider) (b : Bool) → operand p ≡ true → operand (optimize_right c p b) ≡ true
unfolding optimize_right
operand-optimize_right and p true h = h
operand-optimize_right and p false h = refl
operand-optimize_right or p true h = refl
operand-optimize_right or p false h = h
operand-optimize_right xor p true h = ground arith
operand-optimize_right xor p false h = h
operand-optimize_right implication p true h = refl
operand-optimize_right implication p false h = ground arith

operand-binary_rule :
    {Doc : Type 0} (machine : Machine) (get : Doc → Str → Option Json) (empty : Doc) (c : Calc)
    (p q : Provider)
    → operand p ≡ true
    → operand q ≡ true
    → operand (replaced (binary_bool_provider c p q, binary_rule machine get empty c p q)) ≡ true
unfolding binary_rule
operand-binary_rule machine get empty c p q hp hq = elim (Bool-cases (is_const_bool p)) [
  | inl l ↦ rw l (operand-optimize_left c (const_bool machine get empty p) q hq)
  | inr l ↦ rw l (elim (Bool-cases (is_const_bool q)) [
    | inl r ↦ rw r (operand-optimize_right c p (const_bool machine get empty q) hp)
    | inr r ↦ rw r (ground arith)
  ])
]

NoConstOperand-optimize_left :
    (c : Calc) (b : Bool) (q : Provider) → NoConstOperand q → NoConstOperand (optimize_left c b q)
unfolding optimize_left
NoConstOperand-optimize_left and true q h = h
NoConstOperand-optimize_left and false q h = tt
NoConstOperand-optimize_left or true q h = tt
NoConstOperand-optimize_left or false q h = h
NoConstOperand-optimize_left xor true q h = h
NoConstOperand-optimize_left xor false q h = h
NoConstOperand-optimize_left implication true q h = h
NoConstOperand-optimize_left implication false q h = tt

NoConstOperand-optimize_right :
    (c : Calc) (p : Provider) (b : Bool) → NoConstOperand p → NoConstOperand (optimize_right c p b)
unfolding optimize_right
NoConstOperand-optimize_right and p true h = h
NoConstOperand-optimize_right and p false h = tt
NoConstOperand-optimize_right or p true h = tt
NoConstOperand-optimize_right or p false h = h
NoConstOperand-optimize_right xor p true h = h
NoConstOperand-optimize_right xor p false h = h
NoConstOperand-optimize_right implication p true h = tt
NoConstOperand-optimize_right implication p false h = h

-- What a provider's parents ask of it, kept by another in its place.
record Keeps (p q : Provider) : Type 0 where
  typed : well_typed q ≡ true
  bool_or_any : is_any p || is_bool p ≡ true → is_any q || is_bool q ≡ true
  compares : comparable p ≡ true → comparable q ≡ true
  equalizes : equalizable p ≡ true → equalizable q ≡ true

operand-equalizable : (p : Provider) → operand p ≡ true → equalizable p ≡ true
operand-equalizable (pointer_provider s) h = refl
operand-equalizable null_provider h = cc
operand-equalizable _ h = ground arith

Keeps-operand : (p q : Provider) → comparable p ≡ false → operand q ≡ true → Keeps p q
Keeps-operand p q c h = record {
  typed = (both (well_typed q) (is_any q || is_bool q) h).0;
  bool_or_any = λ _. (both (well_typed q) (is_any q || is_bool q) h).1;
  compares = λ k. cc;
  equalizes = λ _. operand-equalizable q h;
}

module _ {Doc : Type 0} (machine : Machine) (get : Doc → Str → Option Json) (empty : Doc) where
  abbrev after : Provider → Provider
  after p = replaced (optimize machine get empty p)

  operand-Keeps : (p q : Provider) → operand p ≡ true → Keeps p q → operand q ≡ true
  operand-Keeps p q h k =
      let l = k.typed in
      let r = k.bool_or_any (both (well_typed p) (is_any p || is_bool p) h).1 in rw (l, r)

  Keeps-after : (p : Provider) → well_typed p ≡ true → Keeps p (after p)
  unfolding optimize
  Keeps-after (not_provider p) h =
      let k = Keeps-after p (both (well_typed p) (is_any p || is_bool p) h).0 in
      Keeps-operand (not_provider p) (after (not_provider p)) refl
        (operand-not_rule (after p) (operand-Keeps p (after p) h k))
  Keeps-after (binary_bool_provider c p q) h =
      let kp = Keeps-after p (ground arith) in
      let kq = Keeps-after q (ground arith) in
      Keeps-operand (binary_bool_provider c p q) (after (binary_bool_provider c p q)) refl (
        operand-binary_rule machine get empty c (after p) (after q)
          (operand-Keeps p (after p) (ground arith) kp)
          (operand-Keeps q (after q) (ground arith) kq))
  Keeps-after (comparison_provider o p q) h =
      let kp = Keeps-after p (ground arith) in
      let kq = Keeps-after q (ground arith) in
      Keeps-operand (comparison_provider o p q) (after (comparison_provider o p q)) refl
        (rw (kp.typed, kq.typed, kp.compares (ground arith), kq.compares (ground arith)))
  Keeps-after (equality_provider e p q) h =
      let kp = Keeps-after p (ground arith) in
      let kq = Keeps-after q (ground arith) in
      Keeps-operand (equality_provider e p q) (after (equality_provider e p q)) refl
        (rw (kp.typed, kq.typed, kp.equalizes (ground arith), kq.equalizes (ground arith)))
  Keeps-after p h = record {
    typed = refl;
    bool_or_any = λ k. k;
    compares = λ k. k;
    equalizes = λ k. k;
  }

  -- Optimising a tree whose constructors have accepted their parameters gives a tree whose
  -- constructors accept theirs.
  pub optimize-well_typed :
      (p : Provider)
      → well_typed p ≡ true
      → well_typed (replaced (optimize machine get empty p)) ≡ true
  optimize-well_typed p h = (Keeps-after p h).typed

  -- The optimised provider has no connective of two operands with a constant of type Bool as one of
  -- them.
  pub optimize-NoConstOperand :
      (p : Provider) → NoConstOperand (replaced (optimize machine get empty p))
  unfolding optimize binary_rule
  optimize-NoConstOperand (not_provider p) =
      NoConstOperand-not_rule (after p) (optimize-NoConstOperand p)
  optimize-NoConstOperand (binary_bool_provider c p q) =
      elim (Bool-cases (is_const_bool (after p))) [
        | inl l ↦ rw l (
            NoConstOperand-optimize_left c (const_bool machine get empty (after p)) (after q)
              (optimize-NoConstOperand q))
        | inr l ↦ rw l (elim (Bool-cases (is_const_bool (after q))) [
          | inl r ↦ rw r (
              NoConstOperand-optimize_right c (after p) (const_bool machine get empty (after q))
                (optimize-NoConstOperand p))
          | inr r ↦ rw r (l, r, optimize-NoConstOperand p, optimize-NoConstOperand q)
        ])
      ]
  optimize-NoConstOperand (comparison_provider o p q) =
      (optimize-NoConstOperand p, optimize-NoConstOperand q)
  optimize-NoConstOperand (equality_provider e p q) =
      (optimize-NoConstOperand p, optimize-NoConstOperand q)
  optimize-NoConstOperand _ = tt
