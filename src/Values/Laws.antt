-- ===== src/Values/Laws.antt =====
-- Values of constants, and of the providers that one step of `optimize` puts in place of another.
use joda.Base.{
  Option, some, Bool, true, false, ◌&&◌, ◌≡◌, refl, ap, ap₂, ◌∙◌, inl, inr, arith, Bool-cases,
}
use joda.Base.Text.{Str}
use joda.Json.{Json, scalar, bool}
use joda.Values.Provider.{
  Calc, and, or, xor, implication, Provider, pointer_provider, not_provider, binary_bool_provider,
  comparison_provider, equality_provider, is_bool, is_atom, is_const,
}
use joda.Values.Eval.{
  Machine, non_truthy, not_value, calculate, comparison_value, equality_value, get_atom_value,
  fetch,
}
use joda.Values.Optimize.{
  optimize_left, optimize_right, replaced, is_const_bool, const_bool, binary_rule,
}

pub both : (a b : Bool) → a && b ≡ true → (a ≡ true) × (b ≡ true)
both a b h = ground arith

module _ {Doc : Type 0} (machine : Machine) (get : Doc → Str → Option Json) where
  abbrev at : Provider → Doc → Option Json
  at p d = fetch machine get p d

  -- The provider has a Boolean value on the document.
  abbrev pub IsBoolAt : Provider → Doc → Type 0
  IsBoolAt p d = (b : Bool) × (fetch machine get p d ≡ some (scalar (bool b)))

  -- A constant has the same value on every document.
  pub fetch-const : (p : Provider) → is_const p ≡ true → (d e : Doc) → at p d ≡ at p e
  unfolding get_atom_value
  fetch-const (pointer_provider s) h d e = cc
  fetch-const (not_provider p) h d e = ap (λ v. some (not_value v)) (fetch-const p h d e)
  fetch-const (binary_bool_provider c p q) h d e =
      ap₂ (λ v w. some (scalar (bool (calculate c (non_truthy v) (non_truthy w)))))
        (fetch-const p (both (is_const p) (is_const q) h).0 d e)
        (fetch-const q (both (is_const p) (is_const q) h).1 d e)
  fetch-const (comparison_provider o p q) h d e =
      ap₂ (λ v w. some (comparison_value machine o v w))
        (fetch-const p (both (is_const p) (is_const q) h).0 d e)
        (fetch-const q (both (is_const p) (is_const q) h).1 d e)
  fetch-const (equality_provider o p q) h d e =
      ap₂ (λ v w. some (scalar (bool (equality_value machine o v w))))
        (fetch-const p (both (is_const p) (is_const q) h).0 d e)
        (fetch-const q (both (is_const p) (is_const q) h).1 d e)
  fetch-const _ h d e = refl

  -- The constant that a rule reads off is the operand's value.
  pub const_bool_lem :
      (empty d : Doc) (p : Provider)
      → is_const_bool p ≡ true
      → non_truthy (at p d) ≡ const_bool machine get empty p
  const_bool_lem empty d p h =
      let c = both (is_const p && is_bool p) (is_atom p) h in
      let a = both (is_const p) (is_bool p) c.0 in rw (fetch-const p a.0 d empty) (rw c.1)

  -- The result of each rule has the value of the connective, where the other operand is Boolean.
  pub fetch-optimize_left :
      (c : Calc) (b : Bool) (q : Provider) (d : Doc)
      → IsBoolAt q d
      → at (optimize_left c b q) d ≡ some (scalar (bool (calculate c b (non_truthy (at q d)))))
  unfolding optimize_left get_atom_value
  fetch-optimize_left and true q d (x, e) = rw e
  fetch-optimize_left and false q d (x, e) = refl
  fetch-optimize_left or true q d (x, e) = refl
  fetch-optimize_left or false q d (x, e) = rw e
  fetch-optimize_left xor true q d (x, e) = rw e
  fetch-optimize_left xor false q d (x, e) = rw e (ground arith)
  fetch-optimize_left implication true q d (x, e) = rw e
  fetch-optimize_left implication false q d (x, e) = refl

  pub fetch-optimize_right :
      (c : Calc) (p : Provider) (b : Bool) (d : Doc)
      → IsBoolAt p d
      → at (optimize_right c p b) d ≡ some (scalar (bool (calculate c (non_truthy (at p d)) b)))
  unfolding optimize_right get_atom_value
  fetch-optimize_right and p true d (x, e) = rw e (ground arith)
  fetch-optimize_right and p false d (x, e) = rw e (ground arith)
  fetch-optimize_right or p true d (x, e) = rw e (ground arith)
  fetch-optimize_right or p false d (x, e) = rw e (ground arith)
  fetch-optimize_right xor p true d (x, e) = rw e (ground arith)
  fetch-optimize_right xor p false d (x, e) = rw e (ground arith)
  fetch-optimize_right implication p true d (x, e) = rw e (ground arith)
  fetch-optimize_right implication p false d (x, e) = rw e (ground arith)

  -- One step of a connective: the rule's result, or the connective itself.
  pub fetch-binary_rule :
      (empty d : Doc) (c : Calc) (p q : Provider)
      → IsBoolAt p d
      → IsBoolAt q d
      → at (replaced (binary_bool_provider c p q, binary_rule machine get empty c p q)) d
        ≡ at (binary_bool_provider c p q) d
  unfolding binary_rule
  fetch-binary_rule empty d c p q hp hq = elim (Bool-cases (is_const_bool p)) [
    | inl l ↦ rw l (
        fetch-optimize_left c (const_bool machine get empty p) q d hq
        ∙ rw (← const_bool_lem empty d p l) (unfold get_atom_value in refl))
    | inr l ↦ rw l (elim (Bool-cases (is_const_bool q)) [
      | inl r ↦ rw r (
          fetch-optimize_right c p (const_bool machine get empty q) d hp
          ∙ rw (← const_bool_lem empty d q r) (unfold get_atom_value in refl))
      | inr r ↦ rw r
    ])
  ]
