-- ===== src/Values/Soundness.antt =====
-- The optimisation of a predicate keeps its value, where the connectives have Boolean operands; and
-- what happens where they have not.
use joda.Base.{Option, none, some, Bool, ◌≡◌, refl, ap, ap₂, ◌∙◌, arith}
use joda.Base.Text.{Str}
use joda.Json.{Json, scalar, bool}
use joda.Values.Provider.{
  Provider, not_provider, binary_bool_provider, comparison_provider, equality_provider,
}
use joda.Values.Eval.{
  Machine, non_truthy, not_value, calculate, comparison_value, equality_value, get_atom_value,
  fetch,
}
use joda.Values.Optimize.{replaced, not_rule, optimize, parse_optimize, kept}
use joda.Values.Laws.{IsBoolAt, fetch-binary_rule}

not_value-not_value :
    (v : Option Json) (b : Bool)
    → some (not_value v) ≡ some (scalar (bool b))
    → v ≡ some (not_value (some (not_value v)))
unfolding not_value
not_value-not_value v b h = ground arith

-- The predicate that a query keeps is the old one, or what `optimize` returns.
pub kept-replaced :
    (P : Provider → Type 0) (p : Provider) (r : Provider × Option Provider)
    → P p
    → P (replaced r)
    → P (kept p r.1)
unfolding kept
kept-replaced P p (a, none) h k = h
kept-replaced P p (a, some q) h k = k

module _ {Doc : Type 0} (machine : Machine) (get : Doc → Str → Option Json) (empty d : Doc) where
  abbrev at : Provider → Option Json
  at p = fetch machine get p d

  abbrev after : Provider → Provider
  after p = replaced (optimize machine get empty p)

  -- On the document, each operand of a connective of the predicate has a Boolean value.
  abbrev pub BoolOperands : Provider → Type 0
  BoolOperands (not_provider p) = IsBoolAt machine get p d × BoolOperands p
  BoolOperands (binary_bool_provider c p q) =
      IsBoolAt machine get p d × IsBoolAt machine get q d × BoolOperands p × BoolOperands q
  BoolOperands (comparison_provider o p q) = BoolOperands p × BoolOperands q
  BoolOperands (equality_provider e p q) = BoolOperands p × BoolOperands q
  BoolOperands _ = Unit

  fetch-not_rule :
      (p : Provider)
      → IsBoolAt machine get p d
      → at (replaced (not_provider p, not_rule p)) ≡ some (not_value (at p))
  unfolding not_rule get_atom_value
  fetch-not_rule (not_provider x) (b, e) = not_value-not_value (at x) b e
  fetch-not_rule _ h = refl

  fetch-after : (p : Provider) → BoolOperands p → at (after p) ≡ at p
  unfolding optimize get_atom_value
  fetch-after (not_provider p) (hp, rest) =
      let ih = fetch-after p rest in
      fetch-not_rule (after p) (hp.0, ih ∙ hp.1) ∙ ap (λ v. some (not_value v)) ih
  fetch-after (binary_bool_provider c p q) (hp, hq, rp, rq) =
      let ip = fetch-after p rp in
      let iq = fetch-after q rq in
      fetch-binary_rule machine get empty d c (after p) (after q) (hp.0, ip ∙ hp.1)
        (hq.0, iq ∙ hq.1)
      ∙ ap₂ (λ v w. some (scalar (bool (calculate c (non_truthy v) (non_truthy w))))) ip iq
  fetch-after (comparison_provider o p q) (rp, rq) =
      ap₂ (λ v w. some (comparison_value machine o v w)) (fetch-after p rp) (fetch-after q rq)
  fetch-after (equality_provider e p q) (rp, rq) =
      ap₂ (λ v w. some (scalar (bool (equality_value machine e v w)))) (fetch-after p rp)
        (fetch-after q rq)
  fetch-after _ h = refl

  -- On a document where every operand of a connective of the predicate has a Boolean value, the
  -- predicate that `QueryParser::parse` puts into the query has the value of the parsed one.
  pub parse_optimize_sound :
      (p : Provider)
      → BoolOperands p
      → fetch machine get (parse_optimize machine get empty p) d ≡ fetch machine get p d
  unfolding parse_optimize
  parse_optimize_sound p h =
      kept-replaced (λ q. at q ≡ at p) p (optimize machine get empty p) refl (fetch-after p h)
