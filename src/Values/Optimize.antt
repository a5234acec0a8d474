-- ===== src/Values/Optimize.antt =====
-- `optimize` of IValueProvider.cpp, BinaryBoolProvider.h and NotProvider.h. A call changes the
-- parameters of its object and may return an object to put in its place, so it is a pair: the object
-- after the call, and the result. `duplicate` copies a provider, so it is left out.
use joda.Base.{Option, none, some, Bool, true, false, ◌&&◌, if◌then◌else◌}
use joda.Base.Text.{Str}
use joda.Json.{Json, scalar, bool}
use joda.Values.Provider.{
  Calc, and, or, xor, implication, Provider, bool_provider, not_provider, binary_bool_provider,
  comparison_provider, equality_provider, is_bool, is_atom, is_const,
}
use joda.Values.Eval.{Machine, get_atom_value}

-- `Calc::optimize(bool, params[1])`
unfoldable pub optimize_left : Calc → Bool → Provider → Provider
optimize_left and true rhs = rhs
optimize_left and false rhs = bool_provider false
optimize_left or true rhs = bool_provider true
optimize_left or false rhs = rhs
optimize_left xor true rhs = not_provider rhs
optimize_left xor false rhs = rhs
optimize_left implication true rhs = rhs
optimize_left implication false rhs = bool_provider true

-- `Calc::optimize(params[0], bool)`
unfoldable pub optimize_right : Calc → Provider → Bool → Provider
optimize_right and lhs true = lhs
optimize_right and lhs false = bool_provider false
optimize_right or lhs true = bool_provider true
optimize_right or lhs false = lhs
optimize_right xor lhs true = not_provider lhs
optimize_right xor lhs false = lhs
optimize_right implication lhs true = bool_provider true
optimize_right implication lhs false = not_provider lhs

-- `GetBool()`, which is called on a constant of type Bool.
abbrev pub get_bool : Json → Bool
get_bool (scalar (bool b)) = b
get_bool _ = false

-- The caller keeps the parameter that the call has changed, or takes the result.
abbrev pub replaced : Provider × Option Provider → Provider
replaced (p, none) = p
replaced (p, some q) = q

-- `if (new_pred != nullptr) setChoose(new_pred)`: `optimize` was called on a copy of `pred`.
unfoldable pub kept : Provider → Option Provider → Provider
kept pred none = pred
kept pred (some new_pred) = new_pred

-- `dynamic_cast<NotProvider*>(params[0])`
unfoldable pub not_rule : Provider → Option Provider
not_rule (not_provider p) = some p
not_rule _ = none

abbrev pub is_const_bool : Provider → Bool
is_const_bool p = is_const p && is_bool p && is_atom p

module _ {Doc : Type 0} (machine : Machine) (get : Doc → Str → Option Json) (empty : Doc) where
  -- `getAtomValue` on a fresh document, and `GetBool`.
  abbrev pub const_bool : Provider → Bool
  const_bool p = get_bool (get_atom_value machine get p empty)

  unfoldable pub binary_rule : Calc → Provider → Provider → Option Provider
  unfolding optimize_left optimize_right
  binary_rule c lhs rhs =
      if is_const_bool lhs
      then some (optimize_left c (const_bool lhs) rhs)
      else if is_const_bool rhs
      then some (optimize_right c lhs (const_bool rhs))
      else none

  unfoldable pub optimize : Provider → Provider × Option Provider
  unfolding not_rule binary_rule
  optimize (not_provider p) = let p' = replaced (optimize p) in (not_provider p', not_rule p')
  optimize (binary_bool_provider c p q) =
      let p' = replaced (optimize p) in
      let q' = replaced (optimize q) in (binary_bool_provider c p' q', binary_rule c p' q')
  optimize (comparison_provider o p q) =
      (comparison_provider o (replaced (optimize p)) (replaced (optimize q)), none)
  optimize (equality_provider e p q) =
      (equality_provider e (replaced (optimize p)) (replaced (optimize q)), none)
  optimize p = (p, none)

  -- `QueryParser::parse`, on the predicate of a parsed query.
  unfoldable pub parse_optimize : Provider → Provider
  unfolding optimize kept
  parse_optimize pred = kept pred (optimize pred).1
