-- ===== src/Pipeline/Target.antt =====
-- What `findOptimizationTarget` finds, for the rules of two tasks: the first range that meets a test
-- which is stated without the loop.
use joda.Base.{
  ℕ, Bool, true, false, not, ◌&&◌, ◌||◌, Option, none, some, List, [], ◌∷◌, ◌++◌, ◌==◌, ==_iff,
  if◌then◌else◌, ◌≡◌, ◌≢◌, refl, ap, ◌∙◌, arith, Bool-cases, inl, inr,
}
use joda.Planner.TaskId.{TaskId, id_eq}
use joda.Pipeline.Rule.{
  PipelineTask, Connection, Rule, Match, extend, judge, Target, has_num, insert_num,
  connected_from_outside, outside_connections, match_names, validate_range, target_here, or_else,
  find_from, find_optimization_target,
}

-- Every connection to the task `b` comes from the task `a` or from itself.
abbrev pub only_from : List Connection → ℕ → ℕ → Bool
only_from [] a b = true
only_from ((first, second) ∷ rest) a b =
    (not (second == b) || first == a || first == b) && only_from rest a b

-- Neighbours in the list have different numbers.
abbrev pub Numbered : List PipelineTask → Type 0
Numbered [] = Unit
Numbered (t ∷ []) = Unit
Numbered (t ∷ u ∷ ts) = (t.num ≢ u.num) × Numbered (u ∷ ts)

-- The first two neighbours that pass a test.
abbrev pub first_pair :
    (PipelineTask → PipelineTask → Bool) → List PipelineTask → List PipelineTask → Option Target
first_pair fits before [] = none
first_pair fits before (t ∷ []) = none
first_pair fits before (t ∷ u ∷ rest) =
    let later = first_pair fits (before ++ t ∷ []) (u ∷ rest) in
    if fits t u then some (record { before = before; range = t ∷ u ∷ []; after = rest }) else later

outside-only_from :
    (cs : List Connection) (a b : ℕ)
    → connected_from_outside cs (b ∷ a ∷ []) b ≡ not (only_from cs a b)
unfolding connected_from_outside has_num
outside-only_from [] a b = refl
outside-only_from ((first, second) ∷ rest) a b = ground (arith, outside-only_from rest a b)

differ : (a b : ℕ) → a ≢ b → (a == b) ≡ false
differ a b h = elim (Bool-cases (a == b)) [ inl e ↦ absurd (h ((==_iff a b).0 e)) | inr e ↦ e ]

same : (a : ℕ) → (a == a) ≡ true
same a = (==_iff a a).1 refl

pub here-match :
    (rule : Rule) (cs : List Connection) (before tasks : List PipelineTask) (m : Option Match)
    → match_names rule.to_optimize tasks ≡ m
    → target_here rule cs before tasks ≡ judge rule cs before tasks m
unfolding target_here
here-match rule cs before tasks m e = ap (judge rule cs before tasks) e

pub judge-if :
    (rule : Rule) (cs : List Connection) (before tasks range after : List PipelineTask)
    (b inside valid : Bool)
    → outside_connections cs rule.to_optimize tasks [] ≡ not inside
    → validate_range rule range ≡ valid
    → judge rule cs before tasks (if b then some (range, after) else none) ≡ (
        if b && inside && valid
        then some (record { before = before; range = range; after = after })
        else none)
unfolding judge
judge-if rule cs before tasks range after true inside valid e f = rw e (rw f (ground arith))
judge-if rule cs before tasks range after false inside valid e f = refl

pub find_from-cons :
    (rule : Rule) (cs : List Connection) (before : List PipelineTask) (t : PipelineTask)
    (ts : List PipelineTask)
    → find_from rule cs before (t ∷ ts)
      ≡ or_else (target_here rule cs before (t ∷ ts)) (find_from rule cs (before ++ t ∷ []) ts)
unfolding find_from
find_from-cons rule cs before t ts = refl

pub find_from-nil :
    (rule : Rule) (cs : List Connection) (before : List PipelineTask)
    → find_from rule cs before [] ≡ none
unfolding find_from
find_from-nil rule cs before = refl

pub or_else-if :
    (b : Bool) (target : Target) (later : Option Target)
    → or_else (if b then some target else none) later ≡ (if b then some target else later)
unfolding or_else
or_else-if true target later = refl
or_else-if false target later = refl

module _ (cs : List Connection) (t u : PipelineTask) (distinct : t.num ≢ u.num) where
  outside-pair :
      (p q : TaskId) (rest : List PipelineTask)
      → outside_connections cs (p ∷ q ∷ []) (t ∷ u ∷ rest) [] ≡ not (only_from cs t.num u.num)
  unfolding outside_connections insert_num has_num
  outside-pair p q rest =
      rw (differ t.num u.num distinct) (rw (outside-only_from cs t.num u.num) (ground arith))

  pub outside-triple :
      (p q r : TaskId) (rest : List PipelineTask)
      → outside_connections cs (p ∷ q ∷ r ∷ []) (t ∷ u ∷ rest) [] ≡ not (only_from cs t.num u.num)
  unfolding outside_connections insert_num has_num
  outside-triple p q r rest =
      rw (differ t.num u.num distinct)
        (rw (same u.num) (rw (outside-only_from cs t.num u.num) (ground arith)))

module _ (cs : List Connection) (p q : TaskId) (validate : PipelineTask → PipelineTask → Bool)
    (task : TaskId) where
  abbrev pub pair_rule : Rule
  pair_rule = record { to_optimize = p ∷ q ∷ []; validate = validate; replacement = task }

  -- The two tasks have the names of the rule, the content that it accepts, and the second one has no
  -- input from a third.
  abbrev pub pair_fits : PipelineTask → PipelineTask → Bool
  pair_fits t u = id_eq t.name p && id_eq u.name q && only_from cs t.num u.num && validate t u

  pair_match :
      (t u : PipelineTask) (rest : List PipelineTask)
      → match_names (p ∷ q ∷ []) (t ∷ u ∷ rest)
        ≡ (if id_eq t.name p && id_eq u.name q then some (t ∷ u ∷ [], rest) else none)
  unfolding match_names extend
  pair_match t u rest = ground arith

  pair_here :
      (before rest : List PipelineTask) (t u : PipelineTask)
      → t.num ≢ u.num
      → target_here pair_rule cs before (t ∷ u ∷ rest) ≡ (
          if pair_fits t u
          then some (record { before = before; range = t ∷ u ∷ []; after = rest })
          else none)
  unfolding validate_range
  pair_here before rest t u h =
      here-match pair_rule cs before (t ∷ u ∷ rest) _ (pair_match t u rest)
      ∙ (judge-if pair_rule cs before (t ∷ u ∷ rest) (t ∷ u ∷ []) rest
            (id_eq t.name p && id_eq u.name q) (only_from cs t.num u.num) (validate t u)
            (outside-pair cs t u h p q rest) refl
          ∙ ground arith)

  pair_one :
      (before : List PipelineTask) (t : PipelineTask)
      → target_here pair_rule cs before (t ∷ []) ≡ none
  unfolding match_names extend judge
  pair_one before t = here-match pair_rule cs before (t ∷ []) none (ground arith)

  pair_from :
      (before tasks : List PipelineTask)
      → Numbered tasks
      → find_from pair_rule cs before tasks ≡ first_pair pair_fits before tasks
  unfolding or_else
  pair_from before [] h = find_from-nil pair_rule cs before
  pair_from before (t ∷ []) h =
      find_from-cons pair_rule cs before t []
      ∙ (rw (pair_one before t) (find_from-nil pair_rule cs (before ++ t ∷ [])))
  pair_from before (t ∷ u ∷ rest) h =
      find_from-cons pair_rule cs before t (u ∷ rest)
      ∙ (rw (pair_here before rest t u h.0) (
          rw (pair_from (before ++ t ∷ []) (u ∷ rest) h.1) (
            or_else-if (pair_fits t u)
              (record { before = before; range = t ∷ u ∷ []; after = rest })
              (first_pair pair_fits (before ++ t ∷ []) (u ∷ rest)))))

  -- In a list of tasks in which neighbours have different numbers, a rule of two tasks takes the first
  -- two neighbours of its names and content of which the second has no input from a third task, and
  -- takes none if there are no such two.
  pub pair_rule-first_pair :
      (tasks : List PipelineTask)
      → Numbered tasks
      → find_optimization_target pair_rule cs tasks ≡ first_pair pair_fits [] tasks
  unfolding find_optimization_target
  pair_rule-first_pair tasks h = pair_from [] tasks h
