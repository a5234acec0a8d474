-- ===== src/Pipeline/Triple.antt =====
-- What `findOptimizationTarget` finds for the rules of three tasks.
use joda.Base.{
  Bool, ◌&&◌, Option, none, some, List, [], ◌∷◌, ◌++◌, if◌then◌else◌, ◌≡◌, ◌≢◌, refl, ◌∙◌, arith,
}
use joda.Planner.TaskId.{TaskId, id_eq}
use joda.Pipeline.Rule.{
  PipelineTask, Connection, Rule, extend, judge, Target, match_names, validate_range, target_here,
  or_else, find_from, find_optimization_target,
}
use joda.Pipeline.Target.{
  Numbered, only_from, outside-triple, here-match, judge-if, find_from-cons, find_from-nil,
  or_else-if,
}

-- The first three neighbours that pass a test.
abbrev pub first_triple :
    (PipelineTask → PipelineTask → PipelineTask → Bool)
    → List PipelineTask
    → List PipelineTask
    → Option Target
first_triple fits before [] = none
first_triple fits before (t ∷ []) = none
first_triple fits before (t ∷ u ∷ []) = none
first_triple fits before (t ∷ u ∷ v ∷ rest) =
    let later = first_triple fits (before ++ t ∷ []) (u ∷ v ∷ rest) in
    if fits t u v
    then some (record { before = before; range = t ∷ u ∷ v ∷ []; after = rest })
    else later

module _ (cs : List Connection) (p q r : TaskId) (validate : PipelineTask → PipelineTask → Bool)
    (task : TaskId) where
  abbrev pub triple_rule : Rule
  triple_rule = record { to_optimize = p ∷ q ∷ r ∷ []; validate = validate; replacement = task }

  -- The three tasks have the names of the rule, the content that it accepts, and the second one has no
  -- input from another task; the third is free.
  abbrev pub triple_fits : PipelineTask → PipelineTask → PipelineTask → Bool
  triple_fits t u v =
      id_eq t.name p && id_eq u.name q && id_eq v.name r && only_from cs t.num u.num && validate t v

  triple_match :
      (t u v : PipelineTask) (rest : List PipelineTask)
      → match_names (p ∷ q ∷ r ∷ []) (t ∷ u ∷ v ∷ rest) ≡ (
          if id_eq t.name p && id_eq u.name q && id_eq v.name r
          then some (t ∷ u ∷ v ∷ [], rest)
          else none)
  unfolding match_names extend
  triple_match t u v rest = ground arith

  triple_here :
      (before rest : List PipelineTask) (t u v : PipelineTask)
      → t.num ≢ u.num
      → target_here triple_rule cs before (t ∷ u ∷ v ∷ rest) ≡ (
          if triple_fits t u v
          then some (record { before = before; range = t ∷ u ∷ v ∷ []; after = rest })
          else none)
  unfolding validate_range
  triple_here before rest t u v h =
      here-match triple_rule cs before (t ∷ u ∷ v ∷ rest) _ (triple_match t u v rest)
      ∙ (judge-if triple_rule cs before (t ∷ u ∷ v ∷ rest) (t ∷ u ∷ v ∷ []) rest
            (id_eq t.name p && id_eq u.name q && id_eq v.name r) (only_from cs t.num u.num)
            (validate t v) (outside-triple cs t u h p q r (v ∷ rest)) refl
          ∙ ground arith)

  triple_short :
      (before : List PipelineTask) (t u : PipelineTask)
      → (target_here triple_rule cs before (t ∷ []) ≡ none)
        × (target_here triple_rule cs before (t ∷ u ∷ []) ≡ none)
  unfolding match_names extend judge
  triple_short before t u = (
    here-match triple_rule cs before (t ∷ []) none (ground arith),
    here-match triple_rule cs before (t ∷ u ∷ []) none (ground arith),
  )

  triple_from :
      (before tasks : List PipelineTask)
      → Numbered tasks
      → find_from triple_rule cs before tasks ≡ first_triple triple_fits before tasks
  unfolding or_else
  triple_from before [] h = find_from-nil triple_rule cs before
  triple_from before (t ∷ []) h =
      find_from-cons triple_rule cs before t []
      ∙ (rw ((triple_short before t t).0) (find_from-nil triple_rule cs (before ++ t ∷ [])))
  triple_from before (t ∷ u ∷ []) h =
      find_from-cons triple_rule cs before t (u ∷ [])
      ∙ (rw ((triple_short before t u).1) (triple_from (before ++ t ∷ []) (u ∷ []) tt))
  triple_from before (t ∷ u ∷ v ∷ rest) h =
      find_from-cons triple_rule cs before t (u ∷ v ∷ rest)
      ∙ (rw (triple_here before rest t u v h.0) (
          rw (triple_from (before ++ t ∷ []) (u ∷ v ∷ rest) h.1) (
            or_else-if (triple_fits t u v)
              (record { before = before; range = t ∷ u ∷ v ∷ []; after = rest })
              (first_triple triple_fits (before ++ t ∷ []) (u ∷ v ∷ rest)))))

  -- In a list of tasks in which neighbours have different numbers, a rule of three tasks takes the
  -- first three neighbours of its names and content of which the second has no input from another
  -- task. What is connected to the third one has no part in it.
  pub triple_rule-first_triple :
      (tasks : List PipelineTask)
      → Numbered tasks
      → find_optimization_target triple_rule cs tasks ≡ first_triple triple_fits [] tasks
  unfolding find_optimization_target
  triple_rule-first_triple tasks h = triple_from [] tasks h
