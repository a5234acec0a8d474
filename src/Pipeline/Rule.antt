-- ===== src/Pipeline/Rule.antt =====
-- libs/joda/core/modules/queryexecution/src/pipeline/optimization: where a rule finds the tasks that
-- it replaces, `findOptimizationTarget` of OptimizationRule.cpp, and the rules. An iterator into the
-- task list is the list from there on, so a range is the tasks before it, in it and after it.
use joda.Base.{
  ℕ, Bool, true, false, not, ◌&&◌, ◌||◌, Option, none, some, List, [], ◌∷◌, ◌++◌, length, ltb, ◌==◌,
  if◌then◌else◌,
}
use joda.Base.Text.{Str, str_eq}
use joda.Planner.TaskId.{
  TaskId, id_eq, ls_file_opener, line_separated_stream_reader, ls_file_mapper, choose_pipeline,
  as_pipeline, agg_pipeline, filter_agg_pipeline, storage_receiver, storage_sender, storage_buffer,
  choose_as_pipeline, choose_as_agg_pipeline, choose_agg_pipeline,
}

-- `AsyncType`
pub data AsyncType : Type 0 where
  synchronous single_threaded multi_threaded : AsyncType

-- A task in a pipeline: its number, its name, the storage that a storage task names, whether the
-- description of an `AsPipeline` is empty, whether the task's type has an input and an output, whether
-- its input has a queue, and the task whose queue its output is.
pub record PipelineTask : Type 0 where
  pub num : ℕ
  pub name : TaskId
  pub storage : Str
  pub empty_desc : Bool
  pub async : AsyncType
  pub has_input : Bool
  pub has_output : Bool
  pub input_q : Bool
  pub output_q : Option ℕ

-- `std::pair<TaskNum, TaskNum>`
abbrev pub Connection : Type 0
Connection = ℕ × ℕ

-- `toOptimize`, and `validateOptimizationTarget` on the first and the last task of a range.
pub record Rule : Type 0 where
  pub to_optimize : List TaskId
  pub validate : PipelineTask → PipelineTask → Bool
  pub replacement : TaskId

-- The base class accepts every range.
abbrev simple_rule : List TaskId → TaskId → Rule
simple_rule ids task = record {
  to_optimize = ids;
  validate = λ first last. true;
  replacement = task;
}

abbrev pub file_map_optimization : Rule
file_map_optimization =
    simple_rule (ls_file_opener ∷ line_separated_stream_reader ∷ []) ls_file_mapper

abbrev pub choose_as_optimization : Rule
choose_as_optimization = simple_rule (choose_pipeline ∷ as_pipeline ∷ []) choose_as_pipeline

abbrev pub choose_agg_optimization : Rule
choose_agg_optimization =
    simple_rule (choose_pipeline ∷ filter_agg_pipeline ∷ []) choose_agg_pipeline

abbrev pub choose_as_agg_optimization : Rule
choose_as_agg_optimization =
    simple_rule (choose_pipeline ∷ as_pipeline ∷ agg_pipeline ∷ []) choose_as_agg_pipeline

abbrev has_name : Str → Bool
has_name [] = false
has_name _ = true

abbrev pub query_combination_rule : Rule
query_combination_rule = record {
  to_optimize = storage_receiver ∷ storage_sender ∷ [];
  validate = λ receiver sender.
      id_eq receiver.name storage_receiver
      && id_eq sender.name storage_sender
      && has_name sender.storage
      && has_name receiver.storage
      && str_eq sender.storage receiver.storage;
  replacement = storage_buffer;
}

abbrev pub filter_aggregation_rule : Rule
filter_aggregation_rule = record {
  to_optimize = as_pipeline ∷ agg_pipeline ∷ [];
  validate = λ first last.
      id_eq first.name as_pipeline && id_eq last.name agg_pipeline && first.empty_desc;
  replacement = filter_agg_pipeline;
}

-- `unordered_set::contains`
unfoldable pub has_num : List ℕ → ℕ → Bool
has_num [] n = false
has_num (x ∷ xs) n = x == n || has_num xs n

-- `unordered_set::insert`
unfoldable pub insert_num : ℕ → List ℕ → List ℕ
insert_num n xs = if has_num xs n then xs else n ∷ xs

-- The `find_if` over the connections.
unfoldable pub connected_from_outside : List Connection → List ℕ → ℕ → Bool
unfolding has_num
connected_from_outside [] ids num = false
connected_from_outside ((first, second) ∷ rest) ids num =
    (second == num && not (has_num ids first)) || connected_from_outside rest ids num

-- The loop over the pattern. `continue` skips the step to the next task, as in the source.
unfoldable pub outside_connections :
    List Connection → List TaskId → List PipelineTask → List ℕ → Bool
unfolding insert_num connected_from_outside
outside_connections cs [] tasks ids = false
outside_connections cs (p ∷ ps) [] ids = false
outside_connections cs (p ∷ ps) (t ∷ ts) ids =
    let task_ids = insert_num t.num ids in
    let stay = outside_connections cs ps (t ∷ ts) task_ids in
    let next = outside_connections cs ps ts task_ids in
    if ltb 1 (length task_ids)
    then (if connected_from_outside cs task_ids t.num then true else stay)
    else next

-- The tasks of a match, and those after it.
abbrev pub Match : Type 0
Match = List PipelineTask × List PipelineTask

unfoldable pub extend : PipelineTask → Option Match → Option Match
extend t none = none
extend t (some (range, after)) = some (t ∷ range, after)

-- The test of `std::search` at one position.
unfoldable pub match_names : List TaskId → List PipelineTask → Option Match
unfolding extend
match_names [] tasks = some ([], tasks)
match_names (p ∷ ps) [] = none
match_names (p ∷ ps) (t ∷ ts) =
    let rest = match_names ps ts in if id_eq t.name p then extend t rest else none

abbrev pub last_or : PipelineTask → List PipelineTask → PipelineTask
last_or t [] = t
last_or t (u ∷ us) = last_or u us

unfoldable pub validate_range : Rule → List PipelineTask → Bool
validate_range rule [] = false
validate_range rule (t ∷ ts) = rule.validate t (last_or t ts)

-- The tasks before the range, in it and after it.
pub record Target : Type 0 where
  pub before : List PipelineTask
  pub range : List PipelineTask
  pub after : List PipelineTask

-- The loop body on the range that `std::search` found.
unfoldable pub judge :
    Rule → List Connection → List PipelineTask → List PipelineTask → Option Match → Option Target
unfolding outside_connections validate_range
judge rule cs before tasks none = none
judge rule cs before tasks (some (range, after)) =
    if not (outside_connections cs rule.to_optimize tasks []) && validate_range rule range
    then some (record { before = before; range = range; after = after })
    else none

unfoldable pub target_here :
    Rule → List Connection → List PipelineTask → List PipelineTask → Option Target
unfolding match_names judge
target_here rule cs before tasks = judge rule cs before tasks (match_names rule.to_optimize tasks)

-- The earlier target, if there is one.
unfoldable pub or_else : Option Target → Option Target → Option Target
or_else none later = later
or_else (some target) later = some target

unfoldable pub find_from :
    Rule → List Connection → List PipelineTask → List PipelineTask → Option Target
unfolding target_here or_else
find_from rule cs before [] = none
find_from rule cs before (t ∷ ts) =
    or_else (target_here rule cs before (t ∷ ts)) (find_from rule cs (before ++ t ∷ []) ts)

-- `findOptimizationTarget`; `none` is the pair of two end iterators.
unfoldable pub find_optimization_target : Rule → List Connection → List PipelineTask → Option Target
unfolding find_from
find_optimization_target rule cs tasks = find_from rule cs [] tasks
