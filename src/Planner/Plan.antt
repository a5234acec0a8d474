-- ===== src/Planner/Plan.antt =====
-- libs/joda/core/modules/queryexecution/src/PipelineQueryPlan.cpp: the task queue of a plan, and how
-- adding a task brings in the tasks that it needs. The three functions call one another, so
-- `add_task` takes fuel; `none` means that it ran out. `createPlan` and its parts are not here.
use joda.Base.{
  ℕ, zero, suc, Bool, true, Option, none, some, List, [], ◌∷◌, ◌++◌, if◌then◌else◌, ◌>>=◌,
}
use joda.Base.Text.{Str}
use joda.Planner.TaskId.{
  TaskId, contains, erase, ls_file_opener, unformatted_file_opener, line_separated_stream_reader,
  default_text_parser, path_jaccard_text_parser, attribute_jaccard_text_parser,
  default_stream_parser, path_jaccard_stream_parser, attribute_jaccard_stream_parser, as_pipeline,
  agg_merger, load_join_file_parser, json_stringifier,
}
use joda.Planner.Tables.{requirement, prerequisite}

-- `config::Sim_Measures`
pub data SimMeasure : Type 0 where
  no_similarity path_jaccard attribute_jaccard : SimMeasure

-- A task before it is in a pipeline: its name, the container size of a parser, and the storage that a
-- storage task names.
pub record Task : Type 0 where
  pub id : TaskId
  pub container_size : ℕ
  pub storage : Str

abbrev pub plain : TaskId → Task
plain id = record { id = id; container_size = 0; storage = [] }

abbrev pub parser : TaskId → ℕ → Task
parser id size = record { id = id; container_size = size; storage = [] }

pub record Plan : Type 0 where
  pub task_queue : List Task
  pub unfulfilled : List TaskId
  pub added_ids : List TaskId
  pub stream_size : ℕ
  pub ls_size : ℕ

abbrev pub new_plan : Plan
new_plan = record {
  task_queue = [];
  unfulfilled = [];
  added_ids = [];
  stream_size = 0;
  ls_size = 0;
}

-- `addTask` as its callers see it.
abbrev pub Adder : Type 0
Adder = Task → Bool → Plan → Option Plan

unfoldable pub text_parser : SimMeasure → TaskId
text_parser path_jaccard = path_jaccard_text_parser
text_parser attribute_jaccard = attribute_jaccard_text_parser
text_parser no_similarity = default_text_parser

unfoldable pub stream_parser : SimMeasure → TaskId
stream_parser path_jaccard = path_jaccard_stream_parser
stream_parser attribute_jaccard = attribute_jaccard_stream_parser
stream_parser no_similarity = default_stream_parser

-- The branches of `resolveRequirement` after its early return.
unfoldable pub add_required : Adder → SimMeasure → TaskId → Plan → Option Plan
unfolding text_parser stream_parser
add_required add sim ls_file_opener p = add (plain ls_file_opener) true p
add_required add sim unformatted_file_opener p = add (plain unformatted_file_opener) true p
add_required add sim line_separated_stream_reader p =
    add (plain line_separated_stream_reader) true p
add_required add sim default_text_parser p = do
  p' ← add (parser (text_parser sim) p.ls_size) true p
  some (record p' { ls_size = 0 })
add_required add sim default_stream_parser p = do
  p' ← add (parser (stream_parser sim) p.stream_size) true p
  some (record p' { stream_size = 0 })
add_required add sim as_pipeline p = add (plain as_pipeline) true p
add_required add sim agg_merger p = add (plain agg_merger) true p
add_required add sim load_join_file_parser p = add (plain load_join_file_parser) true p
add_required add sim unknown p = some (record p { unfulfilled = erase p.unfulfilled unknown })

unfoldable pub resolve_requirement : Adder → SimMeasure → Option TaskId → Plan → Option Plan
resolve_requirement add sim none p = some p
resolve_requirement add sim (some r) p =
    if contains p.added_ids r then some p else add_required add sim r p

-- An unknown prerequisite fails a debug check and is then left out.
unfoldable pub add_prerequisite : Adder → TaskId → Plan → Option Plan
add_prerequisite add json_stringifier p = add (plain json_stringifier) true p
add_prerequisite add unknown p = some p

unfoldable pub resolve_prerequisite : Adder → Option TaskId → Plan → Option Plan
resolve_prerequisite add none p = some p
resolve_prerequisite add (some r) p =
    if contains p.added_ids r then some p else add_prerequisite add r p

-- The middle of `addTask`: the requirement that the task fulfils goes, and the task is queued.
unfoldable pub enqueue : Task → Plan → Plan
enqueue t p = record p {
  unfulfilled = erase p.unfulfilled t.id;
  added_ids = t.id ∷ p.added_ids;
  task_queue = p.task_queue ++ t ∷ [];
}

-- The task's own requirement is remembered, once.
unfoldable pub remember : Option TaskId → Plan → Plan
remember none p = p
remember (some r) p =
    if contains p.unfulfilled r then p else record p { unfulfilled = p.unfulfilled ++ r ∷ [] }

unfoldable pub add_task : ℕ → SimMeasure → Adder
unfolding resolve_requirement resolve_prerequisite add_required add_prerequisite enqueue remember
add_task zero sim t instant p = none
add_task (suc fuel) sim t instant p =
    resolve_prerequisite (add_task fuel sim) (prerequisite t.id) p >>= λ p'.
    if instant
    then resolve_requirement (add_task fuel sim) sim (requirement t.id) (enqueue t p')
    else some (remember (requirement t.id) (enqueue t p'))

-- A task brings in a chain of at most three more, so four calls are enough.
abbrev pub add_fuel : ℕ
add_fuel = 4

unfoldable pub resolve_front : SimMeasure → TaskId → Plan → Option Plan
unfolding add_task
resolve_front sim r p = resolve_requirement (add_task add_fuel sim) sim (some r) p

-- One test of the loop below, on the outstanding requirements, and the rest of its rounds.
unfoldable pub resolve_from : (Plan → Option Plan) → SimMeasure → List TaskId → Plan → Option Plan
resolve_from again sim [] p = some p
resolve_from again sim (r ∷ rest) p = resolve_front sim r p >>= again

-- `while (!unfulfilledRequirements.empty()) resolveRequirement(front())`
unfoldable pub resolve_requirements : ℕ → SimMeasure → Plan → Option Plan
unfolding resolve_from
resolve_requirements zero sim p = none
resolve_requirements (suc fuel) sim p =
    resolve_from (resolve_requirements fuel sim) sim p.unfulfilled p
