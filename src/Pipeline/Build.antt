-- ===== src/Pipeline/Build.antt =====
-- libs/joda/core/modules/queryexecution/src/pipeline/Pipeline.cpp: a task joins the pipeline and is
-- connected, `addTask` and `addTaskAt`. A queue is the number of its producers; a null pointer is `none`.
use joda.Base.{
  ℕ, ◌+◌, min, Bool, true, false, not, ◌&&◌, ◌||◌, Option, none, some, List, [], ◌∷◌, ◌++◌, ◌==◌,
  if◌then◌else◌, ◌>>=◌,
}
use joda.Planner.TaskId.{TaskId}
use joda.Planner.Tables.{check}
use joda.Pipeline.Queues.{casts_to}
use joda.Pipeline.Rule.{AsyncType, multi_threaded, PipelineTask, Connection}

-- `Pipeline`, without its timers.
pub record Pipeline : Type 0 where
  pub tasks : List PipelineTask
  pub curr_num : ℕ
  pub queues : List (ℕ × Option ℕ)
  pub connections : List Connection

abbrev pub new_pipeline : Pipeline
new_pipeline = record { tasks = []; curr_num = 0; queues = []; connections = [] }

abbrev pub is_set : Option ℕ → Bool
is_set none = false
is_set (some n) = true

abbrev pub input_connected : PipelineTask → Bool
input_connected t = not t.has_input || t.input_q

abbrev pub output_connected : PipelineTask → Bool
output_connected t = not t.has_output || is_set t.output_q

unfoldable pub has_queue : ℕ → List (ℕ × Option ℕ) → Bool
has_queue num [] = false
has_queue num ((n, q) ∷ rest) = n == num || has_queue num rest

-- `unordered_map::emplace`, and `queues[num]` with a null pointer.
unfoldable pub emplace : ℕ → Option ℕ → List (ℕ × Option ℕ) → List (ℕ × Option ℕ)
unfolding has_queue
emplace num q qs = if has_queue num qs then qs else (num, q) ∷ qs

unfoldable pub find_queue : ℕ → List (ℕ × Option ℕ) → Option ℕ
find_queue num [] = none
find_queue num ((n, q) ∷ rest) = let later = find_queue num rest in if n == num then q else later

-- The threads that write into a task's queue.
abbrev pub threads_of : ℕ → AsyncType → ℕ
threads_of max_threads multi_threaded = max_threads
threads_of max_threads _ = 1

-- The test of both loops: the task can feed the new one, and feeds none yet.
unfoldable pub feeds : TaskId → PipelineTask → Bool
feeds id t = check t.name id && not (output_connected t)

unfoldable pub previous_threads : ℕ → TaskId → List PipelineTask → ℕ
unfolding feeds
previous_threads max_threads id [] = 0
previous_threads max_threads id (t ∷ ts) =
    (if feeds id t then threads_of max_threads t.async else 0) + previous_threads max_threads id ts

-- `setOutputQueue` on the tasks that can feed the new one, and their connections.
unfoldable pub set_outputs : ℕ → TaskId → List PipelineTask → List PipelineTask
unfolding feeds
set_outputs num id [] = []
set_outputs num id (t ∷ ts) =
    (if feeds id t then record t { output_q = some num } else t) ∷ set_outputs num id ts

unfoldable pub new_connections : ℕ → TaskId → List PipelineTask → List Connection
unfolding feeds
new_connections num id [] = []
new_connections num id (t ∷ ts) =
    let rest = new_connections num id ts in if feeds id t then (t.num, num) ∷ rest else rest

-- Whether the casts of `setOutputQueue` succeed for all of them. Where one does not, DCHECK aborts, or
-- a null pointer is followed.
unfoldable pub casts : TaskId → List PipelineTask → Bool
unfolding feeds
casts id [] = true
casts id (t ∷ ts) = (not (feeds id t) || casts_to t.name id) && casts id ts

-- The task's number, and the counter after it.
unfoldable pub number : PipelineTask → ℕ → ℕ
number t curr_num = if t.num == 0 then curr_num + 1 else t.num

unfoldable pub count : PipelineTask → ℕ → ℕ
count t curr_num = if t.num == 0 then curr_num + 1 else curr_num

-- Connects the tasks before the new one, if it has a queue.
unfoldable pub connect :
    PipelineTask → List PipelineTask → List PipelineTask → Option ℕ → Pipeline → Option Pipeline
unfolding set_outputs new_connections casts
connect t before after none p = some (record p { tasks = before ++ t ∷ after })
connect t before after (some q) p =
    if casts t.name before
    then some (record p {
      tasks = set_outputs t.num t.name before ++ t ∷ after;
      connections = p.connections ++ new_connections t.num t.name before;
    })
    else none

-- `addTaskAt`, between the tasks before the iterator and those from it on.
unfoldable pub add_task_at :
    ℕ → PipelineTask → List PipelineTask → List PipelineTask → Pipeline → Option Pipeline
unfolding number count previous_threads emplace find_queue connect
add_task_at max_threads t before after p =
    let num = number t p.curr_num in
    let queue = min (previous_threads max_threads t.name before) max_threads in
    let created = if input_connected t then p.queues else emplace num (some queue) p.queues in
    let queues = emplace num none created in
    connect (record t { num = num; input_q = t.input_q || t.has_input }) before after
      (find_queue num queues) (record p { curr_num = count t p.curr_num; queues = queues })

unfoldable pub add_task : ℕ → Pipeline → PipelineTask → Option Pipeline
unfolding add_task_at
add_task max_threads p t = add_task_at max_threads t p.tasks [] p

-- The tasks that `commitTasks` hands over, one after another.
unfoldable pub add_tasks : ℕ → Pipeline → List PipelineTask → Option Pipeline
unfolding add_task
add_tasks max_threads p [] = some p
add_tasks max_threads p (t ∷ ts) = add_task max_threads p t >>= λ q. add_tasks max_threads q ts
