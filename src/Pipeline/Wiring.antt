-- ===== src/Pipeline/Wiring.antt =====
-- What the connections of a new pipeline are.
use joda.Base.{
  length, length-append, ℕ, suc, ◌+◌, min, ◌≤◌, true, false, ◌||◌, Option, none, some, List, [],
  ◌∷◌, ◌++◌, ◌==◌, ==_iff, ◌≡◌, refl, ap, arith, All, Bool-cases, inl, inr, ◌>>=◌, ◌∙◌,
}
use joda.Planner.TaskId.{TaskId, id_eq, filter_agg_pipeline}
use joda.Pipeline.Queues.{check-casts_to}
use joda.Pipeline.Rule.{PipelineTask}
use joda.Pipeline.Target.{Numbered}
use joda.Pipeline.Build.{
  new_connections, Pipeline, new_pipeline, has_queue, emplace, find_queue, set_outputs, casts,
  feeds, number, count, connect, add_task_at, add_task, add_tasks, previous_threads,
}
use joda.Pipeline.Outputs.{Wired, Wired-set_outputs, Wired-snoc}

-- A task as its constructor leaves it.
abbrev pub IsFresh : PipelineTask → Type 0
IsFresh t = (t.num ≡ 0) × (t.input_q ≡ false) × (t.output_q ≡ none)

-- The tasks have the numbers that follow `n`, in order.
abbrev pub Counted : ℕ → List PipelineTask → Type 0
Counted n [] = Unit
Counted n (t ∷ ts) = (t.num ≡ n + 1) × Counted (n + 1) ts

Counted-snoc :
    (n : ℕ) (ts : List PipelineTask) (u : PipelineTask)
    → Counted n ts
    → u.num ≡ n + length ts + 1
    → Counted n (ts ++ u ∷ [])
Counted-snoc n [] u h e = (omega arith, tt)
Counted-snoc n (t ∷ ts) u h e = (h.0, Counted-snoc (n + 1) ts u h.1 (omega arith))

Counted-set_outputs :
    (num : ℕ) (id : TaskId) (n : ℕ) (ts : List PipelineTask)
    → Counted n ts
    → Counted n (set_outputs num id ts)
unfolding set_outputs
Counted-set_outputs num id n [] h = tt
Counted-set_outputs num id n (t ∷ ts) h = (ground arith, Counted-set_outputs num id (n + 1) ts h.1)

length-set_outputs :
    (num : ℕ) (id : TaskId) (ts : List PipelineTask) → length (set_outputs num id ts) ≡ length ts
unfolding set_outputs
length-set_outputs num id [] = refl
length-set_outputs num id (t ∷ ts) = ap suc (length-set_outputs num id ts)

-- What holds of a pipeline while tasks are added at its end.
record Built (p : Pipeline) : Type 0 where
  wired : Wired p.tasks
  counted : Counted 0 p.tasks
  size : p.curr_num ≡ length p.tasks
  keys : (n : ℕ) → has_queue n p.queues ≡ true → n ≤ p.curr_num

Built-new_pipeline : Built new_pipeline
unfolding has_queue
Built-new_pipeline = record { wired = tt; counted = tt; size = refl; keys = λ n h. cc }

no_queue : (p : Pipeline) → Built p → has_queue (p.curr_num + 1) p.queues ≡ false
no_queue p h = elim (Bool-cases (has_queue (p.curr_num + 1) p.queues)) [
  | inl e ↦ absurd (omega (arith, h.keys (p.curr_num + 1) e))
  | inr e ↦ e
]

-- The new task in the pipeline, and the pipeline after it.
entered : PipelineTask → ℕ → PipelineTask
entered t num = record t { num = num; input_q = t.input_q || t.has_input }

same : (n : ℕ) → (n == n) ≡ true
same n = (==_iff n n).1 refl

add_task-source :
    (max_threads : ℕ) (p : Pipeline) (t : PipelineTask)
    → Built p
    → IsFresh t
    → t.has_input ≡ false
    → add_task max_threads p t
      ≡ some (record p {
        tasks = p.tasks ++ entered t (p.curr_num + 1) ∷ [];
        curr_num = p.curr_num + 1;
        queues = (p.curr_num + 1, none) ∷ p.queues;
      })
unfolding add_task add_task_at number count emplace find_queue connect entered
add_task-source max_threads p t h (zero_num, no_input, no_output) i =
    rw zero_num (rw i (rw (no_queue p h) (rw (same (p.curr_num + 1)) refl)))

-- The producers of the new task's queue.
producers : ℕ → Pipeline → PipelineTask → ℕ
producers max_threads p t = min (previous_threads max_threads t.name p.tasks) max_threads

add_task-consumer :
    (max_threads : ℕ) (p : Pipeline) (t : PipelineTask)
    → Built p
    → IsFresh t
    → t.has_input ≡ true
    → casts t.name p.tasks ≡ true
    → add_task max_threads p t
      ≡ some (record {
        tasks = set_outputs (p.curr_num + 1) t.name p.tasks ++ entered t (p.curr_num + 1) ∷ [];
        curr_num = p.curr_num + 1;
        queues = (p.curr_num + 1, some (producers max_threads p t)) ∷ p.queues;
        connections = p.connections ++ new_connections (p.curr_num + 1) t.name p.tasks;
      })
unfolding add_task add_task_at number count emplace find_queue connect entered producers has_queue
add_task-consumer max_threads p t h (zero_num, no_input, no_output) i fit = rw zero_num (
    rw i (
      rw no_input (
        rw (no_queue p h) (rw (same (p.curr_num + 1)) (rw (same (p.curr_num + 1)) (rw fit refl))))))

-- A new queue keeps the keys below the new counter.
keys_grow :
    (q : Option ℕ) (p : Pipeline)
    → Built p
    → (n : ℕ) → has_queue n ((p.curr_num + 1, q) ∷ p.queues) ≡ true
    → n ≤ p.curr_num + 1
unfolding has_queue
keys_grow q p h n e = elim (Bool-cases (has_queue n p.queues)) [
  | inl f ↦ omega (arith, h.keys n f)
  | inr f ↦ omega (arith, (==_iff (p.curr_num + 1) n).0 (ground arith))
]

casts-other :
    (id : TaskId)
    → id_eq id filter_agg_pipeline ≡ false
    → (ts : List PipelineTask) → casts id ts ≡ true
unfolding casts feeds
casts-other id other [] = refl
casts-other id other (t ∷ ts) =
    ground (arith, casts-other id other ts, check-casts_to t.name id, other)

Built-add_task :
    (max_threads : ℕ) (p : Pipeline) (t : PipelineTask)
    → Built p
    → IsFresh t
    → id_eq t.name filter_agg_pipeline ≡ false
    → (q : Pipeline) × (add_task max_threads p t ≡ some q) × Built q
unfolding entered
Built-add_task max_threads p t h fresh other =
    let last = entered t (p.curr_num + 1) in
    elim (Bool-cases t.has_input) [
      | inl i ↦ (
        _,
        add_task-consumer max_threads p t h fresh i (casts-other t.name other p.tasks),
        (let fed = set_outputs (p.curr_num + 1) t.name p.tasks in
            let fed_length = length-set_outputs (p.curr_num + 1) t.name p.tasks in
            let whole = length-append fed (last ∷ []) in
            record {
              wired = Wired-set_outputs last i fresh.2 p.tasks h.wired;
              counted =
                  Counted-snoc 0 fed last
                    (Counted-set_outputs (p.curr_num + 1) t.name 0 p.tasks h.counted)
                    (omega (arith, h.size, fed_length));
              size = omega (arith, h.size, fed_length, whole);
              keys = keys_grow _ p h;
            }),
      )
      | inr i ↦ (
        _,
        add_task-source max_threads p t h fresh i,
        (let whole = length-append p.tasks (last ∷ []) in
            record {
              wired = Wired-snoc last i fresh.2 p.tasks h.wired;
              counted = Counted-snoc 0 p.tasks last h.counted (omega (arith, h.size));
              size = omega (arith, h.size, whole);
              keys = keys_grow _ p h;
            }),
      )
    ]

Built-add_tasks :
    (max_threads : ℕ) (p : Pipeline) (ts : List PipelineTask)
    → Built p
    → All IsFresh ts
    → All (λ t. id_eq t.name filter_agg_pipeline ≡ false) ts
    → (q : Pipeline) × (add_tasks max_threads p ts ≡ some q) × Built q
unfolding add_tasks
Built-add_tasks max_threads p [] h fresh other = (p, refl, h)
Built-add_tasks max_threads p (t ∷ ts) h fresh other =
    let one = Built-add_task max_threads p t h fresh.0 other.0 in
    let rest = Built-add_tasks max_threads one.0 ts one.2 fresh.1 other.1 in
    (rest.0, ap (λ o. o >>= λ q. add_tasks max_threads q ts) one.1 ∙ rest.1, rest.2)

-- Any tasks, as their constructors leave them and with no FilterAggPipeline among them, are added to a
-- new pipeline one by one without a cast of a queue that fails. After that the tasks have the numbers
-- from one on, and the output of each, if its type has one, is the queue of the
-- first later task that has an input and that the tables let it feed, or of none if there is none.
pub add_tasks-Wired :
    (max_threads : ℕ) (ts : List PipelineTask)
    → All IsFresh ts
    → All (λ t. id_eq t.name filter_agg_pipeline ≡ false) ts
    → (p : Pipeline) × (add_tasks max_threads new_pipeline ts ≡ some p)
      × Counted 0 p.tasks
      × Wired p.tasks
add_tasks-Wired max_threads ts fresh other =
    let built = Built-add_tasks max_threads new_pipeline ts Built-new_pipeline fresh other in
    (built.0, built.1, built.2.counted, built.2.wired)

-- So neighbours have different numbers, which the rules of the optimisation rest on.
pub Counted-Numbered : (n : ℕ) (ts : List PipelineTask) → Counted n ts → Numbered ts
Counted-Numbered n [] h = tt
Counted-Numbered n (t ∷ []) h = tt
Counted-Numbered n (t ∷ u ∷ ts) h =
    (ground (arith, h.0, h.1.0), Counted-Numbered (n + 1) (u ∷ ts) h.1)
