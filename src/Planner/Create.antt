-- ===== src/Planner/Create.antt =====
-- libs/joda/core/modules/queryexecution/src/PipelineQueryPlan.cpp: the plan of a query, `createPlan`,
-- `createSubPlan` and the functions for its parts. What a plan needs of a query, and of the sources and
-- the destination that it names, is the record `Parts`.
use joda.Base.{
  ℕ, suc, ◌+◌, ◌*◌, ◌/◌, ◌%◌, ◌^◌, max, Bool, true, false, not, ◌&&◌, ◌||◌, Option, none, some,
  List, [], ◌∷◌, ◌++◌, length, if◌then◌else◌, ◌>>=◌, ◌==◌,
}
use joda.Base.Text.{Str}
use joda.Planner.TaskId.{
  TaskId, ls_list_file, list_file, ls_list_dir, list_dir, in_stream, url_stream, python_import,
  load_join_files, load_join, storage_receiver, storage_sender, inner_join, outer_join,
  choose_pipeline, agg_pipeline, window_agg,
}
use joda.Planner.Plan.{
  SimMeasure, Task, plain, Plan, new_plan, add_task, add_fuel, resolve_requirements,
}

-- The classes of import sources; the flag of the first two is `lineSeparated`.
pub data ImportKind : Type 0 where
  file_source directory_source : Bool → ImportKind
  in_stream_source url_source python_source : ImportKind

-- The name of the task that `getTask()` makes.
unfoldable pub task_of : ImportKind → TaskId
task_of (file_source separated) = if separated then ls_list_file else list_file
task_of (directory_source separated) = if separated then ls_list_dir else list_dir
task_of in_stream_source = in_stream
task_of url_source = url_stream
task_of python_source = python_import

-- An import source with its `estimatedSize()`, which is a size on disk.
pub record Source : Type 0 where
  pub kind : ImportKind
  pub estimated_size : ℕ

pub data LoadJoin : Type 0 where
  no_load_join file_load_join memory_load_join : LoadJoin

pub data Export : Type 0 where
  no_export : Export
  storage_export : Str → Export
  task_export : TaskId → Export

pub record Parts : Type 0 where
  pub import_sources : List Source
  pub load_join : LoadJoin
  pub load : Str
  -- `chooseIsConst`
  pub const_choose : Option Bool
  pub has_projectors : Bool
  pub has_aggregators : Bool
  -- 0 for no window
  pub agg_window_size : ℕ
  pub export_destination : Export

mutual
  pub data Query : Type 0 where
    query : Parts → Join → Query

  pub data Join : Type 0 where
    no_join : Join
    join_partner : Str → Join
    join_subquery : Query → Join

abbrev no_destination : Export → Bool
no_destination no_export = true
no_destination _ = false

abbrev joins : Join → Bool
joins no_join = false
joins _ = true

abbrev is_true : Option Bool → Bool
is_true (some b) = b
is_true none = false

-- `Query::hasChoose`
abbrev pub has_choose : Parts → Bool
has_choose q = not (is_true q.const_choose)

-- `Query::isDefault`
abbrev pub is_default : Parts → Join → Bool
is_default q j =
    not (has_choose q)
    && not q.has_aggregators
    && not q.has_projectors
    && not (joins j)
    && no_destination q.export_destination

abbrev pub is_empty {ℓ} : {A : Type ℓ} → List A → Bool
is_empty [] = true
is_empty (x ∷ xs) = false

storage_task : TaskId → Str → Task
storage_task id name = record { id = id; container_size = 0; storage = name }

-- `config::sim_measure` and `max_threads`.
pub record Config : Type 0 where
  pub sim_measure : SimMeasure
  pub max_threads : ℕ

-- The default container size, 50 MB.
abbrev default_size : ℕ
default_size = 50 * 1024 * 1024

-- `unsigned long` sums wrap.
abbrev u64 : ℕ → ℕ
u64 n = n % 2 ^ 64

module _ (config : Config) where
  -- `addTask(task)`
  abbrev pub add : Task → Plan → Option Plan
  add t p = add_task add_fuel config.sim_measure t true p

  -- The loop over the import sources.
  unfoldable pub plan_sources : List Source → Plan → Option Plan
  unfolding task_of
  plan_sources [] p = some p
  plan_sources (s ∷ rest) p =
      add_task add_fuel config.sim_measure (plain (task_of s.kind)) false (record p {
        stream_size = u64 (p.stream_size + s.estimated_size);
        ls_size = u64 (p.ls_size + s.estimated_size);
      })
      >>= plan_sources rest

  -- Every requirement is outstanding once, so the queue's length and one more is enough fuel.
  unfoldable pub resolve_all : Plan → Option Plan
  resolve_all p = resolve_requirements (suc (length p.unfulfilled)) config.sim_measure p

  -- `none` is a division by zero.
  unfoldable pub container_sizes : Plan → Option Plan
  container_sizes p =
      if u64 (config.max_threads * 2) == 0
      then none
      else some (record p {
        stream_size = max default_size (p.stream_size / u64 (config.max_threads * 2));
        ls_size = max default_size (p.ls_size / u64 (config.max_threads * 2));
      })

  unfoldable pub plan_load_join : LoadJoin → Plan → Option Plan
  plan_load_join no_load_join p = some p
  plan_load_join file_load_join p = add (plain load_join_files) p
  plan_load_join memory_load_join p = add (plain load_join) p

  -- The part of `planLOAD` for a named storage; the flag is `currentIsStored`.
  unfoldable pub plan_storage : Str → Bool → Plan → Option (Plan × Bool)
  unfolding storage_task
  plan_storage name default p =
      if is_empty name
      then some (p, false)
      else (if is_empty p.task_queue
          then some (p, false)
          else (add (storage_task storage_receiver name) p >>= λ q. some (q, true)))
        >>= λ (q, stored).
            if default
            then some (q, stored)
            else (add (storage_task storage_sender name) q >>= λ q'. some (q', stored))

  unfoldable pub plan_load : Parts → Bool → Plan → Option (Plan × Bool)
  unfolding plan_sources container_sizes resolve_all plan_load_join plan_storage
  plan_load q default p = plan_sources q.import_sources p >>= λ p.
      container_sizes p
      >>= resolve_all
      >>= plan_load_join q.load_join
      >>= plan_storage q.load default

  -- A predicate that is constant gets the constant executor alone; the task is the same.
  unfoldable pub plan_choose : Parts → Plan → Option Plan
  plan_choose q p =
      if not (has_choose q) && not q.has_projectors then some p else add (plain choose_pipeline) p

  unfoldable pub plan_agg : Parts → Plan → Option Plan
  plan_agg q p =
      if not q.has_aggregators
      then some p
      else add (plain (if q.agg_window_size == 0 then agg_pipeline else window_agg)) p

  unfoldable pub plan_export : Export → Plan → Option Plan
  unfolding storage_task
  -- A storage for the result, by its number.
  plan_export no_export p = add (plain storage_receiver) p
  plan_export (storage_export name) p = add (storage_task storage_receiver name) p
  plan_export (task_export id) p = add (plain id) p

  -- `planSTORE()`, with `lastQuery` at its default.
  unfoldable pub plan_store : Parts → Bool → Bool → Plan → Option Plan
  unfolding plan_export
  plan_store q default stored p =
      if is_empty p.task_queue || (stored && default)
      then some p
      else plan_export q.export_destination p

  -- `createSubPlan`, with `planJOIN` for the query's own join.
  unfoldable pub create_sub_plan : Parts → Bool → (Plan → Option Plan) → Option Plan
  unfolding plan_load plan_choose plan_agg resolve_all
  create_sub_plan q default join = plan_load q default new_plan >>= λ (p, stored).
      join p >>= plan_choose q >>= plan_agg q >>= resolve_all

  unfoldable mutual
    -- `planJOIN`
    pub plan_join : Join → Plan → Option Plan
    plan_join no_join p = some p
    plan_join (join_partner name) p =
        add (plain inner_join) p
        >>= add (record { id = storage_sender; container_size = 0; storage = name })
        >>= add (plain outer_join)
    plan_join (join_subquery sub) p =
        add (plain inner_join) p >>= plan_subquery sub >>= add (plain outer_join)

    -- The tasks of a subquery join the queue; their names do not join `addedIDs`.
    pub plan_subquery : Query → Plan → Option Plan
    plan_subquery (query q j) p =
        if is_default q j && is_empty q.import_sources
        then add (record { id = storage_sender; container_size = 0; storage = q.load }) p
        else (create_sub_plan q (is_default q j) (plan_join j) >>= λ s.
            some (record p { task_queue = p.task_queue ++ s.task_queue }))

  -- `createPlan`, up to the tasks that it commits to the pipeline.
  unfoldable pub create_plan : Query → Plan → Option Plan
  unfolding plan_load plan_join plan_choose plan_agg plan_store resolve_all
  create_plan (query q j) p = plan_load q (is_default q j) p >>= λ (p', stored).
      plan_join j p'
      >>= plan_choose q
      >>= plan_agg q
      >>= plan_store q (is_default q j) stored
      >>= resolve_all

  -- `commitTasks`, once the tasks are in the pipeline.
  unfoldable pub commit_tasks : Plan → Plan
  commit_tasks p = record p { task_queue = []; added_ids = [] }
