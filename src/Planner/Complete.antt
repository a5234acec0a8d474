-- ===== src/Planner/Complete.antt =====
-- `createPlan` ends, and its tasks stand beside what they need, where no similarity measure is set.
use joda.Base.{
  none, some, List, ℕ, ◌*◌, ◌%◌, ◌^◌, ◌<◌, ◌==◌, Bool, true, false, Option, some, [], ◌++◌, ◌≡◌,
  refl, ap, ◌∙◌, arith, All, All-append, All-imp, ◌>>=◌, if◌then◌else◌,
}
use joda.Base.Text.{Str}
use joda.Planner.TaskId.{TaskId, contains, load_join_files, load_join, choose_pipeline}
use joda.Planner.Tables.{requirement}
use joda.Planner.Plan.{Task, plain, Plan, new_plan}
use joda.Planner.Grows.{ids, contains-append}
use joda.Planner.Good.{Satisfied, Good, Ends, Ends-bind, Ends-add, Ends-resolve, Done}
use joda.Planner.Create.{
  LoadJoin, no_load_join, file_load_join, memory_load_join, Export, no_export, storage_export,
  task_export, Parts, Query, query, Join, no_join, join_partner, join_subquery, is_empty,
  is_default, plan_sources, resolve_all, container_sizes, plan_load_join, plan_storage, plan_load,
  plan_choose, plan_agg, plan_export, plan_store, create_sub_plan, plan_join, plan_subquery,
  create_plan,
}
use joda.Planner.Imports.{exact, plan_sources-Good}

contains-nil : (r : TaskId) → contains [] r ≡ false
unfolding contains
contains-nil r = refl

-- A step of the planner that ends and keeps the invariant, whatever the branch.
abbrev Keeps : (Plan → Option Plan) → Type 0
Keeps step = (p : Plan) → Good p → Ends Good (step p)

Keeps-then : (f g : Plan → Option Plan) → Keeps f → Keeps g → Keeps (λ p. f p >>= g)
Keeps-then f g h k p good = Ends-bind Good Good (f p) g (h p good) k

Ends-if {ℓ κ} :
    {A : Type ℓ} (P : A → Type κ) (b : Bool) (x y : Option A)
    → Ends P x
    → Ends P y
    → Ends P (if b then x else y)
Ends-if P true x y h k = h
Ends-if P false x y h k = k

-- The plan of a step that also returns a flag.
abbrev First : Plan × Bool → Type 0
First r = Good r.0

-- In the queue of a plan stands what the task needs after it.
abbrev Queued : Plan → Task → Type 0
Queued p t = (r : TaskId) → requirement t.id ≡ some r → contains (ids p.task_queue) r ≡ true

Satisfied-Done : (p : Plan) (t : Task) → Done p → Satisfied p t → Queued p t
Satisfied-Done p t done k r e =
    let none_left : contains p.unfulfilled r ≡ false =
      ap (λ xs. contains xs r) done.1 ∙ contains-nil r in
    ground (arith, k r e)

-- The tasks of a finished plan, put behind the queue of another.
joined : Plan → Plan → Plan
joined p s = record p { task_queue = p.task_queue ++ s.task_queue }

Good-joined : (p s : Plan) → Good p → Done s → Good (joined p s)
unfolding joined
Good-joined p s h done =
    let queued = contains-append p.task_queue s.task_queue in
    record {
      disjoint = h.disjoint;
      required = h.required;
      linked = λ r m. ground (arith, queued r, h.linked r m);
      satisfied =
          All-append (Satisfied (joined p s)) p.task_queue s.task_queue
            (All-imp (Satisfied p) (Satisfied (joined p s))
              (λ t k r e. ground (arith, queued r, k r e)) p.task_queue h.satisfied)
            (All-imp (Satisfied s) (Satisfied (joined p s))
              (λ t k r e. ground (arith, queued r, Satisfied-Done s t done k r e)) s.task_queue
              done.0.satisfied);
    }

module _ (threads : ℕ) (some_threads : 0 < threads) (few_threads : threads < 2 ^ 63) where
  load_join-Keeps : (j : LoadJoin) → Keeps (plan_load_join (exact threads) j)
  unfolding plan_load_join
  load_join-Keeps no_load_join p h = (p, refl, h)
  load_join-Keeps file_load_join p h = Ends-add (plain load_join_files) p h
  load_join-Keeps memory_load_join p h = Ends-add (plain load_join) p h

  choose-Keeps : (q : Parts) → Keeps (plan_choose (exact threads) q)
  unfolding plan_choose
  choose-Keeps q p h = Ends-if Good _ (some p) _ (p, refl, h) (Ends-add (plain choose_pipeline) p h)

  agg-Keeps : (q : Parts) → Keeps (plan_agg (exact threads) q)
  unfolding plan_agg
  agg-Keeps q p h = Ends-if Good _ (some p) _ (p, refl, h) (Ends-add _ p h)

  export-Keeps : (e : Export) → Keeps (plan_export (exact threads) e)
  unfolding plan_export
  export-Keeps no_export p h = Ends-add _ p h
  export-Keeps (storage_export name) p h = Ends-add _ p h
  export-Keeps (task_export id) p h = Ends-add _ p h

  store-Keeps :
      (q : Parts) (default stored : Bool) → Keeps (plan_store (exact threads) q default stored)
  unfolding plan_store
  store-Keeps q default stored p h =
      Ends-if Good _ (some p) _ (p, refl, h) (export-Keeps q.export_destination p h)

  resolve-Ends : (p : Plan) → Good p → Ends Done (resolve_all (exact threads) p)
  unfolding resolve_all
  resolve-Ends p h = Ends-resolve p h

  sized-Ends : Keeps (container_sizes (exact threads))
  unfolding container_sizes
  sized-Ends p h =
      let positive : (threads * 2) % 2 ^ 64 == 0 ≡ false =
        ground (arith, some_threads, few_threads) in
      rw positive (
        _,
        refl,
        record {
          disjoint = h.disjoint;
          required = h.required;
          linked = h.linked;
          satisfied = h.satisfied;
        },
      )

  storage-Ends :
      (name : Str) (default : Bool) (p : Plan)
      → Good p
      → Ends First (plan_storage (exact threads) name default p)
  unfolding plan_storage
  storage-Ends name default p h =
      Ends-if First (is_empty name) _ _ ((p, false), refl, h)
        (Ends-bind First First _ _
          (Ends-if First (is_empty p.task_queue) _ _ ((p, false), refl, h)
            (Ends-bind Good First _ _ (Ends-add _ p h) (λ q good. ((q, true), refl, good))))
          (λ r good.
            Ends-if First default _ _ (r, refl, good)
              (Ends-bind Good First _ _ (Ends-add _ r.0 good) (λ q done. ((q, r.1), refl, done)))))

  load-Ends :
      (q : Parts) (default : Bool) → Ends First (plan_load (exact threads) q default new_plan)
  unfolding plan_load
  load-Ends q default =
      Ends-bind Good First (plan_sources (exact threads) q.import_sources new_plan) _
        (plan_sources-Good threads q.import_sources)
        (λ p h.
          Ends-bind Good First _ _
            (Ends-bind Done Good _ _ (Ends-bind Good Done _ _ (sized-Ends p h) resolve-Ends)
              (λ r done. load_join-Keeps q.load_join r done.0))
            (storage-Ends q.load default))

  sub_plan-Ends :
      (q : Parts) (default : Bool) (join : Plan → Option Plan)
      → Keeps join
      → Ends Done (create_sub_plan (exact threads) q default join)
  unfolding create_sub_plan
  sub_plan-Ends q default join k = Ends-bind First Done _ _ (load-Ends q default) (λ r h.
      Ends-bind Good Done _ _
        (Ends-bind Good Good _ _ (Ends-bind Good Good _ _ (k r.0 h) (choose-Keeps q)) (agg-Keeps q))
        resolve-Ends)

  mutual
    unfolding plan_join plan_subquery joined

    join-Keeps : (j : Join) → Keeps (plan_join (exact threads) j)
    join-Keeps no_join p h = (p, refl, h)
    join-Keeps (join_partner name) p h =
        Ends-bind Good Good _ _ (Ends-bind Good Good _ _ (Ends-add _ p h) (Ends-add _)) (Ends-add _)
    join-Keeps (join_subquery sub) p h =
        Ends-bind Good Good _ _ (Ends-bind Good Good _ _ (Ends-add _ p h) (subquery-Keeps sub))
          (Ends-add _)

    subquery-Keeps : (q : Query) → Keeps (plan_subquery (exact threads) q)
    subquery-Keeps (query q j) p h = Ends-if Good _ _ _ (Ends-add _ p h) (
        Ends-bind Done Good _ _
          (sub_plan-Ends q (is_default q j) (plan_join (exact threads) j) (join-Keeps j))
          (λ s done. (_, refl, Good-joined p s h done)))

  create_plan-Ends : (q : Query) → Ends Done (create_plan (exact threads) q new_plan)
  unfolding create_plan
  create_plan-Ends (query q j) = Ends-bind First Done _ _ (load-Ends q (is_default q j)) (λ r h.
      Ends-bind Good Done _ _
        (Ends-bind Good Good _ _
          (Ends-bind Good Good _ _ (Ends-bind Good Good _ _ (join-Keeps j r.0 h) (choose-Keeps q))
            (agg-Keeps q))
          (store-Keeps q (is_default q j) r.1))
        resolve-Ends)

-- The queue holds the task that another one requires, if it requires one.
abbrev has_required : List Task → Option TaskId → Bool
has_required queue none = true
has_required queue (some r) = contains (ids queue) r

-- No task of the queue lacks the task that it requires.
abbrev pub IsComplete : List Task → Type 0
IsComplete queue = All (λ t. has_required queue (requirement t.id) ≡ true) queue

has_required-Queued :
    (p : Plan) (needed : Option TaskId)
    → ((r : TaskId) → needed ≡ some r → contains (ids p.task_queue) r ≡ true)
    → has_required p.task_queue needed ≡ true
has_required-Queued p none h = refl
has_required-Queued p (some r) h = h r refl

-- Where no similarity measure is set and the threads are at least one and fewer than 2^63,
-- `createPlan` of every query on a new planner ends, whatever the query's sources, joins, subqueries
-- and export: no requirement is left outstanding, and the queue that it commits holds, for each of its
-- tasks, those of subqueries included, the task that the task requires.
pub create_plan-IsComplete :
    (threads : ℕ)
    → 0 < threads
    → threads < 2 ^ 63
    → (q : Query)
    → (p : Plan) × (create_plan (exact threads) q new_plan ≡ some p)
      × (p.unfulfilled ≡ [])
      × IsComplete p.task_queue
create_plan-IsComplete threads some_threads few_threads q =
    let (p, e, done) = create_plan-Ends threads some_threads few_threads q in
    (
      p,
      e,
      done.1,
      All-imp (Satisfied p) (λ t. has_required p.task_queue (requirement t.id) ≡ true)
          (λ t k. has_required-Queued p (requirement t.id) (Satisfied-Done p t done k)) p.task_queue
          done.0.satisfied,
    )
