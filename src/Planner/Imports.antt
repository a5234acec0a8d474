-- ===== src/Planner/Imports.antt =====
-- The loop of `planLOAD` over the import sources: their tasks are added with what they need left
-- outstanding, and nothing that is outstanding was added.
use joda.Base.{
  ℕ, ◌+◌, ◌%◌, ◌^◌, true, false, none, some, List, [], ◌∷◌, ◌≡◌, refl, sym, ap, subst, ◌∙◌, arith,
  All, All-append, All-imp, Bool-cases, inl, inr, ◌>>=◌,
}
use joda.Planner.TaskId.{TaskId, id_eq, id_eq→eq, contains, some_eq}
use joda.Planner.TaskId.{
  ls_list_file, list_file, ls_list_dir, list_dir, in_stream, url_stream, python_import,
}
use joda.Planner.Tables.{requirement, prerequisite}
use joda.Planner.Plan.{
  no_similarity, plain, Plan, new_plan, enqueue, remember, add_task, add_fuel, resolve_prerequisite,
}
use joda.Planner.Grows.{Linked, enqueue-Linked}
use joda.Planner.Resolve.{IsRequired}
use joda.Planner.Loop.{Required}
use joda.Planner.Good.{Satisfied, Good, Ends}
use joda.Planner.Create.{
  ImportKind, file_source, directory_source, in_stream_source, url_source, python_source, task_of,
  Source, Config, plan_sources,
}
use joda.Planner.Remember.{
  remember-queue, remember-added, remember-Required, enqueue-Required, enqueue-Satisfied,
  remember-Satisfied, remembered-Satisfied, remember-Linked,
}

-- The tasks of import sources.
abbrev IsStart : TaskId → Type 0
IsStart ls_list_file = Unit
IsStart list_file = Unit
IsStart ls_list_dir = Unit
IsStart list_dir = Unit
IsStart in_stream = Unit
IsStart url_stream = Unit
IsStart python_import = Unit
IsStart _ = ⊥

task_of-IsStart : (k : ImportKind) → IsStart (task_of k)
unfolding task_of
task_of-IsStart (file_source true) = tt
task_of-IsStart (file_source false) = tt
task_of-IsStart (directory_source true) = tt
task_of-IsStart (directory_source false) = tt
task_of-IsStart in_stream_source = tt
task_of-IsStart url_source = tt
task_of-IsStart python_source = tt

start_not_required : (r : TaskId) → IsStart r → IsRequired r → ⊥
start_not_required ls_list_file s k = k
start_not_required list_file s k = k
start_not_required ls_list_dir s k = k
start_not_required list_dir s k = k
start_not_required in_stream s k = k
start_not_required url_stream s k = k
start_not_required python_import s k = k
start_not_required _ s k = s

start_prerequisite : (t : TaskId) → IsStart t → prerequisite t ≡ none
start_prerequisite ls_list_file s = refl
start_prerequisite list_file s = refl
start_prerequisite ls_list_dir s = refl
start_prerequisite list_dir s = refl
start_prerequisite in_stream s = refl
start_prerequisite url_stream s = refl
start_prerequisite python_import s = refl
start_prerequisite _ s = absurd s

start_requirement : (t r : TaskId) → IsStart t → requirement t ≡ some r → IsRequired r
start_requirement ls_list_file r s e = subst IsRequired (some_eq e) tt
start_requirement list_file r s e = subst IsRequired (some_eq e) tt
start_requirement ls_list_dir r s e = subst IsRequired (some_eq e) tt
start_requirement list_dir r s e = subst IsRequired (some_eq e) tt
start_requirement in_stream r s e = subst IsRequired (some_eq e) tt
start_requirement url_stream r s e = subst IsRequired (some_eq e) tt
start_requirement python_import r s e = cc
start_requirement _ r s e = absurd s

record Started (p : Plan) : Type 0 where
  starts : (r : TaskId) → contains p.added_ids r ≡ true → IsStart r
  required : Required p
  linked : Linked p
  satisfied : All (Satisfied p) p.task_queue

Started-Good : (p : Plan) → Started p → Good p
Started-Good p h = record {
  disjoint = λ r m. elim (Bool-cases (contains p.added_ids r)) [
    | inl e ↦ absurd (start_not_required r (h.starts r e) (h.required r m))
    | inr e ↦ e
  ];
  required = h.required;
  linked = h.linked;
  satisfied = h.satisfied;
}

-- A start that is queued and whose requirement is remembered.
abbrev started : TaskId → Plan → Plan
started t p = remember (requirement t) (enqueue (plain t) p)

add_task-started :
    (t : TaskId) (p : Plan)
    → IsStart t
    → add_task add_fuel no_similarity (plain t) false p ≡ some (started t p)
unfolding add_task resolve_prerequisite
add_task-started t p s = rw (start_prerequisite t s)

started-Satisfied :
    (t : TaskId) (p : Plan)
    → All (Satisfied p) p.task_queue
    → All (Satisfied (started t p)) (started t p).task_queue
unfolding enqueue
started-Satisfied t p h =
    let needed = requirement t in
    let full = enqueue (plain t) p in
    subst (All (Satisfied (remember needed full))) (sym (remember-queue needed full)) (
      All-append (Satisfied (remember needed full)) p.task_queue (plain t ∷ [])
        (All-imp (Satisfied p) (Satisfied (remember needed full))
          (λ u s. remember-Satisfied needed full u (enqueue-Satisfied (plain t) p u s)) p.task_queue
          h)
        (remembered-Satisfied needed full (plain t) refl, tt))

started-starts :
    (t : TaskId)
    → IsStart t
    → (p : Plan) → ((r : TaskId) → contains p.added_ids r ≡ true → IsStart r)
    → (r : TaskId) → contains (started t p).added_ids r ≡ true
    → IsStart r
unfolding enqueue contains
started-starts t s p h r m = elim (Bool-cases (id_eq t r)) [
  | inl e ↦ subst IsStart (id_eq→eq t r e) s
  | inr e ↦ h r (ground (arith, remember-added (requirement t) (enqueue (plain t) p)))
]

Started-started : (t : TaskId) → IsStart t → (p : Plan) → Started p → Started (started t p)
Started-started t s p h = record {
  starts = started-starts t s p h.starts;
  required =
      remember-Required (requirement t) (enqueue (plain t) p)
        (enqueue-Required (plain t) p h.required) (λ r e. start_requirement t r s e);
  linked =
      remember-Linked (requirement t) (enqueue (plain t) p) (enqueue-Linked (plain t) p h.linked);
  satisfied = started-Satisfied t p h.satisfied;
}

-- A configuration without a similarity measure.
abbrev pub exact : ℕ → Config
exact threads = record { sim_measure = no_similarity; max_threads = threads }

-- The sizes that a plan sums up are none of the invariant's.
resized : Plan → ℕ → ℕ → Plan
resized p m n = record p { stream_size = m; ls_size = n }

Started-resized : (p : Plan) (m n : ℕ) → Started p → Started (resized p m n)
unfolding resized
Started-resized p m n h = record {
  starts = h.starts;
  required = h.required;
  linked = h.linked;
  satisfied = h.satisfied;
}

plan_sources-Started :
    (threads : ℕ) (sources : List Source) (p : Plan)
    → Started p
    → Ends Started (plan_sources (exact threads) sources p)
unfolding plan_sources resized
plan_sources-Started threads [] p h = (p, refl, h)
plan_sources-Started threads (s ∷ rest) p h =
    let t = task_of s.kind in
    let sum : ℕ → ℕ = λ n. (n + s.estimated_size) % 2 ^ 64 in
    let p' = resized p (sum p.stream_size) (sum p.ls_size) in
    let start = task_of-IsStart s.kind in
    let (q, e, k) =
      plan_sources-Started threads rest (started t p')
        (Started-started t start p' (Started-resized p _ _ h)) in
    (q, ap (λ x. x >>= plan_sources (exact threads) rest) (add_task-started t p' start) ∙ e, k)

Started-new_plan : Started new_plan
unfolding contains
Started-new_plan = record {
  starts = λ r m. cc;
  required = λ r m. cc;
  linked = λ r m. cc;
  satisfied = tt;
}

-- Where no similarity measure is set, the loop over the import sources ends, and keeps the invariant.
pub plan_sources-Good :
    (threads : ℕ) (sources : List Source)
    → Ends Good (plan_sources (exact threads) sources new_plan)
plan_sources-Good threads sources =
    let (q, e, h) = plan_sources-Started threads sources new_plan Started-new_plan in
    (q, e, Started-Good q h)
