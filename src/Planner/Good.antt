-- ===== src/Planner/Good.antt =====
-- The invariant of the planner between two steps, and that its steps keep it and end.
use joda.Base.{
  suc, true, ◌||◌, Option, some, [], length, ◌≡◌, sym, ap, subst, ◌∙◌, arith, All, All-append,
  All-imp, Bool-cases, inl, inr, ◌>>=◌,
}
use joda.Planner.TaskId.{TaskId, contains}
use joda.Planner.Tables.{requirement}
use joda.Planner.Plan.{
  no_similarity, Task, Plan, new_plan, add_task, add_fuel, resolve_requirements,
}
use joda.Planner.Grows.{ids, known, Fulfilled, Disjoint, Linked, Grows, contains-append}
use joda.Planner.Resolve.{add_task-Reached}
use joda.Planner.Loop.{Required, rank-lt-add_fuel, resolve_requirements-lem}

-- What the task needs after it is in the queue, or outstanding.
abbrev pub Satisfied : Plan → Task → Type 0
Satisfied p t =
    (r : TaskId)
    → requirement t.id ≡ some r
    → contains (ids p.task_queue) r || contains p.unfulfilled r ≡ true

-- What holds of a plan between two steps: no outstanding requirement was added, each is one that
-- `resolveRequirement` knows, each added name is that of a task in the queue, and what a queued task
-- needs after it is queued or outstanding.
pub record Good (p : Plan) : Type 0 where
  pub disjoint : Disjoint p
  pub required : Required p
  pub linked : Linked p
  pub satisfied : All (Satisfied p) p.task_queue

pub Good-new_plan : Good new_plan
unfolding contains
Good-new_plan = record {
  disjoint = λ r m. cc;
  required = λ r m. cc;
  linked = λ r m. cc;
  satisfied = tt;
}

pub queued-known :
    (q : Plan)
    → Linked q
    → (r : TaskId) → known q r ≡ true
    → contains (ids q.task_queue) r || contains q.unfulfilled r ≡ true
queued-known q l r h = elim (Bool-cases (contains q.added_ids r)) [
  | inl e ↦ rw (l r e)
  | inr e ↦ ground arith
]

-- A task that is in the queue, or outstanding, stays so.
queued-Grows :
    (p q : Plan)
    → Linked q
    → Grows p q
    → (r : TaskId) → contains (ids p.task_queue) r || contains p.unfulfilled r ≡ true
    → contains (ids q.task_queue) r || contains q.unfulfilled r ≡ true
queued-Grows p q l g r h =
    let whole = ap (λ ts. contains (ids ts) r) g.queue ∙ contains-append p.task_queue g.new r in
    elim (Bool-cases (contains (ids p.task_queue) r)) [
      | inl e ↦ ground (arith, whole)
      | inr e ↦ queued-known q l r (g.keeps r (ground arith))
    ]

pub Good-Grows : (p q : Plan) → Good p → Grows p q → Good q
Good-Grows p q h g = record {
  disjoint = g.disjoint h.disjoint;
  required = λ r m. h.required r (g.sub r m);
  linked = g.linked h.linked;
  satisfied = subst (All (Satisfied q)) (sym g.queue) (
      All-append (Satisfied q) p.task_queue g.new
        (All-imp (Satisfied p) (Satisfied q)
          (λ t s r e. queued-Grows p q (g.linked h.linked) g r (s r e)) p.task_queue h.satisfied)
        (All-imp (Fulfilled q) (Satisfied q)
          (λ t f r e. queued-known q (g.linked h.linked) r (f.0 r e)) g.new g.fulfilled));
}

-- The step ended, with the property of what it returned.
abbrev pub Ends {ℓ κ} : {A : Type ℓ} → (A → Type κ) → Option A → Type (ℓ ⊔ κ)
Ends {A = A} P result = (q : A) × (result ≡ some q) × P q

pub Ends-bind {ℓ κ} :
    {A B : Type ℓ} (P : A → Type κ) (Q : B → Type κ) (x : Option A) (f : A → Option B)
    → Ends P x
    → ((q : A) → P q → Ends Q (f q))
    → Ends Q (x >>= f)
Ends-bind P Q x f (q, e, h) k = let (r, same, j) = k q h in (r, ap (λ y. y >>= f) e ∙ same, j)

pub Ends-add : (t : Task) (p : Plan) → Good p → Ends Good (add_task add_fuel no_similarity t true p)
Ends-add t p h =
    let (q, e, g, c) = add_task-Reached add_fuel t p (rank-lt-add_fuel t.id) in
    (q, e, Good-Grows p q h g)

-- Nothing is outstanding, and the queue holds what its tasks need.
abbrev pub Done : Plan → Type 0
Done p = Good p × (p.unfulfilled ≡ [])

pub Ends-resolve :
    (p : Plan)
    → Good p
    → Ends Done (resolve_requirements (suc (length p.unfulfilled)) no_similarity p)
Ends-resolve p h =
    let (q, e, g, u) =
      resolve_requirements-lem (suc (length p.unfulfilled)) p h.disjoint h.required (omega arith) in
    (q, e, (Good-Grows p q h g, u))

-- Where no similarity measure is set, `addTask` of any task ends on a plan that meets the invariant,
-- in a plan that meets it and in which the task is added: four nested calls are enough.
pub add_task-Good :
    (t : Task) (p : Plan)
    → Good p
    → (q : Plan) × (add_task add_fuel no_similarity t true p ≡ some q)
      × Good q
      × (contains q.added_ids t.id ≡ true)
add_task-Good t p h =
    let (q, e, g, c) = add_task-Reached add_fuel t p (rank-lt-add_fuel t.id) in
    (q, e, Good-Grows p q h g, c)

-- Where no similarity measure is set, the loop `resolveRequirements` ends on a plan that meets the
-- invariant, after at most one round for each outstanding requirement and one last test, in a plan
-- that meets it and has no outstanding requirement.
pub resolve_requirements-Done :
    (p : Plan)
    → Good p
    → (q : Plan) × (resolve_requirements (suc (length p.unfulfilled)) no_similarity p ≡ some q)
      × Good q
      × (q.unfulfilled ≡ [])
resolve_requirements-Done p h = let (q, e, done) = Ends-resolve p h in (q, e, done.0, done.1)
