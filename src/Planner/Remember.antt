-- ===== src/Planner/Remember.antt =====
-- What a plan keeps while a task is queued and its requirement remembered, as `addTask` does for the
-- tasks of import sources.
use joda.Base.{
  true, ◌||◌, Option, none, some, List, [], ◌∷◌, ◌++◌, ◌≡◌, refl, sym, ap, subst, ◌∙◌, arith,
  Bool-cases, inl, inr,
}
use joda.Planner.TaskId.{TaskId, id_eq, id_eq→eq, id_eq_refl, contains, contains-erase}
use joda.Planner.Tables.{requirement}
use joda.Planner.Plan.{Task, Plan, enqueue, remember}
use joda.Planner.Grows.{ids, Linked, contains-append}
use joda.Planner.Resolve.{IsRequired}
use joda.Planner.Loop.{Required}
use joda.Planner.Good.{Satisfied}

contains-snoc :
    (xs : List TaskId) (x r : TaskId) → contains (xs ++ x ∷ []) r ≡ (contains xs r || id_eq x r)
unfolding contains
contains-snoc [] x r = ground arith
contains-snoc (y ∷ xs) x r = ground (arith, contains-snoc xs x r)

contains_same :
    (xs : List TaskId) (x r : TaskId)
    → contains xs x ≡ true
    → id_eq x r ≡ true
    → contains xs r ≡ true
contains_same xs x r h e = subst (λ y. contains xs y ≡ true) (id_eq→eq x r e) h

pub contains-remember :
    (x r : TaskId) (p : Plan)
    → contains (remember (some x) p).unfulfilled r ≡ (contains p.unfulfilled r || id_eq x r)
unfolding remember
contains-remember x r p = elim (Bool-cases (contains p.unfulfilled x)) [
  | inl e ↦ rw e (ground (arith, contains_same p.unfulfilled x r))
  | inr e ↦ rw e (contains-snoc p.unfulfilled x r)
]

pub remember-queue :
    (needed : Option TaskId) (p : Plan) → (remember needed p).task_queue ≡ p.task_queue
unfolding remember
remember-queue none p = refl
remember-queue (some r) p = elim (Bool-cases (contains p.unfulfilled r)) [
  | inl e ↦ rw e
  | inr e ↦ rw e
]

pub remember-added :
    (needed : Option TaskId) (p : Plan) → (remember needed p).added_ids ≡ p.added_ids
unfolding remember
remember-added none p = refl
remember-added (some r) p = elim (Bool-cases (contains p.unfulfilled r)) [
  | inl e ↦ rw e
  | inr e ↦ rw e
]

pub remember-Required :
    (needed : Option TaskId) (p : Plan)
    → Required p
    → ((r : TaskId) → needed ≡ some r → IsRequired r)
    → Required (remember needed p)
unfolding remember
remember-Required none p k h = k
remember-Required (some x) p k h = λ r m. elim (Bool-cases (contains p.unfulfilled r)) [
  | inl e ↦ k r e
  | inr e ↦ h r (ap some (id_eq→eq x r (ground (arith, contains-remember x r p))))
]

pub remember-keeps :
    (needed : Option TaskId) (p : Plan) (r : TaskId)
    → contains p.unfulfilled r ≡ true
    → contains (remember needed p).unfulfilled r ≡ true
unfolding remember
remember-keeps none p r h = h
remember-keeps (some x) p r h = contains-remember x r p ∙ (rw h)

pub remember-has : (x : TaskId) (p : Plan) → contains (remember (some x) p).unfulfilled x ≡ true
remember-has x p = ground (arith, contains-remember x x p, id_eq_refl x)

pub enqueue-Required : (t : Task) (p : Plan) → Required p → Required (enqueue t p)
unfolding enqueue
enqueue-Required t p k r m = k r (ground (arith, contains-erase p.unfulfilled t.id r))

pub enqueue-Satisfied : (t : Task) (p : Plan) (u : Task) → Satisfied p u → Satisfied (enqueue t p) u
unfolding enqueue contains
enqueue-Satisfied t p u h r e =
    ground
      (arith, h r e, contains-append p.task_queue (t ∷ []) r, contains-erase p.unfulfilled t.id r)

pub remember-Satisfied :
    (needed : Option TaskId) (p : Plan) (u : Task) → Satisfied p u → Satisfied (remember needed p) u
remember-Satisfied needed p u h r e =
    rw (remember-queue needed p) (elim (Bool-cases (contains p.unfulfilled r)) [
      | inl here ↦ ground (arith, remember-keeps needed p r here)
      | inr gone ↦ ground (arith, h r e)
    ])

pub remembered-Satisfied :
    (needed : Option TaskId) (p : Plan) (u : Task)
    → needed ≡ requirement u.id
    → Satisfied (remember needed p) u
remembered-Satisfied needed p u same r e = rw (same ∙ e) (ground (arith, remember-has r p))

pub remember-Linked : (needed : Option TaskId) (p : Plan) → Linked p → Linked (remember needed p)
remember-Linked needed p h r m =
    ap (λ ts. contains (ids ts) r) (remember-queue needed p)
    ∙ h r (ap (λ xs. contains xs r) (sym (remember-added needed p)) ∙ m)
