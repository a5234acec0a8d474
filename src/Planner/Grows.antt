-- ===== src/Planner/Grows.antt =====
-- How a plan changes while tasks are added: what the invariants of the planner need of every step.
use joda.Base.{
  ◌≤◌, ◌<◌, Bool, true, false, ◌||◌, some, List, [], ◌∷◌, ◌++◌, length, ◌≡◌, refl, sym, ap, ◌∙◌,
  append-nil, append_assoc, arith, All, All-append, All-imp, Bool-cases, inl, inr,
}
use joda.Planner.TaskId.{
  TaskId, id_eq→eq, id_eq_refl, contains, erase, contains-erase, length-erase-le, length-erase-lt,
}
use joda.Planner.Tables.{requirement, prerequisite}
use joda.Planner.Plan.{Task, Plan, enqueue}

abbrev pub ids : List Task → List TaskId
ids [] = []
ids (t ∷ ts) = t.id ∷ ids ts

-- The task is in the plan, or will be.
abbrev pub known : Plan → TaskId → Bool
known p r = contains p.added_ids r || contains p.unfulfilled r

-- What the task needs after it is known, and what it needs before it is there.
abbrev pub Fulfilled : Plan → Task → Type 0
Fulfilled p t =
    ((r : TaskId) → requirement t.id ≡ some r → known p r ≡ true)
    × ((r : TaskId) → prerequisite t.id ≡ some r → contains p.added_ids r ≡ true)

-- No outstanding requirement is a task that was added.
abbrev pub Disjoint : Plan → Type 0
Disjoint p = (r : TaskId) → contains p.unfulfilled r ≡ true → contains p.added_ids r ≡ false

-- Every name of an added task is the name of a task in the queue.
abbrev pub Linked : Plan → Type 0
Linked p = (r : TaskId) → contains p.added_ids r ≡ true → contains (ids p.task_queue) r ≡ true

pub record Grows (p q : Plan) : Type 0 where
  pub new : List Task
  pub queue : q.task_queue ≡ p.task_queue ++ new
  pub fulfilled : All (Fulfilled q) new
  pub fewer : length q.unfulfilled ≤ length p.unfulfilled
  pub strict :
      (r : TaskId)
      → contains p.unfulfilled r ≡ true
      → contains q.unfulfilled r ≡ false
      → length q.unfulfilled < length p.unfulfilled
  pub sub : (r : TaskId) → contains q.unfulfilled r ≡ true → contains p.unfulfilled r ≡ true
  pub more : (r : TaskId) → contains p.added_ids r ≡ true → contains q.added_ids r ≡ true
  pub keeps : (r : TaskId) → known p r ≡ true → known q r ≡ true
  pub disjoint : Disjoint p → Disjoint q
  pub linked : Linked p → Linked q

pub Grows-refl : (p : Plan) → Grows p p
Grows-refl p = record {
  new = [];
  queue = sym (append-nil p.task_queue);
  fulfilled = tt;
  fewer = omega arith;
  strict = λ r h k. cc;
  sub = λ r h. h;
  more = λ r h. h;
  keeps = λ r h. h;
  disjoint = λ h. h;
  linked = λ h. h;
}

pub Fulfilled-Grows : {p q : Plan} → Grows p q → (t : Task) → Fulfilled p t → Fulfilled q t
Fulfilled-Grows g t h = (λ r e. g.keeps r (h.0 r e), λ r e. g.more r (h.1 r e))

pub contains-append :
    (xs ys : List Task) (r : TaskId)
    → contains (ids (xs ++ ys)) r ≡ (contains (ids xs) r || contains (ids ys) r)
unfolding contains
contains-append [] ys r = refl
contains-append (x ∷ xs) ys r = ground (arith, contains-append xs ys r)

strict-split :
    (p q r : Plan) (t : TaskId)
    → Grows p q
    → Grows q r
    → contains p.unfulfilled t ≡ true
    → contains r.unfulfilled t ≡ false
    → length r.unfulfilled < length p.unfulfilled
strict-split p q r t g h a b = elim (Bool-cases (contains q.unfulfilled t)) [
  | inl e ↦ omega (arith, h.strict t e b, g.fewer)
  | inr e ↦ omega (arith, g.strict t a e, h.fewer)
]

pub Grows-trans : {p q r : Plan} → Grows p q → Grows q r → Grows p r
Grows-trans {p} {q} {r} g h = record {
  new = g.new ++ h.new;
  queue = h.queue ∙ (ap (λ ts. ts ++ h.new) g.queue ∙ append_assoc p.task_queue g.new h.new);
  fulfilled =
      All-append (Fulfilled r) g.new h.new
        (All-imp (Fulfilled q) (Fulfilled r) (Fulfilled-Grows h) g.new g.fulfilled) h.fulfilled;
  fewer = omega (arith, g.fewer, h.fewer);
  strict = λ t. strict-split p q r t g h;
  sub = λ t k. g.sub t (h.sub t k);
  more = λ t k. h.more t (g.more t k);
  keeps = λ t k. h.keeps t (g.keeps t k);
  disjoint = λ k. h.disjoint (g.disjoint k);
  linked = λ k. h.linked (g.linked k);
}

pub contains-enqueue :
    (t : Task) (p : Plan) (r : TaskId)
    → contains p.added_ids r ≡ true
    → contains (enqueue t p).added_ids r ≡ true
unfolding enqueue contains
contains-enqueue t p r h = ground arith

pub enqueue-keeps :
    (t : Task) (p : Plan) (r : TaskId) → known p r ≡ true → known (enqueue t p) r ≡ true
unfolding enqueue contains
enqueue-keeps t p r h = ground (arith, contains-erase p.unfulfilled t.id r)

pub enqueue-Disjoint : (t : Task) (p : Plan) → Disjoint p → Disjoint (enqueue t p)
unfolding enqueue contains
enqueue-Disjoint t p h r a = ground (arith, contains-erase p.unfulfilled t.id r, h r)

pub enqueue-Linked : (t : Task) (p : Plan) → Linked p → Linked (enqueue t p)
unfolding enqueue contains
enqueue-Linked t p h r a = ground (arith, contains-append p.task_queue (t ∷ []) r, h r)

-- Queueing a task, with what follows it, where the task's needs are met in the end.
module _ (t : Task) (p q : Plan) (g : Grows (enqueue t p) q) (needs : Fulfilled q t) where
  enqueue-strict :
      (r : TaskId)
      → contains p.unfulfilled r ≡ true
      → contains q.unfulfilled r ≡ false
      → length q.unfulfilled < length p.unfulfilled
  unfolding enqueue
  enqueue-strict r a b = elim (Bool-cases (contains (erase p.unfulfilled t.id) r)) [
    | inl e ↦ omega (arith, g.strict r e b, length-erase-le p.unfulfilled t.id)
    | inr e ↦ omega (
      arith,
      g.fewer,
      length-erase-lt p.unfulfilled t.id
          (ground (arith, contains-erase p.unfulfilled t.id r, id_eq→eq t.id r)),
    )
  ]

  enqueue-sub : (r : TaskId) → contains q.unfulfilled r ≡ true → contains p.unfulfilled r ≡ true
  unfolding enqueue
  enqueue-sub r h = ground (arith, g.sub r h, contains-erase p.unfulfilled t.id r)

  pub Grows-enqueue : Grows p q
  unfolding enqueue contains
  Grows-enqueue = record {
    new = t ∷ g.new;
    queue = g.queue ∙ append_assoc p.task_queue (t ∷ []) g.new;
    fulfilled = (needs, g.fulfilled);
    fewer = omega (arith, g.fewer, length-erase-le p.unfulfilled t.id);
    strict = enqueue-strict;
    sub = enqueue-sub;
    more = λ r h. g.more r (ground arith);
    keeps = λ r h. g.keeps r (enqueue-keeps t p r h);
    disjoint = λ h. g.disjoint (enqueue-Disjoint t p h);
    linked = λ h. g.linked (enqueue-Linked t p h);
  }

  pub added-enqueue : contains q.added_ids t.id ≡ true
  unfolding enqueue contains
  added-enqueue = g.more t.id (ground (arith, id_eq_refl t.id))
