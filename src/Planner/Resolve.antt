-- ===== src/Planner/Resolve.antt =====
-- Adding a task brings in what it needs, and the planner's loop ends, where no similarity measure is
-- set: then the parser that a requirement names is the parser that is added for it.
use joda.Base.{ℕ, zero, suc, ◌<◌, true, Option, some, ◌≡◌, refl, subst, arith, Bool-cases, inl, inr}
use joda.Planner.TaskId.{
  TaskId, contains, some_eq, agg_merger, agg_pipeline, as_pipeline, choose_pipeline,
  default_stream_parser, default_text_parser, filter_agg_pipeline, in_stream, json_stringifier,
  line_separated_stream_reader, list_dir, list_file, load_join_file_parser, load_join_files,
  ls_file_opener, ls_list_dir, ls_list_file, unformatted_file_opener, url_stream, write_file,
  write_files, write_out_stream,
}
use joda.Planner.Tables.{requirement, prerequisite}
use joda.Planner.Plan.{
  no_similarity, Task, plain, parser, Plan, Adder, add_required, resolve_requirement,
  add_prerequisite, resolve_prerequisite, enqueue, add_task,
}
use joda.Planner.Grows.{
  known, Fulfilled, Grows, Grows-refl, Grows-trans, Grows-enqueue, added-enqueue, contains-enqueue,
}

-- How many tasks a task can bring in, one after another.
abbrev pub rank : TaskId → ℕ
rank ls_list_file = 3
rank ls_list_dir = 3
rank ls_file_opener = 2
rank list_file = 2
rank list_dir = 2
rank unformatted_file_opener = 1
rank in_stream = 1
rank url_stream = 1
rank line_separated_stream_reader = 1
rank choose_pipeline = 1
rank agg_pipeline = 1
rank filter_agg_pipeline = 1
rank load_join_files = 1
rank write_file = 1
rank write_files = 1
rank write_out_stream = 1
rank _ = 0

-- The tasks that `resolveRequirement` knows.
abbrev pub IsRequired : TaskId → Type 0
IsRequired ls_file_opener = Unit
IsRequired unformatted_file_opener = Unit
IsRequired line_separated_stream_reader = Unit
IsRequired default_text_parser = Unit
IsRequired default_stream_parser = Unit
IsRequired as_pipeline = Unit
IsRequired agg_merger = Unit
IsRequired load_join_file_parser = Unit
IsRequired _ = ⊥

-- The step ended in a plan that has grown and in which the task is added.
abbrev pub Reached : TaskId → Plan → Option Plan → Type 0
Reached id p result = (q : Plan) × (result ≡ some q) × Grows p q × (contains q.added_ids id ≡ true)

resize_ls : {p q : Plan} (n : ℕ) → Grows p q → Grows p (record q { ls_size = n })
resize_ls n g = record {
  new = g.new;
  queue = g.queue;
  fulfilled = g.fulfilled;
  fewer = g.fewer;
  strict = g.strict;
  sub = g.sub;
  more = g.more;
  keeps = g.keeps;
  disjoint = g.disjoint;
  linked = g.linked;
}

resize_stream : {p q : Plan} (n : ℕ) → Grows p q → Grows p (record q { stream_size = n })
resize_stream n g = record {
  new = g.new;
  queue = g.queue;
  fulfilled = g.fulfilled;
  fewer = g.fewer;
  strict = g.strict;
  sub = g.sub;
  more = g.more;
  keeps = g.keeps;
  disjoint = g.disjoint;
  linked = g.linked;
}

-- What follows holds of any way to add tasks that reaches those of a rank below a bound.
module _ (add : Adder) (fuel : ℕ)
    (ih : (t : Task) (p : Plan) → rank t.id < fuel → Reached t.id p (add t true p)) where
  add_required-Reached :
      (r : TaskId)
      → IsRequired r
      → rank r < fuel
      → (p : Plan) → Reached r p (add_required add no_similarity r p)
  unfolding add_required
  add_required-Reached default_text_parser k h p =
      let (q, e, g, c) = ih (parser default_text_parser p.ls_size) p h in
      (record q { ls_size = 0 }, rw e, resize_ls 0 g, c)
  add_required-Reached default_stream_parser k h p =
      let (q, e, g, c) = ih (parser default_stream_parser p.stream_size) p h in
      (record q { stream_size = 0 }, rw e, resize_stream 0 g, c)
  add_required-Reached ls_file_opener k h p = ih (plain ls_file_opener) p h
  add_required-Reached unformatted_file_opener k h p = ih (plain unformatted_file_opener) p h
  add_required-Reached line_separated_stream_reader k h p =
      ih (plain line_separated_stream_reader) p h
  add_required-Reached as_pipeline k h p = ih (plain as_pipeline) p h
  add_required-Reached agg_merger k h p = ih (plain agg_merger) p h
  add_required-Reached load_join_file_parser k h p = ih (plain load_join_file_parser) p h
  add_required-Reached _ k h p = absurd k

  pub resolve-Reached :
      (r : TaskId)
      → IsRequired r
      → rank r < fuel
      → (p : Plan) → Reached r p (resolve_requirement add no_similarity (some r) p)
  unfolding resolve_requirement
  resolve-Reached r k h p = elim (Bool-cases (contains p.added_ids r)) [
    | inl e ↦ (p, rw e, Grows-refl p, e)
    | inr e ↦ rw e (add_required-Reached r k h p)
  ]

  stringifier-Reached :
      0 < fuel
      → (p : Plan) → Reached json_stringifier p (resolve_prerequisite add (some json_stringifier) p)
  unfolding resolve_prerequisite add_prerequisite
  stringifier-Reached h p = elim (Bool-cases (contains p.added_ids json_stringifier)) [
    | inl e ↦ (p, rw e, Grows-refl p, e)
    | inr e ↦ rw e (ih (plain json_stringifier) p h)
  ]

  -- What stands for a task's requirement, or for its prerequisite, after the step for it.
  abbrev Met : Option TaskId → Plan → Option Plan → Type 0
  Met needed p result =
      (q : Plan) × (result ≡ some q)
      × Grows p q
      × ((r : TaskId) → needed ≡ some r → contains q.added_ids r ≡ true)

  met :
      (id : TaskId) (p : Plan) (result : Option Plan) → Reached id p result → Met (some id) p result
  met id p result (q, e, g, c) =
      (q, e, g, λ r same. subst (λ x. contains q.added_ids x ≡ true) (some_eq same) c)

  requirement-Met :
      (id : TaskId)
      → rank id < suc fuel
      → (p : Plan)
      → Met (requirement id) p (resolve_requirement add no_similarity (requirement id) p)
  unfolding resolve_requirement
  requirement-Met ls_list_file h p =
      met ls_file_opener p _ (resolve-Reached ls_file_opener tt (omega arith) p)
  requirement-Met ls_list_dir h p =
      met ls_file_opener p _ (resolve-Reached ls_file_opener tt (omega arith) p)
  requirement-Met ls_file_opener h p =
      met line_separated_stream_reader p _
        (resolve-Reached line_separated_stream_reader tt (omega arith) p)
  requirement-Met list_file h p =
      met unformatted_file_opener p _ (resolve-Reached unformatted_file_opener tt (omega arith) p)
  requirement-Met list_dir h p =
      met unformatted_file_opener p _ (resolve-Reached unformatted_file_opener tt (omega arith) p)
  requirement-Met unformatted_file_opener h p =
      met default_stream_parser p _ (resolve-Reached default_stream_parser tt (omega arith) p)
  requirement-Met in_stream h p =
      met default_stream_parser p _ (resolve-Reached default_stream_parser tt (omega arith) p)
  requirement-Met url_stream h p =
      met default_stream_parser p _ (resolve-Reached default_stream_parser tt (omega arith) p)
  requirement-Met line_separated_stream_reader h p =
      met default_text_parser p _ (resolve-Reached default_text_parser tt (omega arith) p)
  requirement-Met choose_pipeline h p =
      met as_pipeline p _ (resolve-Reached as_pipeline tt (omega arith) p)
  requirement-Met agg_pipeline h p =
      met agg_merger p _ (resolve-Reached agg_merger tt (omega arith) p)
  requirement-Met filter_agg_pipeline h p =
      met agg_merger p _ (resolve-Reached agg_merger tt (omega arith) p)
  requirement-Met load_join_files h p =
      met load_join_file_parser p _ (resolve-Reached load_join_file_parser tt (omega arith) p)
  requirement-Met _ h p = (p, refl, Grows-refl p, λ r e. cc)

  prerequisite-Met :
      (id : TaskId)
      → rank id < suc fuel
      → (p : Plan) → Met (prerequisite id) p (resolve_prerequisite add (prerequisite id) p)
  unfolding resolve_prerequisite
  prerequisite-Met write_file h p = met json_stringifier p _ (stringifier-Reached (omega arith) p)
  prerequisite-Met write_files h p = met json_stringifier p _ (stringifier-Reached (omega arith) p)
  prerequisite-Met write_out_stream h p =
      met json_stringifier p _ (stringifier-Reached (omega arith) p)
  prerequisite-Met _ h p = (p, refl, Grows-refl p, λ r e. cc)

known-added : (p : Plan) (r : TaskId) → contains p.added_ids r ≡ true → known p r ≡ true
known-added p r h = rw h

-- With more fuel than the rank of the task, adding it ends in a plan that has grown, with the task added
-- and with what it and all that it brings in need.
pub add_task-Reached :
    (fuel : ℕ) (t : Task) (p : Plan)
    → rank t.id < fuel
    → Reached t.id p (add_task fuel no_similarity t true p)
unfolding add_task
add_task-Reached zero t p h = absurd (omega arith)
add_task-Reached (suc fuel) t p h =
    let ih = add_task-Reached fuel in
    let add = add_task fuel no_similarity in
    let (p', e, g, c) = prerequisite-Met add fuel ih t.id h p in
    let (q, e', g', c') = requirement-Met add fuel ih t.id h (enqueue t p') in
    let needs : Fulfilled q t = (
      λ r same. known-added q r (c' r same),
      λ r same. g'.more r (contains-enqueue t p' r (c r same)),
    ) in
    (q, rw e e', Grows-trans g (Grows-enqueue t p' q g' needs), added-enqueue t p' q g' needs)
