-- ===== src/Tests/Plans.antt =====
-- What is proved of the planner, on the plans of a few queries.
use joda.Base.{List, [], ◌∷◌, Option, none, some, ◌||◌, true, false, ◌≡◌, refl, subst, arith}
use joda.Planner.TaskId.{
  TaskId, erase, line_separated_stream_reader, default_text_parser, storage_receiver,
  storage_sender, choose_pipeline, as_pipeline, id_eq, id_eq→eq, some_eq, contains, in_stream,
  default_stream_parser, write_file,
}
use joda.Planner.Tables.{requirement, check}
use joda.Planner.Agreement.{check-requirement}
use joda.Planner.Plan.{
  resolve_front, no_similarity, path_jaccard, plain, Plan, new_plan, add_task, add_fuel,
  resolve_requirements,
}
use joda.Planner.Grows.{ids, Disjoint}
use joda.Planner.Resolve.{IsRequired}
use joda.Planner.Loop.{Required, resolve_requirements_diverges}
use joda.Planner.Create.{
  file_source, in_stream_source, no_load_join, memory_load_join, no_export, task_export, Parts,
  Query, query, no_join, join_subquery, create_plan,
}
use joda.Planner.Good.{Good, Good-new_plan, add_task-Good, resolve_requirements-Done}
use joda.Planner.Imports.{exact}
use joda.Planner.Complete.{IsComplete, create_plan-IsComplete}

abbrev stream_parts : Parts
stream_parts = record {
  import_sources = record { kind = in_stream_source; estimated_size = 10 } ∷ [];
  load_join = no_load_join;
  load = b'S' ∷ [];
  const_choose = none;
  has_projectors = true;
  has_aggregators = false;
  agg_window_size = 0;
  export_destination = no_export;
}

abbrev file_parts : Parts
file_parts = record {
  import_sources =
      record { kind = file_source true; estimated_size = 7 }
      ∷ record { kind = file_source false; estimated_size = 9 }
      ∷ [];
  load_join = memory_load_join;
  load = b'F' ∷ [];
  const_choose = some true;
  has_projectors = false;
  has_aggregators = true;
  agg_window_size = 0;
  export_destination = task_export write_file;
}

-- An aggregation over files, joined with what another query reads from a stream, to a file.
abbrev join_query : Query
join_query = query file_parts (join_subquery (query stream_parts no_join))

create_plan-IsComplete_example :
    (p : Plan) × (create_plan (exact 8) join_query new_plan ≡ some p)
    × (p.unfulfilled ≡ [])
    × IsComplete p.task_queue
create_plan-IsComplete_example = create_plan-IsComplete 8 (omega arith) (omega arith) join_query

add_task-Good_example :
    (q : Plan) × (add_task add_fuel no_similarity (plain write_file) true new_plan ≡ some q)
    × Good q
    × (contains q.added_ids write_file ≡ true)
add_task-Good_example = add_task-Good (plain write_file) new_plan Good-new_plan

-- A plan in which a stream has been added and waits for its parser.
abbrev waiting : Plan
waiting = record new_plan {
  task_queue = plain in_stream ∷ [];
  added_ids = in_stream ∷ [];
  unfulfilled = default_stream_parser ∷ [];
}

only_stream : (r : TaskId) → contains waiting.unfulfilled r ≡ true → default_stream_parser ≡ r
unfolding contains
only_stream r m = id_eq→eq default_stream_parser r (ground arith)

waiting-Disjoint : Disjoint waiting
unfolding contains id_eq
waiting-Disjoint r m = subst (λ x. contains waiting.added_ids x ≡ false) (only_stream r m) refl

waiting-Required : Required waiting
waiting-Required r m = subst IsRequired (only_stream r m) tt

parser_waits :
    (r : TaskId)
    → requirement in_stream ≡ some r
    → contains (ids waiting.task_queue) r || contains waiting.unfulfilled r ≡ true
unfolding contains id_eq
parser_waits r e =
    subst (λ x. contains (ids waiting.task_queue) x || contains waiting.unfulfilled x ≡ true)
      (some_eq e) refl

waiting-Good : Good waiting
unfolding contains id_eq
waiting-Good = record {
  disjoint = waiting-Disjoint;
  required = waiting-Required;
  linked = λ r m. m;
  satisfied = (parser_waits, tt);
}

resolve_requirements-Done_example :
    (q : Plan) × (resolve_requirements 2 no_similarity waiting ≡ some q)
    × Good q
    × (q.unfulfilled ≡ [])
resolve_requirements-Done_example = resolve_requirements-Done waiting waiting-Good

waiting_has_no_parser : contains waiting.added_ids default_stream_parser ≡ false
unfolding contains id_eq
waiting_has_no_parser = refl

resolve_requirements_diverges_example : resolve_requirements 100 path_jaccard waiting ≡ none
resolve_requirements_diverges_example =
    resolve_requirements_diverges path_jaccard tt 100 waiting refl waiting_has_no_parser

check-requirement_example : check line_separated_stream_reader default_text_parser ≡ true
check-requirement_example = check-requirement line_separated_stream_reader default_text_parser refl

abbrev planned : Option Plan → List TaskId
planned none = []
planned (some p) = ids p.task_queue

-- The plan of a query that reads a stream into a storage and projects it.
stream_plan :
    planned (create_plan (exact 8) (query stream_parts no_join) new_plan)
    ≡ in_stream ∷ default_stream_parser ∷ storage_receiver ∷ storage_sender ∷ choose_pipeline
      ∷ as_pipeline ∷ storage_receiver ∷ []
unfolding create_plan contains id_eq add_task resolve_requirements erase resolve_front
stream_plan = refl
