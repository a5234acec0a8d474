-- ===== src/Tests/Pipelines.antt =====
-- What is proved of pipelines, on the tasks of a query that reads lines, selects, projects and
-- aggregates.
use joda.Base.{ℕ, Bool, true, false, none, some, List, [], ◌∷◌, ◌≡◌, refl}
use joda.Planner.TaskId.{
  TaskId, id_eq, ls_list_file, ls_file_opener, line_separated_stream_reader, default_text_parser,
  choose_pipeline, as_pipeline, agg_pipeline, ls_file_mapper, choose_as_agg_pipeline,
}
use joda.Pipeline.Rule.{
  multi_threaded, PipelineTask, Connection, find_optimization_target, file_map_optimization,
  choose_as_agg_optimization,
}
use joda.Pipeline.Target.{Numbered, first_pair, pair_fits, pair_rule-first_pair}
use joda.Pipeline.Triple.{first_triple, triple_fits, triple_rule-first_triple}
use joda.Pipeline.Build.{Pipeline, new_pipeline, add_tasks}
use joda.Pipeline.Outputs.{Wired}
use joda.Pipeline.Wiring.{Counted, Counted-Numbered, add_tasks-Wired}

abbrev task : ℕ → TaskId → Bool → PipelineTask
task num name has_input = record {
  num = num;
  name = name;
  storage = [];
  empty_desc = false;
  async = multi_threaded;
  has_input = has_input;
  has_output = true;
  input_q = false;
  output_q = none;
}

abbrev fresh_tasks : List PipelineTask
fresh_tasks =
    task 0 ls_list_file false
    ∷ task 0 ls_file_opener true
    ∷ task 0 line_separated_stream_reader true
    ∷ task 0 default_text_parser true
    ∷ []

add_tasks-Wired_example :
    (p : Pipeline) × (add_tasks 4 new_pipeline fresh_tasks ≡ some p)
    × Counted 0 p.tasks
    × Wired p.tasks
unfolding id_eq
add_tasks-Wired_example =
    add_tasks-Wired 4 fresh_tasks
      ((refl, refl, refl), ((refl, refl, refl), ((refl, refl, refl), ((refl, refl, refl), tt))))
      (refl, (refl, (refl, (refl, tt))))

-- A selection with a projection, whose tasks another task feeds too.
abbrev numbered_tasks : List PipelineTask
numbered_tasks =
    task 1 ls_file_opener true
    ∷ task 2 line_separated_stream_reader true
    ∷ task 3 choose_pipeline true
    ∷ task 4 as_pipeline true
    ∷ task 5 agg_pipeline true
    ∷ []

numbered_tasks-Numbered : Numbered numbered_tasks
numbered_tasks-Numbered =
    Counted-Numbered 0 numbered_tasks (refl, (refl, (refl, (refl, (refl, tt)))))

abbrev connections : List Connection
connections = (1, 2) ∷ (2, 3) ∷ (3, 4) ∷ (4, 5) ∷ (1, 5) ∷ []

pair_rule-first_pair_example :
    find_optimization_target file_map_optimization connections numbered_tasks
    ≡ first_pair
        (pair_fits connections ls_file_opener line_separated_stream_reader
          (λ t u. true)
          ls_file_mapper)
        []
        numbered_tasks
pair_rule-first_pair_example =
    pair_rule-first_pair connections ls_file_opener line_separated_stream_reader (λ t u. true)
      ls_file_mapper numbered_tasks numbered_tasks-Numbered

triple_rule-first_triple_example :
    find_optimization_target choose_as_agg_optimization connections numbered_tasks
    ≡ first_triple
        (triple_fits connections choose_pipeline as_pipeline agg_pipeline
          (λ t u. true)
          choose_as_agg_pipeline)
        []
        numbered_tasks
triple_rule-first_triple_example =
    triple_rule-first_triple connections choose_pipeline as_pipeline agg_pipeline (λ t u. true)
      choose_as_agg_pipeline numbered_tasks numbered_tasks-Numbered
