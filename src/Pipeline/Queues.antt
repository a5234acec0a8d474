-- ===== src/Pipeline/Queues.antt =====
-- The types of the queues between tasks: the `I` and `O` of their executors, under
-- libs/joda/core/modules, and the cast of `setOutputQueue` in
-- pipelineatomics/include/joda/pipelineatomics/PipelineIOTask.h. All executors take the default bulk
-- size, so two queues have the same type if and only if they have the same type of element.
use joda.Base.{Bool, true, false, not, ◌||◌, Option, none, some, ◌≡◌, refl}
use joda.Planner.TaskId.{
  TaskId, id_eq, every, every-names, names, ls_list_file, list_file, ls_list_dir, list_dir,
  ls_file_opener, unformatted_file_opener, in_stream, url_stream, ls_url_stream,
  line_separated_stream_reader, ls_file_mapper, default_text_parser, path_jaccard_text_parser,
  attribute_jaccard_text_parser, default_stream_parser, path_jaccard_stream_parser,
  attribute_jaccard_stream_parser, python_import, storage_sender, storage_receiver, choose_pipeline,
  as_pipeline, agg_pipeline, filter_agg_pipeline, agg_merger, choose_agg_pipeline,
  choose_as_agg_pipeline, json_stringifier, write_file, write_files, write_out_stream,
  python_exporter, load_join, load_join_files, load_join_file_parser, store_join, inner_join,
}
use joda.Planner.Tables.{check}

-- The types of the elements: paths with their shares, `StreamOrigin`s with theirs, vectors of
-- `StringOrigin`, containers, filtered containers, aggregators, vectors of strings and paths.
pub data Element : Type 0 where
  shared_path shared_stream string_origins container filtered aggregator strings path : Element

abbrev pub output_element : TaskId → Option Element
output_element ls_list_file = some shared_path
output_element list_file = some shared_path
output_element ls_list_dir = some shared_path
output_element list_dir = some shared_path
output_element ls_file_opener = some shared_stream
output_element unformatted_file_opener = some shared_stream
output_element in_stream = some shared_stream
output_element url_stream = some shared_stream
output_element line_separated_stream_reader = some string_origins
output_element ls_file_mapper = some string_origins
output_element choose_pipeline = some filtered
output_element agg_pipeline = some aggregator
output_element filter_agg_pipeline = some aggregator
output_element choose_agg_pipeline = some aggregator
output_element choose_as_agg_pipeline = some aggregator
output_element json_stringifier = some strings
output_element load_join_files = some path
-- Tasks without an output, and a name of no task.
output_element storage_receiver = none
output_element store_join = none
output_element inner_join = none
output_element write_file = none
output_element write_files = none
output_element write_out_stream = none
output_element python_exporter = none
output_element ls_url_stream = none
output_element _ = some container

abbrev pub input_element : TaskId → Option Element
input_element ls_file_opener = some shared_path
input_element unformatted_file_opener = some shared_path
input_element ls_file_mapper = some shared_path
input_element line_separated_stream_reader = some shared_stream
input_element default_stream_parser = some shared_stream
input_element path_jaccard_stream_parser = some shared_stream
input_element attribute_jaccard_stream_parser = some shared_stream
input_element default_text_parser = some string_origins
input_element path_jaccard_text_parser = some string_origins
input_element attribute_jaccard_text_parser = some string_origins
input_element as_pipeline = some filtered
input_element filter_agg_pipeline = some filtered
input_element agg_merger = some aggregator
input_element write_file = some strings
input_element write_files = some strings
input_element write_out_stream = some strings
input_element load_join_file_parser = some path
-- Tasks without an input, and a name of no task.
input_element ls_list_file = none
input_element list_file = none
input_element ls_list_dir = none
input_element list_dir = none
input_element in_stream = none
input_element url_stream = none
input_element ls_url_stream = none
input_element python_import = none
input_element storage_sender = none
input_element load_join = none
input_element load_join_files = none
input_element _ = some container

abbrev same_element : Element → Element → Bool
same_element shared_path shared_path = true
same_element shared_stream shared_stream = true
same_element string_origins string_origins = true
same_element container container = true
same_element filtered filtered = true
same_element aggregator aggregator = true
same_element strings strings = true
same_element path path = true
same_element _ _ = false

abbrev same_queue : Option Element → Option Element → Bool
same_queue (some a) (some b) = same_element a b
same_queue _ _ = false

-- The `dynamic_cast` of the second task's input queue to the first task's type of output queue.
unfoldable pub casts_to : TaskId → TaskId → Bool
casts_to a b = same_queue (output_element a) (input_element b)

-- The tables and the types agree but for FilterAggPipeline.
abbrev agrees : TaskId → TaskId → Bool
agrees a b = not (check a b) || id_eq b filter_agg_pipeline || casts_to a b

agrees-every : (a : TaskId) → every (agrees a) names ≡ true
unfolding check id_eq casts_to every names
agrees-every ls_list_file = refl
agrees-every _ = refl

pub check-casts_to : (a b : TaskId) → agrees a b ≡ true
check-casts_to a b = every-names (agrees a) (agrees-every a) b
