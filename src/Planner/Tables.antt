-- ===== src/Planner/Tables.antt =====
-- libs/joda/core/modules/queryexecution/src/pipeline/tasks/Compatability.h: which tasks may feed
-- which, and which tasks must stand in a pipeline beside which. Built with Python modules.
use joda.Base.{Bool, false, ◌||◌, ◌&&◌, Option, none, some, List, [], ◌∷◌}
use joda.Planner.TaskId.{
  TaskId, id_eq, contains, ls_list_file, list_file, ls_list_dir, list_dir, ls_file_opener,
  unformatted_file_opener, in_stream, url_stream, line_separated_stream_reader, ls_file_mapper,
  default_text_parser, path_jaccard_text_parser, attribute_jaccard_text_parser,
  default_stream_parser, path_jaccard_stream_parser, attribute_jaccard_stream_parser, python_import,
  storage_buffer, storage_sender, storage_receiver, choose_pipeline, as_pipeline, agg_pipeline,
  filter_agg_pipeline, window_agg, agg_merger, json_stringifier, write_file, write_files,
  write_out_stream, python_exporter, load_join, load_join_files, load_join_file_parser, store_join,
  inner_join, outer_join,
}

-- The rows `JODA_COMPATIBLE_TASK(a, b)`.
abbrev compatible_tasks : List (TaskId × TaskId)
compatible_tasks =
    (ls_list_file, ls_file_opener)
    ∷ (ls_list_file, ls_file_mapper)
    ∷ (list_file, unformatted_file_opener)
    ∷ (ls_list_dir, ls_file_opener)
    ∷ (ls_list_dir, ls_file_mapper)
    ∷ (list_dir, unformatted_file_opener)
    ∷ (ls_file_opener, line_separated_stream_reader)
    ∷ (line_separated_stream_reader, default_text_parser)
    ∷ (ls_file_mapper, default_text_parser)
    ∷ (line_separated_stream_reader, path_jaccard_text_parser)
    ∷ (ls_file_mapper, path_jaccard_text_parser)
    ∷ (line_separated_stream_reader, attribute_jaccard_text_parser)
    ∷ (ls_file_mapper, attribute_jaccard_text_parser)
    ∷ (unformatted_file_opener, default_stream_parser)
    ∷ (in_stream, default_stream_parser)
    ∷ (url_stream, default_stream_parser)
    ∷ (unformatted_file_opener, path_jaccard_stream_parser)
    ∷ (in_stream, path_jaccard_stream_parser)
    ∷ (url_stream, path_jaccard_stream_parser)
    ∷ (unformatted_file_opener, attribute_jaccard_stream_parser)
    ∷ (in_stream, attribute_jaccard_stream_parser)
    ∷ (url_stream, attribute_jaccard_stream_parser)
    ∷ (choose_pipeline, filter_agg_pipeline)
    ∷ (choose_pipeline, as_pipeline)
    ∷ (agg_pipeline, agg_merger)
    ∷ (filter_agg_pipeline, agg_merger)
    ∷ (json_stringifier, write_file)
    ∷ (json_stringifier, write_files)
    ∷ (json_stringifier, write_out_stream)
    ∷ (load_join_files, load_join_file_parser)
    ∷ []

has_pair : List (TaskId × TaskId) → TaskId → TaskId → Bool
unfolding id_eq
has_pair [] a b = false
has_pair ((x, y) ∷ rest) a b = (id_eq x a && id_eq y b) || has_pair rest a b

-- The rows `JODA_TASK_GROUP(task, ContainerSenderGroup)`.
abbrev container_senders : List TaskId
container_senders =
    storage_buffer ∷ storage_sender ∷ default_stream_parser ∷ path_jaccard_text_parser
    ∷ attribute_jaccard_text_parser ∷ default_text_parser ∷ path_jaccard_stream_parser
    ∷ attribute_jaccard_stream_parser ∷ as_pipeline ∷ agg_merger ∷ window_agg ∷ load_join
    ∷ load_join_file_parser ∷ outer_join ∷ python_import ∷ []

-- The rows `JODA_TASK_GROUP(task, ContainerReceiverGroup)`.
abbrev container_receivers : List TaskId
container_receivers =
    storage_buffer ∷ storage_receiver ∷ choose_pipeline ∷ agg_pipeline ∷ filter_agg_pipeline
    ∷ window_agg ∷ json_stringifier ∷ store_join ∷ inner_join ∷ outer_join ∷ python_exporter ∷ []

-- `TaskCompatability::check`: `a` can supply `b`.
unfoldable pub check : TaskId → TaskId → Bool
unfolding has_pair contains
check a b =
    has_pair compatible_tasks a b
    || (contains container_senders a && contains container_receivers b)

-- `TaskRequirement::get`: the task that must stand in the pipeline after this one. The empty string
-- is `none`.
abbrev pub requirement : TaskId → Option TaskId
requirement ls_list_file = some ls_file_opener
requirement ls_list_dir = some ls_file_opener
requirement ls_file_opener = some line_separated_stream_reader
requirement list_file = some unformatted_file_opener
requirement list_dir = some unformatted_file_opener
requirement unformatted_file_opener = some default_stream_parser
requirement in_stream = some default_stream_parser
requirement url_stream = some default_stream_parser
requirement line_separated_stream_reader = some default_text_parser
requirement choose_pipeline = some as_pipeline
requirement agg_pipeline = some agg_merger
requirement filter_agg_pipeline = some agg_merger
requirement load_join_files = some load_join_file_parser
requirement _ = none

-- `TaskPrerequisite::get`: the task that must stand in the pipeline before this one.
abbrev pub prerequisite : TaskId → Option TaskId
prerequisite write_file = some json_stringifier
prerequisite write_files = some json_stringifier
prerequisite write_out_stream = some json_stringifier
prerequisite _ = none
