-- ===== src/Planner/TaskId.antt =====
-- The names of the pipeline's tasks: the `JODA_REGISTER_PIPELINE_TASK_IN_NS` lines of
-- libs/joda/core/modules. A `TaskID` is the task's name, and no two tasks share one, so a name is a
-- constructor; `code` numbers them, to compare them.
use joda.Base.{
  ℕ, zero, suc, Bool, true, false, ◌≡◌, refl, sym, ap, ◌∙◌, ◌==◌, ==_iff, ◌||◌, ◌&&◌, not, List, [],
  ◌∷◌, length, arith, ◌≤◌, ◌<◌, Option, none, some, if◌then◌else◌,
}

pub data TaskId : Type 0 where
  ls_list_file list_file ls_list_dir list_dir ls_file_opener unformatted_file_opener : TaskId
  in_stream url_stream ls_url_stream line_separated_stream_reader ls_file_mapper
        default_text_parser :
      TaskId
  path_jaccard_text_parser attribute_jaccard_text_parser default_stream_parser
        path_jaccard_stream_parser attribute_jaccard_stream_parser python_import :
      TaskId
  storage_buffer storage_sender storage_receiver choose_pipeline as_pipeline agg_pipeline : TaskId
  filter_agg_pipeline window_agg agg_merger choose_as_pipeline choose_agg_pipeline
        choose_as_agg_pipeline :
      TaskId
  json_stringifier write_file write_files write_out_stream python_exporter load_join : TaskId
  load_join_files load_join_file_parser store_join inner_join outer_join : TaskId

code : TaskId → ℕ
code ls_list_file = 0
code list_file = 1
code ls_list_dir = 2
code list_dir = 3
code ls_file_opener = 4
code unformatted_file_opener = 5
code in_stream = 6
code url_stream = 7
code ls_url_stream = 8
code line_separated_stream_reader = 9
code ls_file_mapper = 10
code default_text_parser = 11
code path_jaccard_text_parser = 12
code attribute_jaccard_text_parser = 13
code default_stream_parser = 14
code path_jaccard_stream_parser = 15
code attribute_jaccard_stream_parser = 16
code python_import = 17
code storage_buffer = 18
code storage_sender = 19
code storage_receiver = 20
code choose_pipeline = 21
code as_pipeline = 22
code agg_pipeline = 23
code filter_agg_pipeline = 24
code window_agg = 25
code agg_merger = 26
code choose_as_pipeline = 27
code choose_agg_pipeline = 28
code choose_as_agg_pipeline = 29
code json_stringifier = 30
code write_file = 31
code write_files = 32
code write_out_stream = 33
code python_exporter = 34
code load_join = 35
code load_join_files = 36
code load_join_file_parser = 37
code store_join = 38
code inner_join = 39
code outer_join = 40

unfoldable pub names : List TaskId
names =
    ls_list_file ∷ list_file ∷ ls_list_dir ∷ list_dir ∷ ls_file_opener ∷ unformatted_file_opener
    ∷ in_stream ∷ url_stream ∷ ls_url_stream ∷ line_separated_stream_reader ∷ ls_file_mapper
    ∷ default_text_parser ∷ path_jaccard_text_parser ∷ attribute_jaccard_text_parser
    ∷ default_stream_parser ∷ path_jaccard_stream_parser ∷ attribute_jaccard_stream_parser
    ∷ python_import ∷ storage_buffer ∷ storage_sender ∷ storage_receiver ∷ choose_pipeline
    ∷ as_pipeline ∷ agg_pipeline ∷ filter_agg_pipeline ∷ window_agg ∷ agg_merger
    ∷ choose_as_pipeline ∷ choose_agg_pipeline ∷ choose_as_agg_pipeline ∷ json_stringifier
    ∷ write_file ∷ write_files ∷ write_out_stream ∷ python_exporter ∷ load_join ∷ load_join_files
    ∷ load_join_file_parser ∷ store_join ∷ inner_join ∷ outer_join ∷ []

name_at : List TaskId → ℕ → Option TaskId
name_at [] n = none
name_at (t ∷ ts) zero = some t
name_at (t ∷ ts) (suc n) = name_at ts n

name_at-code : (t : TaskId) → name_at names (code t) ≡ some t
unfolding name_at names code
name_at-code ls_list_file = refl
name_at-code _ = refl

pub some_eq : {a b : TaskId} → some a ≡ some b → a ≡ b
some_eq e = cc

-- A test of every name, and what it gives for one of them.
unfoldable pub every : (TaskId → Bool) → List TaskId → Bool
every test [] = true
every test (t ∷ ts) = test t && every test ts

every-name_at :
    (test : TaskId → Bool) (ts : List TaskId) (n : ℕ) (t : TaskId)
    → every test ts ≡ true
    → name_at ts n ≡ some t
    → test t ≡ true
unfolding every name_at
every-name_at test [] n t h e = cc
every-name_at test (u ∷ us) zero t h e = ap test (sym (some_eq e)) ∙ (ground (arith, h))
every-name_at test (u ∷ us) (suc n) t h e = every-name_at test us n t (ground (arith, h)) e

pub every-names : (test : TaskId → Bool) → every test names ≡ true → (t : TaskId) → test t ≡ true
every-names test h t = every-name_at test names (code t) t h (name_at-code t)

-- `a == b` on task names.
unfoldable pub id_eq : TaskId → TaskId → Bool
unfolding code
id_eq a b = code a == code b

pub id_eq→eq : (a b : TaskId) → id_eq a b ≡ true → a ≡ b
unfolding id_eq
id_eq→eq a b h =
    some_eq (
      sym (name_at-code a) ∙ (ap (name_at names) ((==_iff (code a) (code b)).0 h) ∙ name_at-code b))

pub id_eq_refl : (a : TaskId) → id_eq a a ≡ true
unfolding id_eq
id_eq_refl a = (==_iff (code a) (code a)).1 refl

-- `std::find(...) != end()`, `contains`
unfoldable pub contains : List TaskId → TaskId → Bool
contains [] t = false
contains (x ∷ xs) t = id_eq x t || contains xs t

-- `std::erase(v, t)`
unfoldable pub erase : List TaskId → TaskId → List TaskId
erase [] t = []
erase (x ∷ xs) t = let rest = erase xs t in if id_eq x t then rest else x ∷ rest

pub contains-erase :
    (xs : List TaskId) (t r : TaskId) → contains (erase xs t) r ≡ (not (id_eq t r) && contains xs r)
unfolding contains erase
contains-erase [] t r = ground arith
contains-erase (x ∷ xs) t r = ground (arith, contains-erase xs t r, id_eq→eq x t, id_eq→eq t r)

pub length-erase-le : (xs : List TaskId) (t : TaskId) → length (erase xs t) ≤ length xs
unfolding erase
length-erase-le [] t = omega arith
length-erase-le (x ∷ xs) t = ground (arith, length-erase-le xs t)

pub length-erase-lt :
    (xs : List TaskId) (t : TaskId) → contains xs t ≡ true → length (erase xs t) < length xs
unfolding erase contains
length-erase-lt [] t h = cc
length-erase-lt (x ∷ xs) t h = ground (arith, length-erase-le xs t, length-erase-lt xs t)
