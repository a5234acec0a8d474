-- ===== src/Tests/Documents.antt =====
-- What is proved of the handlers and measures, on the document {"a": [1, {"b": null}], "c": true}.
use joda.Base.{true, [], ◌∷◌, ◌≡◌, refl, arith}
use joda.Base.Int.{pos, negsuc}
use joda.Base.Text.{Str, to_string}
use joda.Json.{Json, scalar, arr, obj, nil, cons, end, member, null, bool, uint}
use joda.Json.Order.{document_order}
use joda.Similarity.PathsReader as Reader
use joda.Similarity.PathsReader.{PathsReader}
use joda.Similarity.PathsReader.Values.{NamesNoNul, paths_reader-get_paths}
use joda.Similarity.PathsDom.{get_paths, c_str, int_text}
use joda.Similarity.AttributeReader as Attributes
use joda.Similarity.AttributeReader.{get_attributes}
use joda.Similarity.AttributeReader.Values.{attribute_reader-get_attributes}
use joda.Document.BloomHandler as Bloom
use joda.Document.BloomHandler.Paths.{bloom_handler_collects_nothing}

abbrev name_a : Str
name_a = b'a' ∷ []

abbrev name_b : Str
name_b = b'b' ∷ []

abbrev name_c : Str
name_c = b'c' ∷ []

abbrev pub document : Json
document = obj (
    member name_a (arr (cons (scalar (uint 1)) (cons (obj (member name_b (scalar null) end)) nil)))
      (member name_c (scalar (bool true)) end))

document-NamesNoNul : NamesNoNul document
document-NamesNoNul =
    ((ground arith, tt), (tt, (((ground arith, tt), tt, tt), tt)), ((ground arith, tt), tt, tt))

-- A handler in the middle of another document.
abbrev used : PathsReader
used = record { stack = name_b ∷ []; paths = name_c ∷ []; arr_stack = pos 4 ∷ negsuc 0 ∷ [] }

paths_reader-get_paths_example :
    Reader.read (Reader.clear used) (document_order.accept document)
    ≡ record Reader.cleared { paths = get_paths document [] [] }
paths_reader-get_paths_example =
    paths_reader-get_paths document_order used document document-NamesNoNul
      ((omega arith, (tt, ((tt, tt), tt))), (tt, tt))

-- The paths are "/a", "/a/1/b" and "/c".
document_paths :
    get_paths document [] []
    ≡ (b'/' ∷ b'a' ∷ []) ∷ (b'/' ∷ b'a' ∷ b'/' ∷ b'1' ∷ b'/' ∷ b'b' ∷ []) ∷ (b'/' ∷ b'c' ∷ []) ∷ []
unfolding get_paths c_str int_text to_string
document_paths = refl

attribute_reader-get_attributes_example :
    Attributes.read Attributes.cleared (document_order.accept document)
    ≡ get_attributes document Attributes.cleared
attribute_reader-get_attributes_example =
    attribute_reader-get_attributes document_order Attributes.cleared document document-NamesNoNul

bloom_handler_collects_nothing_example :
    Bloom.read (Bloom.clear Bloom.cleared) (document_order.accept document) ≡ Bloom.cleared
bloom_handler_collects_nothing_example =
    bloom_handler_collects_nothing document_order Bloom.cleared document
