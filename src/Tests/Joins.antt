-- ===== src/Tests/Joins.antt =====
-- What is proved of joins and of the costs of documents, on a few documents that are their own values.
use mathlib.Core.List.{Perm}
use mathlib.Core.List.Perm
use joda.Base.{
  ℕ, ◌≤◌, concat, All, suc, ◌+◌, ◌-◌, ◌%◌, ◌^◌, Option, some, Bool, true, ltb, List, [], ◌∷◌, ◌≡◌,
  refl, map, filter, length, arith,
}
use joda.Base.Int.{pos}
use joda.Base.Dict.{find}
use joda.Base.Text.{Str}
use joda.Json.{
  Json, scalar, bool, uint, string, null, obj, member, end, arr, nil, cons, size_items,
  size_members,
}
use joda.Json.Order.{document_order}
use joda.Tests.Predicates.{naturals}
use joda.Join.Manager.{
  Key, int_key, string_key, JoinDoc, Manager, new_manager, new_doc, id_of, create, join_all,
}
use joda.Join.Manager.Invariant.{Good, new_manager-Good, create-Good}
use joda.Join.Manager.Groups.{find_group}
use joda.Join.Manager.All.{has, group_of, join_all-find_group}
use joda.Join.Manager.Load.{load_all, load_all-Partitions}
use joda.Document.Cost.{Sizes, Capacities, check_document}
use joda.Document.Cost.Held.{bytes}
use joda.Document.Cost.Spare.{spare, nested, check_document-bytes}

abbrev itself : Json → Option Json
itself d = some d

abbrev text : Json
text = scalar (string (b'a' ∷ []))

abbrev rows : List Json
rows = text ∷ scalar (uint 7) ∷ scalar (bool true) ∷ text ∷ scalar null ∷ []

join_all-find_group_example :
    (n : Manager Json) × (join_all naturals itself new_manager rows ≡ some n)
    × ((j : Key)
        → find_group j n ≡ group_of naturals itself j (filter (has naturals itself j) rows))
join_all-find_group_example = join_all-find_group naturals itself rows (omega arith)

create-Good_example : Good {D = Json} (create (string_key (b'a' ∷ [])) new_manager)
unfolding id_of find
create-Good_example =
    create-Good new_manager new_manager-Good (omega arith) (string_key (b'a' ∷ [])) refl

-- A container has space for two documents.
abbrev space_for_two : ℕ → List (JoinDoc Json) → Bool
space_for_two capacity cont = ltb (length cont) 2

abbrev kilobyte : JoinDoc Json → ℕ
kilobyte d = 1024

abbrev three_groups : Manager Json
three_groups = record new_manager {
  docs =
      (4, new_doc (int_key (pos 1)))
      ∷ (5, new_doc (int_key (pos 2)))
      ∷ (6, new_doc (int_key (pos 3)))
      ∷ [];
}

-- The map gives the second document first.
abbrev another_order : List (ℕ × JoinDoc Json)
another_order =
    (5, new_doc (int_key (pos 2)))
    ∷ (4, new_doc (int_key (pos 1)))
    ∷ (6, new_doc (int_key (pos 3)))
    ∷ []

another_order-Perm : Perm another_order three_groups.docs
another_order-Perm =
    Perm.swap (4, new_doc (int_key (pos 1))) (5, new_doc (int_key (pos 2)))
      ((6, new_doc (int_key (pos 3))) ∷ [])

load_all-Partitions_example :
    (conts : List (List (JoinDoc Json))) × (load_all 4 kilobyte space_for_two
        (suc (length another_order))
        (record { docs = another_order; join_size = 0 })
      ≡ some conts)
    × Perm (concat conts) (map (λ e. e.1) three_groups.docs)
    × All (λ cont. 1 ≤ length cont) conts
load_all-Partitions_example =
    load_all-Partitions 4 kilobyte space_for_two (omega arith) three_groups another_order 0
      another_order-Perm

abbrev usual_sizes : Sizes
usual_sizes = record {
  value_size = 16;
  member_size = 32;
  char_size = 1;
  document_size = 100;
  vector_size = 24;
  short_length = 13;
  value-document = omega arith;
}

-- Room for one more.
abbrev one_more : Capacities
one_more = record {
  capacity = λ xs. size_items xs + 1;
  member_capacity = λ ms. size_members ms + 1;
  size-capacity = λ xs. omega arith;
  size-member_capacity = λ ms. omega arith;
}

-- {"a": [7, "a"]}
abbrev small : Json
small = obj (member (b'a' ∷ []) (arr (cons (scalar (uint 7)) (cons text nil))) end)

abbrev always : Str → Bool
always s = true

check_document-bytes_example :
    let s =
      check_document usual_sizes one_more document_order always
        (record { cost = 0; theoretical_cost = 0 })
        small in
    (s.theoretical_cost % 2 ^ 64 ≡ bytes usual_sizes small % 2 ^ 64)
    × ((s.cost + nested usual_sizes one_more small) % 2 ^ 64
        ≡ (s.theoretical_cost + spare usual_sizes one_more small + (100 - 16)) % 2 ^ 64)
check_document-bytes_example =
    check_document-bytes usual_sizes one_more document_order always (λ s. refl) small

abbrev two_paths : List Str
two_paths = (b'/' ∷ b'a' ∷ []) ∷ (b'/' ∷ []) ∷ []
