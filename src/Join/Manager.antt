-- ===== src/Join/Manager.antt =====
-- libs/joda/core/modules/join/src/{MemoryJoinManager,MemoryJoinDoc,JoinManager}.cpp, where one thread
-- at a time joins documents. The value of a document is `fetch` of `valProv`; a call that follows a
-- null pointer gives `none`. Hash maps are dictionaries in order of insertion.
pub mod Invariant
pub mod Groups
pub mod Steps
pub mod Equal
pub mod All
pub mod Load
use joda.Base.{
  ℕ, ◌+◌, ◌%◌, ◌^◌, Option, none, some, Bool, true, false, List, [], ◌∷◌, ◌++◌, if◌then◌else◌, ◌==◌,
  ◌>>=◌,
}
use joda.Base.Int.{ℤ, int_eq}
use joda.Base.Dict.{find, put}
use joda.Base.Text.{Str, str_eq}
use joda.Json.{Json, scalar, bool, int64, string, Scalar}
use joda.Similarity.PathsDom.{c_str}
use joda.Values.Eval.{Machine, text_of}

-- A value that is joined on.
pub data Key : Type 0 where
  bool_key : Bool → Key
  int_key : ℤ → Key
  string_key : Str → Key

-- `MemoryJoinDoc`: its members "value" and "join".
pub record JoinDoc (D : Type 0) : Type 0 where
  pub value : Scalar
  pub joined : List D

pub record Manager (D : Type 0) : Type 0 where
  pub curr_id : ℕ
  pub l_map : List (ℤ × ℕ)
  pub s_map : List (Str × ℕ)
  pub true_val_created : Bool
  pub false_val_created : Bool
  pub docs : List (ℕ × JoinDoc D)

abbrev pub not_hashable : ℕ
not_hashable = 0

abbrev pub false_val : ℕ
false_val = 1

abbrev pub true_val : ℕ
true_val = 2

abbrev pub startnormal_val : ℕ
startnormal_val = 3

-- The tests of `getJoinVal`, in order.
unfoldable pub key_of : Machine → Json → Option Key
key_of machine (scalar (bool b)) = some (bool_key b)
key_of machine (scalar x) = elim (machine.get_int64 x) [
  | some d ↦ some (int_key d)
  | none ↦ elim (text_of x) [ none ↦ none | some s ↦ some (string_key (c_str s)) ]
]
key_of machine _ = none

-- The argument of the constructor of `MemoryJoinDoc`, as its member "value".
abbrev pub value_of : Key → Scalar
value_of (bool_key b) = bool b
value_of (int_key d) = int64 d
value_of (string_key s) = string s

module _ {D : Type 0} where
  abbrev pub new_manager : Manager D
  new_manager = record {
    curr_id = startnormal_val;
    l_map = [];
    s_map = [];
    true_val_created = false;
    false_val_created = false;
    docs = [];
  }

  -- The id that was given to a value, if any.
  unfoldable pub id_of : Key → Manager D → Option ℕ
  id_of (bool_key true) m = if m.true_val_created then some true_val else none
  id_of (bool_key false) m = if m.false_val_created then some false_val else none
  id_of (int_key d) m = find int_eq d m.l_map
  id_of (string_key s) m = find str_eq s m.s_map

  -- `++currID`, for the values other than Booleans.
  unfoldable pub next_id : Key → Manager D → ℕ
  next_id (bool_key true) m = true_val
  next_id (bool_key false) m = false_val
  next_id _ m = (m.curr_id + 1) % 2 ^ 64

  abbrev pub new_doc : Key → JoinDoc D
  new_doc k = record { value = value_of k; joined = [] }

  -- The branch of `getJoinVal` for a value that has no id.
  unfoldable pub create : Key → Manager D → Manager D
  unfolding next_id
  create (bool_key true) m = record m {
    true_val_created = true;
    docs = put ◌==◌ true_val (new_doc (bool_key true)) m.docs;
  }
  create (bool_key false) m = record m {
    false_val_created = true;
    docs = put ◌==◌ false_val (new_doc (bool_key false)) m.docs;
  }
  create (int_key d) m =
      let id = next_id (int_key d) m in
      record m {
        curr_id = id;
        l_map = put int_eq d id m.l_map;
        docs = put ◌==◌ id (new_doc (int_key d)) m.docs;
      }
  create (string_key s) m =
      let id = next_id (string_key s) m in
      record m {
        curr_id = id;
        s_map = put str_eq s id m.s_map;
        docs = put ◌==◌ id (new_doc (string_key s)) m.docs;
      }

  -- `getJoinVal`, for a value with a key.
  unfoldable pub join_val_of : Key → Manager D → ℕ × Manager D
  join_val_of k m = elim (id_of k m) [ none ↦ (next_id k m, create k m) | some id ↦ (id, m) ]

  unfoldable pub get_join_val : Machine → Json → Manager D → ℕ × Manager D
  unfolding join_val_of
  get_join_val machine val m = elim (key_of machine val) [
    | none ↦ (not_hashable, m)
    | some k ↦ join_val_of k m
  ]

  -- `docs[id]->join(doc)`, where `docs[id]` may be a null pointer.
  unfoldable pub join_into : ℕ → D → Manager D → Option (Manager D)
  join_into id doc m = find ◌==◌ id m.docs >>= λ d.
      some (record m { docs = put ◌==◌ id (record d { joined = d.joined ++ doc ∷ [] }) m.docs })

  module _ (machine : Machine) (value : D → Option Json) where
    -- `join(doc)`, for the value of the document.
    unfoldable pub join_value : Option Json → Manager D → D → Option (Manager D)
    unfolding get_join_val join_into
    join_value none m doc = some m
    join_value (some val) m doc =
        let r = get_join_val machine val m in
        if r.0 == not_hashable then some r.1 else join_into r.0 doc r.1

    unfoldable pub join : Manager D → D → Option (Manager D)
    unfolding join_value
    join m doc = join_value (value doc) m doc

    -- `JoinManager::join(cont)`
    unfoldable pub join_all : Manager D → List D → Option (Manager D)
    unfolding join
    join_all m [] = some m
    join_all m (doc ∷ docs) = join m doc >>= λ n. join_all n docs
