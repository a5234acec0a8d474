-- ===== src/Join/Manager/All.antt =====
-- MemoryJoinManager.cpp and JoinManager.cpp: joining all documents of a query.
use joda.Base.{
  ℕ, ◌+◌, ◌^◌, ◌≤◌, ◌<◌, Option, none, some, Bool, true, false, List, ◌++◌, ◌∷◌, [], ◌≡◌, inl, inr,
  refl, sym, ap, ◌∙◌, if◌then◌else◌, ◌>>=◌, ◌==◌, Bool-cases, Option-cases, arith, filter, length,
  append-nil, append_assoc, fold,
}
use joda.Base.Dict.{find}
use joda.Json.{Json}
use joda.Values.Eval.{Machine}
use joda.Join.Manager.{
  Key, bool_key, int_key, string_key, key_of, value_of, JoinDoc, Manager, new_manager, id_of,
  join_val_of, get_join_val, join_into, join, join_value, join_all, not_hashable, new_doc,
}
use joda.Join.Manager.Invariant.{same_key, Good, new_manager-Good}
use joda.Join.Manager.Equal.{has_value, key_of-has_value}
use joda.Join.Manager.Groups.{find_group, push, pushed, Joined}
use joda.Join.Manager.Steps.{join_val_of-IsJoined}

-- `join(doc)`, for a document with a key.
abbrev join_key : {D : Type 0} → Key → Manager D → D → Option (Manager D)
join_key k m d =
    let r = join_val_of k m in if r.0 == not_hashable then some r.1 else join_into r.0 d r.1

module _ {D : Type 0} (machine : Machine) (value : D → Option Json) where
  abbrev pub doc_key : D → Option Key
  doc_key d = value d >>= key_of machine

  abbrev pub in_group : Key → D → Bool
  in_group j d = elim (doc_key d) [ none ↦ false | some k ↦ same_key k j ]

  record Stepped (d : D) (m n : Manager D) : Type 0 where
    is_good : Good n
    curr_id-step : n.curr_id ≤ m.curr_id + 1
    group-step :
        (j : Key)
        → find_group j n
          ≡ (if in_group j d then some (pushed j (find_group j m) d) else find_group j m)

  module _ (m : Manager D) (good : Good m) (room : m.curr_id + 1 < 2 ^ 64) (d : D) where
    join-idle : doc_key d ≡ none → Stepped d m m
    join-idle h = record {
      is_good = good;
      curr_id-step = omega arith;
      group-step = λ j. sym (
          ap
            (λ o.
              if elim o [ none ↦ false | some k ↦ same_key k j ]
              then some (pushed j (find_group j m) d)
              else find_group j m)
            h);
    }

    join-found : (k : Key) → doc_key d ≡ some k → (n : Manager D) → Joined k d m n → Stepped d m n
    join-found k h n joined = record {
      is_good = joined.is_good;
      curr_id-step = joined.curr_id-step;
      group-step = λ j.
          joined.group-step j
          ∙ sym (
              ap
                (λ o.
                  if elim o [ none ↦ false | some l ↦ same_key l j ]
                  then some (pushed j (find_group j m) d)
                  else find_group j m)
                h);
    }

    by_key :
        (k : Option Key)
        → (let r : ℕ × Manager D = elim k [ none ↦ (not_hashable, m) | some l ↦ join_val_of l m ] in
            if r.0 == not_hashable then some r.1 else join_into r.0 d r.1)
          ≡ elim k [ none ↦ some m | some l ↦ join_key l m d ]
    by_key none = refl
    by_key (some l) = refl

    join_value-key :
        (o : Option Json)
        → join_value machine value o m d
          ≡ elim (o >>= key_of machine) [ none ↦ some m | some l ↦ join_key l m d ]
    unfolding join_value get_join_val
    join_value-key none = refl
    join_value-key (some val) = by_key (key_of machine val)

    join-Stepped : (n : Manager D) × (join machine value m d ≡ some n) × Stepped d m n
    unfolding join
    join-Stepped = elim (Option-cases (doc_key d)) [
      | inl idle ↦ (
        m,
        join_value-key (value d)
            ∙ ap (λ o. elim o [ none ↦ some m | some l ↦ join_key l m d ]) idle,
        join-idle idle,
      )
      | inr found ↦
          let r = join_val_of-IsJoined m good room found.0 d in
          (
            r.1,
            join_value-key (value d)
                ∙ ap (λ o. elim o [ none ↦ some m | some l ↦ join_key l m d ]) found.1
                ∙ ap
                    (λ b.
                      if b
                      then some (join_val_of found.0 m).1
                      else join_into (join_val_of found.0 m).0 d (join_val_of found.0 m).1)
                    r.0
                ∙ r.2,
            join-found found.0 found.1 r.1 r.3,
          )
    ]

  abbrev next : Key → Option (JoinDoc D) → D → Option (JoinDoc D)
  next j o d = if in_group j d then some (pushed j o d) else o

  -- Every document is joined, and no null pointer is followed.
  join_all-next :
      (docs : List D) (m : Manager D)
      → Good m
      → m.curr_id + length docs < 2 ^ 64
      → (n : Manager D) × (join_all machine value m docs ≡ some n)
        × ((j : Key) → find_group j n ≡ fold (next j) (find_group j m) docs)
  unfolding join_all
  join_all-next [] m good room = (m, refl, λ j. refl)
  join_all-next (d ∷ docs) m good room =
      let s = join-Stepped m good (omega arith) d in
      let r = join_all-next docs s.0 s.2.is_good (omega (arith, s.2.curr_id-step)) in
      (
        r.0,
        ap (λ o. o >>= λ n. join_all machine value n docs) s.1 ∙ r.1,
        λ j. r.2 j ∙ ap (λ o. fold (next j) o docs) (s.2.group-step j),
      )

  -- The document that groups the given ones.
  unfoldable pub group_of : Key → List D → Option (JoinDoc D)
  group_of j [] = none
  group_of j (d ∷ docs) = some (record { value = value_of j; joined = d ∷ docs })

  fold-some :
      (j : Key) (docs : List D) (e : JoinDoc D)
      → fold (next j) (some e) docs
        ≡ some (record e { joined = e.joined ++ filter (in_group j) docs })
  unfolding filter
  fold-some j [] e = ap (λ l. some (record e { joined = l })) (sym (append-nil e.joined))
  fold-some j (d ∷ docs) e = elim (Bool-cases (in_group j d)) [
    | inl hit ↦ rw hit (
        fold-some j docs (push e d)
        ∙ ap (λ l. some (record e { joined = l }))
            (append_assoc e.joined (d ∷ []) (filter (in_group j) docs)))
    | inr miss ↦ rw miss (fold-some j docs e)
  ]

  fold-none :
      (j : Key) (docs : List D) → fold (next j) none docs ≡ group_of j (filter (in_group j) docs)
  unfolding filter group_of
  fold-none j [] = refl
  fold-none j (d ∷ docs) = elim (Bool-cases (in_group j d)) [
    | inl hit ↦ rw hit (fold-some j docs (push (new_doc j) d))
    | inr miss ↦ rw miss (fold-none j docs)
  ]

  find_group-new : (j : Key) → find_group {D = D} j new_manager ≡ none
  unfolding id_of find
  find_group-new (bool_key true) = refl
  find_group-new (bool_key false) = refl
  find_group-new (int_key d) = refl
  find_group-new (string_key s) = refl

  -- Whether a document has the value of a group.
  abbrev pub has : Key → D → Bool
  has j d = elim (value d) [ none ↦ false | some v ↦ has_value machine j v ]

  in_group-has :
      (j : Key) (o : Option Json)
      → elim (o >>= key_of machine) [ none ↦ false | some k ↦ same_key k j ]
        ≡ elim o [ none ↦ false | some v ↦ has_value machine j v ]
  in_group-has j none = refl
  in_group-has j (some v) = key_of-has_value machine j v

  -- For all documents, fewer than 2^64 - 3 of them, a new manager joins every one of them without
  -- following a null pointer, and then holds for every Boolean and every `int64_t` the documents with
  -- this value, and for every string those with a string that is it up to the first zero byte, and no
  -- other, in the order in which they came, and nothing when there is none. A document with no value,
  -- or with a null, another number, an array or an object, is in no group.
  pub join_all-find_group :
      (docs : List D)
      → length docs + 3 < 2 ^ 64
      → (n : Manager D) × (join_all machine value new_manager docs ≡ some n)
        × ((j : Key) → find_group j n ≡ group_of j (filter (has j) docs))
  join_all-find_group docs room =
      let r = join_all-next docs new_manager new_manager-Good (omega arith) in
      (
        r.0,
        r.1,
        λ j.
            r.2 j
            ∙ ap (λ o. fold (next j) o docs) (find_group-new j)
            ∙ fold-none j docs
            ∙ ap (λ t. group_of j (filter t docs)) (λ i d. in_group-has j (value d) i),
      )
