-- ===== src/Join/Manager/Steps.antt =====
-- MemoryJoinManager.cpp: `join` for a document and for many, as what it does to every group.
use joda.Base.{
  ℕ, ◌+◌, ◌^◌, ◌≤◌, ◌<◌, none, some, false, ◌≡◌, ◌⊎◌, inl, inr, sym, ap, subst, ◌∙◌, if◌then◌else◌,
  ◌==◌, Bool-cases, Option-cases, arith,
}
use joda.Join.Manager.{
  Key, Manager, id_of, next_id, new_doc, create, join_val_of, join_into, not_hashable,
}
use joda.Join.Manager.Invariant.{
  same_key, same_key_refl, same_key→eq, Good, id_of-create, curr_id-create, create-Good, find-new,
  find-create,
}
use joda.Join.Manager.Groups.{
  find_group, push, pushed, Joined, find_group-some, find_group-none, join_into-Joined,
}

nonzero : (id : ℕ) → 1 ≤ id → id == not_hashable ≡ false
nonzero id h = ground arith

module _ {D : Type 0} (m : Manager D) (good : Good m) (room : m.curr_id + 1 < 2 ^ 64) (k : Key)
    (d : D) where
  module _ (nothing : id_of k m ≡ none) where
    own-id : id_of k (create k m) ≡ some (next_id k m)
    own-id =
        id_of-create k k m ∙ ap (λ b. if b then some (next_id k m) else id_of k m) (same_key_refl k)

    other-id_of : (j : Key) → same_key k j ≡ false → id_of j (create k m) ≡ id_of j m
    other-id_of j other =
        id_of-create j k m ∙ ap (λ b. if b then some (next_id k m) else id_of j m) other

    kept :
        (j : Key)
        → same_key k j ≡ false
        → (id_of j m ≡ none) ⊎ ((i : ℕ) × (id_of j m ≡ some i))
        → find_group j (create k m) ≡ find_group j m
    kept j other (inl absent) =
        find_group-none j (create k m) (other-id_of j other ∙ absent)
        ∙ sym (find_group-none j m absent)
    kept j other (inr (i, g)) =
        find_group-some j i (create k m) (other-id_of j other ∙ g)
        ∙ find-create m good room k j i nothing g
        ∙ sym (find_group-some j i m g)

    create-step :
        (j : Key)
        → find_group j (create k m) ≡ (if same_key k j then some (new_doc k) else find_group j m)
    create-step j = elim (Bool-cases (same_key k j)) [
      | inl same ↦
          subst (λ l. find_group l (create k m) ≡ some (new_doc k)) (same_key→eq k j same)
            (find_group-some k (next_id k m) (create k m) own-id ∙ find-new m k)
          ∙ ap (λ b. if b then some (new_doc k) else find_group j m) (sym same)
      | inr other ↦
          kept j other (Option-cases (id_of j m))
          ∙ ap (λ b. if b then some (new_doc k) else find_group j m) (sym other)
    ]

    pushed-create :
        (j : Key)
        → (if same_key k j
            then some (pushed j (find_group j (create k m)) d)
            else find_group j (create k m))
          ≡ (if same_key k j then some (pushed j (find_group j m) d) else find_group j m)
    pushed-create j = elim (Bool-cases (same_key k j)) [
      | inl same ↦
          ap
            (λ b.
              if b
              then some (pushed j (find_group j (create k m)) d)
              else find_group j (create k m))
            same
          ∙ ap (λ o. some (pushed j o d))
              (create-step j ∙ ap (λ b. if b then some (new_doc k) else find_group j m) same)
          ∙ ap (λ l. some (push (new_doc l) d)) (same_key→eq k j same)
          ∙ ap (λ o. some (pushed j o d))
              (sym (
                find_group-none j m (subst (λ l. id_of l m ≡ none) (same_key→eq k j same) nothing)))
          ∙ ap (λ b. if b then some (pushed j (find_group j m) d) else find_group j m) (sym same)
      | inr other ↦
          ap
            (λ b.
              if b
              then some (pushed j (find_group j (create k m)) d)
              else find_group j (create k m))
            other
          ∙ create-step j
          ∙ ap (λ b. if b then some (new_doc k) else find_group j m) other
          ∙ ap (λ b. if b then some (pushed j (find_group j m) d) else find_group j m) (sym other)
    ]

    after-create :
        (n : Manager D)
        → n.curr_id ≡ (create k m).curr_id
        → Joined k d (create k m) n
        → Joined k d m n
    after-create n same_curr_id joined = record {
      is_good = joined.is_good;
      curr_id-step = omega (arith, same_curr_id, curr_id-create k m good.start room);
      group-step = λ j. joined.group-step j ∙ pushed-create j;
    }

  -- The id that a key gets, and the group that it is joined into.
  abbrev IsJoined : ℕ × Manager D → Type 0
  IsJoined r =
      (r.0 == not_hashable ≡ false)
      × (n : Manager D) × (join_into r.0 d r.1 ≡ some n)
      × Joined k d m n

  pub join_val_of-IsJoined : IsJoined (join_val_of k m)
  unfolding join_val_of
  join_val_of-IsJoined = elim (Option-cases (id_of k m)) [
    | inr found ↦
        let r = join_into-Joined m good k found.0 found.1 d in
        subst IsJoined
          (sym (ap (λ o. elim o [ none ↦ (next_id k m, create k m) | some id ↦ (id, m) ]) found.1))
          (nonzero found.0 (good.in_range k found.0 found.1).0, r.0, r.1, r.3)
    | inl nothing ↦
        let r =
          join_into-Joined (create k m) (create-Good m good room k nothing) k (next_id k m)
            (own-id nothing) d in
        subst IsJoined
          (sym (ap (λ o. elim o [ none ↦ (next_id k m, create k m) | some id ↦ (id, m) ]) nothing))
          (
            nonzero (next_id k m) (curr_id-create k m good.start room).2,
            r.0,
            r.1,
            after-create nothing r.0 r.2 r.3,
          )
  ]
