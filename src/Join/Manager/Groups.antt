-- ===== src/Join/Manager/Groups.antt =====
-- MemoryJoinManager.cpp: what every group holds after documents are joined.
use joda.Base.{
  ℕ, ◌+◌, ◌≤◌, Option, none, some, true, false, List, ◌++◌, ◌∷◌, [], ◌≡◌, ◌⊎◌, inl, inr, refl, sym,
  ap, subst, ◌∙◌, if◌then◌else◌, ◌>>=◌, ◌==◌, ==_iff, Bool-cases, Option-cases, arith,
}
use joda.Base.Dict.{find, put, find-put, nat_eq_refl, nat_eq-IsPartialEquivalence}
use joda.Join.Manager.{
  Key, bool_key, int_key, string_key, JoinDoc, Manager, id_of, new_doc, join_into,
}
use joda.Join.Manager.Invariant.{same_key, same_key_refl, same_key→eq, Good}

module _ {D : Type 0} where
  -- The group of a key.
  abbrev pub find_group : Key → Manager D → Option (JoinDoc D)
  find_group j m = elim (id_of j m) [ none ↦ none | some id ↦ find ◌==◌ id m.docs ]

  abbrev pub push : JoinDoc D → D → JoinDoc D
  push e d = record e { joined = e.joined ++ d ∷ [] }

  abbrev pub pushed : Key → Option (JoinDoc D) → D → JoinDoc D
  pushed j none d = push (new_doc j) d
  pushed j (some e) d = push e d

  -- What joining a document with the key `k` does.
  pub record Joined (k : Key) (d : D) (m n : Manager D) : Type 0 where
    pub is_good : Good n
    pub curr_id-step : n.curr_id ≤ m.curr_id + 1
    pub group-step :
        (j : Key)
        → find_group j n
          ≡ (if same_key k j then some (pushed j (find_group j m) d) else find_group j m)

  pub find_group-some :
      (j : Key) (i : ℕ) (m : Manager D) → id_of j m ≡ some i → find_group j m ≡ find ◌==◌ i m.docs
  find_group-some j i m h = ap (λ o. elim o [ none ↦ none | some id ↦ find ◌==◌ id m.docs ]) h

  pub find_group-none : (j : Key) (m : Manager D) → id_of j m ≡ none → find_group j m ≡ none
  find_group-none j m h = ap (λ o. elim o [ none ↦ none | some id ↦ find ◌==◌ id m.docs ]) h

  id_of-docs :
      (j : Key) (m : Manager D) (docs : List (ℕ × JoinDoc D))
      → id_of j (record m { docs = docs }) ≡ id_of j m
  unfolding id_of
  id_of-docs (bool_key true) m docs = refl
  id_of-docs (bool_key false) m docs = refl
  id_of-docs (int_key d) m docs = refl
  id_of-docs (string_key s) m docs = refl

  module _ (m : Manager D) (good : Good m) (k : Key) (id : ℕ) (h : id_of k m ≡ some id)
      (d : D) where
    abbrev stored : JoinDoc D → Manager D
    stored e = record m { docs = put ◌==◌ id e m.docs }

    stored-Good : (e : JoinDoc D) → Good (stored e)
    stored-Good e = record {
      start = good.start;
      in_range = λ j i g. good.in_range j i (sym (id_of-docs j m (put ◌==◌ id e m.docs)) ∙ g);
      above = λ j i g. good.above j i (sym (id_of-docs j m (put ◌==◌ id e m.docs)) ∙ g);
      injective = λ i j l f g.
          good.injective i j l (sym (id_of-docs i m (put ◌==◌ id e m.docs)) ∙ f)
            (sym (id_of-docs j m (put ◌==◌ id e m.docs)) ∙ g);
      allocated = λ j i g. allocated-put j i (sym (id_of-docs j m (put ◌==◌ id e m.docs)) ∙ g);
    }
      where
        allocated-put :
            (j : Key) (i : ℕ)
            → id_of j m ≡ some i
            → (x : JoinDoc D) × (find ◌==◌ i (put ◌==◌ id e m.docs) ≡ some x)
        allocated-put j i g = elim (Bool-cases (id == i)) [
          | inl same ↦ (
            e,
            find-put ◌==◌ nat_eq-IsPartialEquivalence id i e m.docs
                ∙ ap (λ b. if b then some e else find ◌==◌ i m.docs) same,
          )
          | inr other ↦
              let a = good.allocated j i g in
              (
                a.0,
                find-put ◌==◌ nat_eq-IsPartialEquivalence id i e m.docs
                    ∙ ap (λ b. if b then some e else find ◌==◌ i m.docs) other
                    ∙ a.1,
              )
        ]

    other-id : (j : Key) (i : ℕ) → same_key k j ≡ false → id_of j m ≡ some i → id == i ≡ false
    other-id j i other g = elim (Bool-cases (id == i)) [
      | inl same ↦
          let p = good.injective k j i (h ∙ ap some ((==_iff id i).0 same)) g in
          let t = sym (ap (same_key k) p) ∙ same_key_refl k in ground (arith, t, other)
      | inr different ↦ different
    ]

    find_group-stored :
        (e : JoinDoc D) (j : Key)
        → find_group j (stored e) ≡ (if same_key k j then some e else find_group j m)
    find_group-stored e j = elim (Bool-cases (same_key k j)) [
      | inl same ↦
          find_group-some j id (stored e) (
            id_of-docs j m (put ◌==◌ id e m.docs)
            ∙ subst (λ l. id_of l m ≡ some id) (same_key→eq k j same) h)
          ∙ find-put ◌==◌ nat_eq-IsPartialEquivalence id id e m.docs
          ∙ ap (λ b. if b then some e else find ◌==◌ id m.docs) (nat_eq_refl id)
          ∙ ap (λ b. if b then some e else find_group j m) (sym same)
      | inr other ↦
          kept other (Option-cases (id_of j m))
          ∙ ap (λ b. if b then some e else find_group j m) (sym other)
    ]
      where
        kept :
            same_key k j ≡ false
            → (id_of j m ≡ none) ⊎ ((i : ℕ) × (id_of j m ≡ some i))
            → find_group j (stored e) ≡ find_group j m
        kept other (inl nothing) =
            find_group-none j (stored e) (id_of-docs j m (put ◌==◌ id e m.docs) ∙ nothing)
            ∙ sym (find_group-none j m nothing)
        kept other (inr (i, g)) =
            find_group-some j i (stored e) (id_of-docs j m (put ◌==◌ id e m.docs) ∙ g)
            ∙ find-put ◌==◌ nat_eq-IsPartialEquivalence id i e m.docs
            ∙ ap (λ b. if b then some e else find ◌==◌ i m.docs) (other-id j i other g)
            ∙ sym (find_group-some j i m g)

    -- `join_into` of a key that has an id.
    pub join_into-Joined :
        (n : Manager D) × (join_into id d m ≡ some n) × (n.curr_id ≡ m.curr_id) × Joined k d m n
    unfolding join_into
    join_into-Joined =
        let a = good.allocated k id h in
        (
          stored (push a.0 d),
          ap (λ o. o >>= λ e. some (stored (push e d))) a.1,
          refl,
          record {
            is_good = stored-Good (push a.0 d);
            curr_id-step = omega arith;
            group-step =
                λ j. find_group-stored (push a.0 d) j ∙ pushed-same j (good.allocated k id h);
          },
        )
      where
        pushed-same :
            (j : Key) (a : (e : JoinDoc D) × (find ◌==◌ id m.docs ≡ some e))
            → (if same_key k j then some (push a.0 d) else find_group j m)
              ≡ (if same_key k j then some (pushed j (find_group j m) d) else find_group j m)
        pushed-same j a = elim (Bool-cases (same_key k j)) [
          | inl same ↦ rw same (
              ap (λ o. some (pushed j o d))
                (sym (
                  find_group-some j id m (subst (λ l. id_of l m ≡ some id) (same_key→eq k j same) h)
                  ∙ a.1)))
          | inr other ↦ rw other refl
        ]
