-- ===== src/Join/Manager/Invariant.antt =====
-- The ids of MemoryJoinManager.cpp: no two values share one, and each has a document.
use joda.Base.{
  ℕ, ◌+◌, ◌^◌, ◌%◌, ◌≤◌, ◌<◌, none, some, Bool, true, false, ◌≡◌, ◌⊎◌, inl, inr, refl, sym, ap,
  subst, ◌∙◌, if◌then◌else◌, ◌==◌, ==_iff, Bool-cases, arith,
}
use joda.Base.Int.{int_eq, int_eq_refl, int_eq→eq}
use joda.Base.Dict.{
  find, put, find-put, nat_eq_refl, nat_eq-IsPartialEquivalence, int_eq-IsPartialEquivalence,
  str_eq-IsPartialEquivalence,
}
use joda.Base.Text.{str_eq, str_eq_refl, str_eq→eq}
use joda.Join.Manager.{
  Key, bool_key, int_key, string_key, JoinDoc, Manager, id_of, next_id, new_doc, new_manager,
  create,
}

abbrev same_bool : Bool → Bool → Bool
same_bool true b = b
same_bool false true = false
same_bool false false = true

abbrev pub same_key : Key → Key → Bool
same_key (bool_key a) (bool_key b) = same_bool a b
same_key (int_key d) (int_key e) = int_eq d e
same_key (string_key s) (string_key t) = str_eq s t
same_key _ _ = false

pub same_key_refl : (k : Key) → same_key k k ≡ true
same_key_refl (bool_key true) = refl
same_key_refl (bool_key false) = refl
same_key_refl (int_key d) = int_eq_refl d
same_key_refl (string_key s) = str_eq_refl s

pub same_key→eq : (j k : Key) → same_key j k ≡ true → j ≡ k
same_key→eq (bool_key true) (bool_key true) h = refl
same_key→eq (bool_key false) (bool_key false) h = refl
same_key→eq (int_key d) (int_key e) h = ap int_key (int_eq→eq d e h)
same_key→eq (string_key s) (string_key t) h = ap string_key (str_eq→eq s t h)
same_key→eq (bool_key true) (bool_key false) h = ground arith
same_key→eq (bool_key false) (bool_key true) h = ground arith
same_key→eq (bool_key a) (int_key e) h = ground arith
same_key→eq (bool_key a) (string_key t) h = ground arith
same_key→eq (int_key d) (bool_key b) h = ground arith
same_key→eq (int_key d) (string_key t) h = ground arith
same_key→eq (string_key s) (bool_key b) h = ground arith
same_key→eq (string_key s) (int_key e) h = ground arith

-- The ids of integers and strings are above the fixed ones.
abbrev Above : Key → ℕ → Type 0
Above (bool_key b) id = Unit
Above _ id = 3 < id

pub record Good {D : Type 0} (m : Manager D) : Type 0 where
  pub start : 3 ≤ m.curr_id
  pub in_range : (k : Key) (id : ℕ) → id_of k m ≡ some id → (1 ≤ id) × (id ≤ m.curr_id)
  pub above : (k : Key) (id : ℕ) → id_of k m ≡ some id → Above k id
  pub injective : (j k : Key) (id : ℕ) → id_of j m ≡ some id → id_of k m ≡ some id → j ≡ k
  pub allocated :
      (k : Key) (id : ℕ) → id_of k m ≡ some id → (d : JoinDoc D) × (find ◌==◌ id m.docs ≡ some d)

some-injective : {A : Type 0} {a b : A} → some a ≡ some b → a ≡ b
some-injective h = cc

module _ {D : Type 0} where
  pub id_of-create :
      (j k : Key) (m : Manager D)
      → id_of j (create k m) ≡ (if same_key k j then some (next_id k m) else id_of j m)
  unfolding id_of create next_id
  id_of-create (bool_key true) (bool_key true) m = refl
  id_of-create (bool_key true) (bool_key false) m = refl
  id_of-create (bool_key false) (bool_key true) m = refl
  id_of-create (bool_key false) (bool_key false) m = refl
  id_of-create (int_key d) (int_key e) m =
      find-put int_eq int_eq-IsPartialEquivalence e d ((m.curr_id + 1) % 2 ^ 64) m.l_map
  id_of-create (string_key s) (string_key t) m =
      find-put str_eq str_eq-IsPartialEquivalence t s ((m.curr_id + 1) % 2 ^ 64) m.s_map
  id_of-create (int_key d) (bool_key true) m = refl
  id_of-create (int_key d) (bool_key false) m = refl
  id_of-create (int_key d) (string_key t) m = refl
  id_of-create (string_key s) (bool_key true) m = refl
  id_of-create (string_key s) (bool_key false) m = refl
  id_of-create (string_key s) (int_key e) m = refl
  id_of-create (bool_key true) (int_key e) m = refl
  id_of-create (bool_key false) (int_key e) m = refl
  id_of-create (bool_key true) (string_key t) m = refl
  id_of-create (bool_key false) (string_key t) m = refl

  pub docs-create :
      (k : Key) (m : Manager D) → (create k m).docs ≡ put ◌==◌ (next_id k m) (new_doc k) m.docs
  unfolding create next_id
  docs-create (bool_key true) m = refl
  docs-create (bool_key false) m = refl
  docs-create (int_key d) m = refl
  docs-create (string_key s) m = refl

  pub curr_id-create :
      (k : Key) (m : Manager D)
      → 3 ≤ m.curr_id
      → m.curr_id + 1 < 2 ^ 64
      → (m.curr_id ≤ (create k m).curr_id)
        × ((create k m).curr_id ≤ m.curr_id + 1)
        × (1 ≤ next_id k m)
        × (next_id k m ≤ (create k m).curr_id)
        × Above k (next_id k m)
  unfolding create next_id
  curr_id-create (bool_key true) m h g = (omega arith, omega arith, omega arith, omega arith, tt)
  curr_id-create (bool_key false) m h g = (omega arith, omega arith, omega arith, omega arith, tt)
  curr_id-create (int_key d) m h g =
      (omega arith, omega arith, omega arith, omega arith, omega arith)
  curr_id-create (string_key s) m h g =
      (omega arith, omega arith, omega arith, omega arith, omega arith)

  pub new_manager-Good : Good {D = D} new_manager
  unfolding id_of find
  new_manager-Good = record {
    start = omega arith;
    in_range = λ k id h. elim (nobody k id h) [ ];
    above = λ k id h. elim (nobody k id h) [ ];
    injective = λ j k id h g. elim (nobody j id h) [ ];
    allocated = λ k id h. elim (nobody k id h) [ ];
  }
    where
      nobody : (k : Key) (id : ℕ) → id_of {D = D} k new_manager ≡ some id → ⊥
      nobody (bool_key true) id h = cc
      nobody (bool_key false) id h = cc
      nobody (int_key d) id h = cc
      nobody (string_key s) id h = cc

  pub find-new :
      (m : Manager D) (k : Key) → find ◌==◌ (next_id k m) (create k m).docs ≡ some (new_doc k)
  find-new m k =
      rw
        (
          docs-create k m,
          find-put ◌==◌ nat_eq-IsPartialEquivalence (next_id k m) (next_id k m) (new_doc k) m.docs,
          nat_eq_refl (next_id k m),
        )
        refl

  module _ (m : Manager D) (good : Good m) (room : m.curr_id + 1 < 2 ^ 64) where
    -- The id of a new value is nobody's.
    next_id-fresh :
        (k j : Key) (id : ℕ) → id_of k m ≡ none → id_of j m ≡ some id → next_id k m ≡ id → ⊥
    unfolding next_id id_of
    next_id-fresh (int_key d) j id h g e = omega (arith, e, good.in_range j id g, room)
    next_id-fresh (string_key s) j id h g e = omega (arith, e, good.in_range j id g, room)
    next_id-fresh (bool_key true) (bool_key true) id h g e = cc
    next_id-fresh (bool_key false) (bool_key false) id h g e = cc
    next_id-fresh (bool_key true) (bool_key false) id h g e = ground (arith, g, e)
    next_id-fresh (bool_key false) (bool_key true) id h g e = ground (arith, g, e)
    next_id-fresh (bool_key true) (int_key d) id h g e =
        omega (arith, e, good.above (int_key d) id g)
    next_id-fresh (bool_key true) (string_key s) id h g e =
        omega (arith, e, good.above (string_key s) id g)
    next_id-fresh (bool_key false) (int_key d) id h g e =
        omega (arith, e, good.above (int_key d) id g)
    next_id-fresh (bool_key false) (string_key s) id h g e =
        omega (arith, e, good.above (string_key s) id g)

    -- An id after `create` is the new one or an old one.
    id_of-create-cases :
        (k j : Key) (id : ℕ)
        → id_of j (create k m) ≡ some id
        → ((k ≡ j) × (next_id k m ≡ id)) ⊎ (id_of j m ≡ some id)
    id_of-create-cases k j id h = elim (Bool-cases (same_key k j)) [
      | inl same ↦ inl (
        same_key→eq k j same,
        some-injective (
            sym (ap (λ b. if b then some (next_id k m) else id_of j m) same)
            ∙ sym (id_of-create j k m)
            ∙ h),
      )
      | inr other ↦ inr (
          sym (ap (λ b. if b then some (next_id k m) else id_of j m) other)
          ∙ sym (id_of-create j k m)
          ∙ h)
    ]

    other-id :
        (k j : Key) (id : ℕ) → id_of k m ≡ none → id_of j m ≡ some id → next_id k m == id ≡ false
    other-id k j id h g = elim (Bool-cases (next_id k m == id)) [
      | inl same ↦ elim (next_id-fresh k j id h g ((==_iff (next_id k m) id).0 same)) [ ]
      | inr other ↦ other
    ]

    pub find-create :
        (k j : Key) (id : ℕ)
        → id_of k m ≡ none
        → id_of j m ≡ some id
        → find ◌==◌ id (create k m).docs ≡ find ◌==◌ id m.docs
    find-create k j id h g =
        rw
          (
            docs-create k m,
            find-put ◌==◌ nat_eq-IsPartialEquivalence (next_id k m) id (new_doc k) m.docs,
          )
          (ap (λ b. if b then some (new_doc k) else find ◌==◌ id m.docs) (other-id k j id h g))

    -- For every manager whose values have ids of their own, each with a document, and whose counter does
    -- not wrap, the branch of getJoinVal for a value without an id keeps that: the new id is nobody
    -- else's, and its document is there.
    pub create-Good : (k : Key) → id_of k m ≡ none → Good (create k m)
    create-Good k h = record {
      start = omega (arith, good.start, curr_id-create k m good.start room);
      in_range = λ j id g. elim (id_of-create-cases k j id g) [
        | inl new ↦ omega (arith, new.1, curr_id-create k m good.start room)
        | inr old ↦ omega (arith, good.in_range j id old, curr_id-create k m good.start room)
      ];
      above = λ j id g. elim (id_of-create-cases k j id g) [
        | inl new ↦
            subst (λ i. Above j i) new.1
              (subst (λ l. Above l (next_id k m)) new.0 ((curr_id-create k m good.start room).4))
        | inr old ↦ good.above j id old
      ];
      injective = λ i j id f g. elim (id_of-create-cases k i id f) [
        | inl new ↦ elim (id_of-create-cases k j id g) [
          | inl also ↦ sym new.0 ∙ also.0
          | inr old ↦ elim (next_id-fresh k j id h old new.1) [ ]
        ]
        | inr old ↦ elim (id_of-create-cases k j id g) [
          | inl new ↦ elim (next_id-fresh k i id h old new.1) [ ]
          | inr also ↦ good.injective i j id old also
        ]
      ];
      allocated = λ j id g. elim (id_of-create-cases k j id g) [
        | inl new ↦ (
          new_doc k,
          subst (λ i. find ◌==◌ i (create k m).docs ≡ some (new_doc k)) new.1 (find-new m k),
        )
        | inr old ↦ let a = good.allocated j id old in (a.0, find-create k j id h old ∙ a.1)
      ];
    }
