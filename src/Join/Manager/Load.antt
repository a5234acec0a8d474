-- ===== src/Join/Manager/Load.antt =====
-- `loadOneJoinCont` of libs/joda/core/modules/join/src/MemoryJoinManager.cpp and its caller,
-- src/pipeline/LoadJoin.cpp. A container is the list of its documents; whether one of some capacity has
-- space, and `getMemSize` of a document, are parameters. `docs` is the list of what is left of the hash
-- map, in the order in which the map is walked through, which may be any.
use joda.Base.{
  ℕ, zero, suc, ◌+◌, ◌/◌, ◌%◌, ◌^◌, ◌==◌, false, sym, subst, ◌≤◌, ◌<◌, Option, none, some, Bool,
  not, List, [], ◌∷◌, ◌++◌, ◌≡◌, inl, inr, refl, ap, ◌∙◌, map, concat, length, length-append, All,
  if◌then◌else◌, ◌>>=◌, Bool-cases, append_assoc, arith,
}
use mathlib.Core.List.{Perm, Permᴰ}
use mathlib.Core.Logic.{∥∥₁_map}
use joda.Join.Manager.{JoinDoc, Manager}

module _ {D : Type 0} (has_space : List (JoinDoc D) → Bool) where
  -- The loop over `docs`: the container and what is left.
  unfoldable pub fill :
      List (JoinDoc D) → List (ℕ × JoinDoc D) → List (JoinDoc D) × List (ℕ × JoinDoc D)
  fill cont [] = (cont, [])
  fill cont ((id, join_doc) ∷ docs) =
      let next = fill (cont ++ join_doc ∷ []) docs in
      if not (has_space (cont ++ join_doc ∷ [])) then (cont ++ join_doc ∷ [], docs) else next

  -- Nothing is lost, and neither the container nor what is left grows into the other.
  abbrev Filled :
      List (JoinDoc D) → List (ℕ × JoinDoc D) → List (JoinDoc D) × List (ℕ × JoinDoc D) → Type 0
  Filled cont docs r =
      (r.0 ++ map (λ e. e.1) r.1 ≡ cont ++ map (λ e. e.1) docs)
      × (length r.1 ≤ length docs)
      × (length cont ≤ length r.0)

  fill-step :
      (id : ℕ) (d : JoinDoc D) (docs : List (ℕ × JoinDoc D)) (cont : List (JoinDoc D))
      → Filled (cont ++ d ∷ []) docs (fill (cont ++ d ∷ []) docs)
      → Filled (cont ++ d ∷ []) docs (fill cont ((id, d) ∷ docs))
  unfolding fill
  fill-step id d docs cont h = elim (Bool-cases (not (has_space (cont ++ d ∷ [])))) [
    | inl full ↦ rw full (refl, omega arith, omega arith)
    | inr more ↦ rw more h
  ]

  fill-Filled :
      (docs : List (ℕ × JoinDoc D)) (cont : List (JoinDoc D)) → Filled cont docs (fill cont docs)
  unfolding fill
  fill-Filled [] cont = (refl, omega arith, omega arith)
  fill-Filled ((id, d) ∷ docs) cont =
      let r = fill-step id d docs cont (fill-Filled docs (cont ++ d ∷ [])) in
      (
        r.0 ∙ append_assoc cont (d ∷ []) (map (λ e. e.1) docs),
        omega (arith, r.1),
        omega (arith, r.2, length-append cont (d ∷ [])),
      )

  fill-Partitions :
      (id : ℕ) (d : JoinDoc D) (docs : List (ℕ × JoinDoc D))
      → Filled (d ∷ []) docs (fill [] ((id, d) ∷ docs))
  fill-Partitions id d docs = fill-step id d docs [] (fill-Filled docs (d ∷ []))

-- The members of the manager that the loading changes.
pub record Loading (D : Type 0) : Type 0 where
  pub docs : List (ℕ × JoinDoc D)
  pub join_size : ℕ

module _ {D : Type 0} (threads : ℕ) (mem_size : JoinDoc D → ℕ)
    (has_space : ℕ → List (JoinDoc D) → Bool) where
  -- The sum of the sizes, as a `size_t`.
  unfoldable pub sum_sizes : ℕ → List (ℕ × JoinDoc D) → ℕ
  sum_sizes size [] = size
  sum_sizes size ((id, doc) ∷ docs) = sum_sizes ((size + mem_size doc) % 2 ^ 64) docs

  abbrev size_of : Loading D → ℕ
  size_of s = if s.join_size == 0 then sum_sizes 0 s.docs else s.join_size

  -- The container, where a null pointer is `none`, and the members after it. `none` outside is a
  -- division by zero: `storageRetrievalThreads` is 0.
  unfoldable pub load_one_join_cont : Loading D → Option (Option (List (JoinDoc D)) × Loading D)
  unfolding fill sum_sizes
  load_one_join_cont s = elim s.docs [
    | [] ↦ some (none, s)
    | d ∷ ds ↦
        if threads == 0
        then none
        else let r = fill (has_space (size_of s / threads)) [] (d ∷ ds) in
          some (some r.0, record { docs = r.1; join_size = size_of s })
  ]

  -- `LoadJoinExec::fillBuffer`, until it is finished: the containers that it sends.
  unfoldable pub load_all : ℕ → Loading D → Option (List (List (JoinDoc D)))
  unfolding load_one_join_cont
  load_all zero s = none
  load_all (suc fuel) s = load_one_join_cont s >>= λ (o, t).
      let rest = load_all fuel t in
      elim o [ none ↦ some [] | some cont ↦ rest >>= λ conts. some (cont ∷ conts) ]

  -- The containers hold the given documents, once each and in order, and none is empty.
  abbrev Partitions : List (JoinDoc D) → List (List (JoinDoc D)) → Type 0
  Partitions docs conts = (concat conts ≡ docs) × All (λ cont. 1 ≤ length cont) conts

  load_all-more :
      0 < threads
      → (fuel : ℕ) (docs : List (ℕ × JoinDoc D)) (size : ℕ) → length docs < fuel
      → (conts : List (List (JoinDoc D))) × (load_all fuel
            (record { docs = docs; join_size = size })
          ≡ some conts)
        × Partitions (map (λ e. e.1) docs) conts
  unfolding load_all load_one_join_cont concat
  load_all-more positive zero docs size h = absurd (omega (arith, h))
  load_all-more positive (suc fuel) [] size h = ([], refl, (refl, tt))
  load_all-more positive (suc fuel) ((id, d) ∷ docs) size h =
      let no_zero : threads == 0 ≡ false = ground (arith, positive) in
      let total = size_of (record { docs = (id, d) ∷ docs; join_size = size }) in
      let space = has_space (total / threads) in
      let cont = (fill space [] ((id, d) ∷ docs)).0 in
      let r = fill-Partitions space id d docs in
      let rest =
        load_all-more positive fuel (fill space [] ((id, d) ∷ docs)).1 total
          (omega (arith, r.1, h)) in
      (
        cont ∷ rest.0,
        rw no_zero (ap (λ o. o >>= λ conts. some (cont ∷ conts)) rest.1),
        (ap (λ ds. cont ++ ds) rest.2.0 ∙ r.0, (r.2, rest.2.1)),
      )

  map-Permᴰ :
      {A B : Type 0} (f : A → B) {xs ys : List A} → Permᴰ xs ys → Permᴰ (map f xs) (map f ys)
  map-Permᴰ f Permᴰ.nil = Permᴰ.nil
  map-Permᴰ f (Permᴰ.cons e p) = Permᴰ.cons (ap f e) (map-Permᴰ f p)
  map-Permᴰ f (Permᴰ.swap e g) = Permᴰ.swap (ap f e) (ap f g)
  map-Permᴰ f (Permᴰ.trans p q) = Permᴰ.trans (map-Permᴰ f p) (map-Permᴰ f q)

  -- For every manager and at least one thread, in whatever order its hash map is walked through and
  -- whatever the sizes of its documents and the space of the containers, asking for containers until
  -- there is none ends without a division by zero, after at most one call more than there are
  -- documents, and the containers, none of them empty, hold the documents of the manager, each once,
  -- in some order.
  pub load_all-Partitions :
      0 < threads
      → (m : Manager D) (order : List (ℕ × JoinDoc D)) (size : ℕ) → Perm order m.docs
      → (conts : List (List (JoinDoc D))) × (load_all
            (suc (length order))
            (record { docs = order; join_size = size })
          ≡ some conts)
        × Perm (concat conts) (map (λ e. e.1) m.docs)
        × All (λ cont. 1 ≤ length cont) conts
  load_all-Partitions positive m order size p =
      let r = load_all-more positive (suc (length order)) order size (omega arith) in
      (
        r.0,
        r.1,
        subst (λ l. Perm l (map (λ e. e.1) m.docs)) (sym r.2.0) (∥∥₁_map p (map-Permᴰ (λ e. e.1))),
        r.2.1,
      )
