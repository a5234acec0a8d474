-- ===== src/Planner/Loop.antt =====
-- The loop `resolveRequirements`: it ends where no similarity measure is set, and does not end with
-- one, once a stream is waiting for its parser.
use joda.Base.{
  ℕ, zero, suc, ◌<◌, true, false, Option, none, some, List, [], ◌∷◌, length, ◌≡◌, refl, ◌∙◌, arith,
  Bool-cases, List-cases, inl, inr,
}
use joda.Planner.TaskId.{
  TaskId, id_eq, id_eq_refl, contains, erase, default_stream_parser, path_jaccard_stream_parser,
  attribute_jaccard_stream_parser, ls_list_file,
}
use joda.Planner.Plan.{
  parser, SimMeasure, no_similarity, path_jaccard, attribute_jaccard, Plan, add_task, add_fuel,
  resolve_front, resolve_from, resolve_requirements, resolve_requirement, add_required, enqueue,
  resolve_prerequisite,
}
use joda.Planner.Grows.{Disjoint, Grows, Grows-refl, Grows-trans}
use joda.Planner.Resolve.{rank, IsRequired, resolve-Reached, add_task-Reached}

-- Every outstanding requirement is one that `resolveRequirement` knows.
abbrev pub Required : Plan → Type 0
Required p = (r : TaskId) → contains p.unfulfilled r ≡ true → IsRequired r

pub rank-lt-add_fuel : (r : TaskId) → rank r < add_fuel
rank-lt-add_fuel ls_list_file = omega arith
rank-lt-add_fuel _ = omega arith

contains-head : (r : TaskId) (xs rest : List TaskId) → xs ≡ r ∷ rest → contains xs r ≡ true
unfolding contains
contains-head r xs rest e = rw e (rw id_eq_refl)

resolve_front-lem :
    (p : Plan) (r : TaskId) (rest : List TaskId)
    → Disjoint p
    → Required p
    → p.unfulfilled ≡ r ∷ rest
    → (q : Plan) × (resolve_front no_similarity r p ≡ some q)
      × Grows p q
      × (length q.unfulfilled < length p.unfulfilled)
unfolding resolve_front
resolve_front-lem p r rest d k e =
    let here = contains-head r p.unfulfilled rest e in
    let (q, same, g, c) =
      resolve-Reached (add_task add_fuel no_similarity) add_fuel (add_task-Reached add_fuel) r
        (k r here) (rank-lt-add_fuel r) p in
    let gone : contains q.unfulfilled r ≡ false = elim (Bool-cases (contains q.unfulfilled r)) [
      | inl still ↦ cc (g.disjoint d r still)
      | inr left ↦ left
    ] in
    (q, same, g, g.strict r here gone)

resolve_from-cons :
    (again : Plan → Option Plan) (sim : SimMeasure) (xs rest : List TaskId) (r : TaskId)
    (p q : Plan)
    → xs ≡ r ∷ rest
    → resolve_front sim r p ≡ some q
    → resolve_from again sim xs p ≡ again q
unfolding resolve_from
resolve_from-cons again sim xs rest r p q e same = rw e (rw same)

resolve_from-nil :
    (again : Plan → Option Plan) (sim : SimMeasure) (xs : List TaskId) (p : Plan)
    → xs ≡ []
    → resolve_from again sim xs p ≡ some p
unfolding resolve_from
resolve_from-nil again sim xs p e = rw e

-- With more fuel than outstanding requirements the loop ends, with none left.
pub resolve_requirements-lem :
    (fuel : ℕ) (p : Plan)
    → Disjoint p
    → Required p
    → length p.unfulfilled < fuel
    → (q : Plan) × (resolve_requirements fuel no_similarity p ≡ some q)
      × Grows p q
      × (q.unfulfilled ≡ [])
unfolding resolve_requirements
resolve_requirements-lem zero p d k h = absurd (omega arith)
resolve_requirements-lem (suc fuel) p d k h = elim (List-cases p.unfulfilled) [
  | inl e ↦ (p, resolve_from-nil _ no_similarity p.unfulfilled p e, Grows-refl p, e)
  | inr (r, rest, e) ↦
      let (q, same, g, less) = resolve_front-lem p r rest d k e in
      let (q', same', g', done) =
        resolve_requirements-lem fuel q (g.disjoint d) (λ t m. k t (g.sub t m)) (omega arith) in
      (
        q',
        resolve_from-cons (resolve_requirements fuel no_similarity) no_similarity p.unfulfilled rest
              r p q e same
            ∙ same',
        Grows-trans g g',
        done,
      )
]

-- With a similarity measure the parser that is added has another name than the requirement.
abbrev pub Measured : SimMeasure → Type 0
Measured no_similarity = ⊥
Measured _ = Unit

-- A waiting stream parser is never resolved: each round adds one more parser.
stream_waits :
    (sim : SimMeasure)
    → Measured sim
    → (p : Plan) → p.unfulfilled ≡ default_stream_parser ∷ []
    → contains p.added_ids default_stream_parser ≡ false
    → (q : Plan) × (resolve_front sim default_stream_parser p ≡ some q)
      × (q.unfulfilled ≡ default_stream_parser ∷ [])
      × (contains q.added_ids default_stream_parser ≡ false)
unfolding resolve_front resolve_requirement add_required add_task resolve_prerequisite enqueue
stream_waits no_similarity m p u a = absurd m
stream_waits path_jaccard m p u a = (
  record (enqueue (parser path_jaccard_stream_parser p.stream_size) p) { stream_size = 0 },
  rw a,
  unfold erase id_eq in rw u,
  unfold contains id_eq in a,
)
stream_waits attribute_jaccard m p u a = (
  record (enqueue (parser attribute_jaccard_stream_parser p.stream_size) p) { stream_size = 0 },
  rw a,
  unfold erase id_eq in rw u,
  unfold contains id_eq in a,
)

-- With a similarity measure set, once the only outstanding requirement is the parser of a stream and
-- no such parser was added, the loop does not end: no fuel is enough.
pub resolve_requirements_diverges :
    (sim : SimMeasure)
    → Measured sim
    → (fuel : ℕ) (p : Plan) → p.unfulfilled ≡ default_stream_parser ∷ []
    → contains p.added_ids default_stream_parser ≡ false
    → resolve_requirements fuel sim p ≡ none
unfolding resolve_requirements
resolve_requirements_diverges sim m zero p u a = refl
resolve_requirements_diverges sim m (suc fuel) p u a =
    let (q, same, u', a') = stream_waits sim m p u a in
    resolve_from-cons (resolve_requirements fuel sim) sim p.unfulfilled [] default_stream_parser p q
      u same
    ∙ resolve_requirements_diverges sim m fuel q u' a'
