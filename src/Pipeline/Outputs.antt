-- ===== src/Pipeline/Outputs.antt =====
-- What the outputs of a list of tasks are, before and after a task is connected at its end.
use joda.Base.{
  ℕ, Bool, true, false, not, ◌&&◌, ◌||◌, Option, none, some, List, [], ◌∷◌, ◌++◌, if◌then◌else◌,
  ◌≡◌, refl, sym, ap, ◌∙◌, arith,
}
use joda.Planner.TaskId.{TaskId}
use joda.Planner.Tables.{check}
use joda.Pipeline.Rule.{PipelineTask}
use joda.Pipeline.Build.{is_set, feeds, set_outputs}

-- The first task in the list that the named one can feed and that has an input.
abbrev pub first_consumer : TaskId → List PipelineTask → Option ℕ
first_consumer name [] = none
first_consumer name (u ∷ us) =
    if u.has_input && check name u.name then some u.num else first_consumer name us

-- Each task with an output writes to the first one after it that it can feed, and to no other.
abbrev pub Wired : List PipelineTask → Type 0
Wired [] = Unit
Wired (t ∷ ts) = (t.output_q ≡ (if t.has_output then first_consumer t.name ts else none)) × Wired ts

first_consumer-set_outputs :
    (num : ℕ) (id name : TaskId) (ts : List PipelineTask) (u : PipelineTask)
    → first_consumer name (set_outputs num id ts ++ u ∷ []) ≡ first_consumer name (ts ++ u ∷ [])
unfolding set_outputs
first_consumer-set_outputs num id name [] u = refl
first_consumer-set_outputs num id name (t ∷ ts) u =
    ground (arith, first_consumer-set_outputs num id name ts u)

or_first : Option ℕ → Option ℕ → Option ℕ
or_first none later = later
or_first (some n) later = some n

first_consumer-snoc :
    (name : TaskId) (ts : List PipelineTask) (u : PipelineTask)
    → first_consumer name (ts ++ u ∷ [])
      ≡ or_first
          (first_consumer name ts)
          (if u.has_input && check name u.name then some u.num else none)
unfolding or_first
first_consumer-snoc name [] u = refl
first_consumer-snoc name (t ∷ ts) u = ground (arith, first_consumer-snoc name ts u)

first_consumer-closed :
    (u : PipelineTask)
    → u.has_input ≡ false
    → (name : TaskId) (ts : List PipelineTask)
    → first_consumer name (ts ++ u ∷ []) ≡ first_consumer name ts
first_consumer-closed u i name [] = rw i
first_consumer-closed u i name (t ∷ ts) = ground (arith, first_consumer-closed u i name ts)

none_either : Option ℕ
none_either = none

last_none : (b : Bool) → none_either ≡ (if b then none_either else none)
unfolding none_either
last_none true = refl
last_none false = refl

-- A task before and after the loop that sets the outputs.
set_one : Bool → ℕ → PipelineTask → PipelineTask
set_one b num t = if b then record t { output_q = some num } else t

set_one-fields :
    (b : Bool) (num : ℕ) (t : PipelineTask)
    → ((set_one b num t).output_q ≡ (if b then some num else t.output_q))
      × ((set_one b num t).has_output ≡ t.has_output)
      × ((set_one b num t).name ≡ t.name)
unfolding set_one
set_one-fields true num t = (refl, refl, refl)
set_one-fields false num t = (refl, refl, refl)

-- What the new output is, from what the old one was.
wire_step :
    (out fc : Option ℕ) (has_out fits : Bool) (n : ℕ)
    → out ≡ (if has_out then fc else none)
    → (if fits && not (not has_out || is_set out) then some n else out)
      ≡ (if has_out then or_first fc (if fits then some n else none) else none)
unfolding or_first
wire_step out fc false true n h = rw h
wire_step out fc false false n h = h
wire_step out none true true n h = rw h
wire_step out none true false n h = h
wire_step out (some m) true true n h = rw h
wire_step out (some m) true false n h = h

pub Wired-set_outputs :
    (u : PipelineTask)
    → u.has_input ≡ true
    → u.output_q ≡ none
    → (ts : List PipelineTask) → Wired ts
    → Wired (set_outputs u.num u.name ts ++ u ∷ [])
unfolding set_outputs feeds set_one none_either
Wired-set_outputs u i o [] h = (o ∙ last_none u.has_output, tt)
Wired-set_outputs u i o (t ∷ ts) h =
    let fits = check t.name u.name in
    let (out, has_out, name) = set_one-fields (feeds u.name t) u.num t in
    (
      out
          ∙ (wire_step t.output_q (first_consumer t.name ts) t.has_output fits u.num h.0
              ∙ rw has_out (
                  rw name (
                    rw (first_consumer-set_outputs u.num u.name t.name ts u)
                      (rw (first_consumer-snoc t.name ts u) (rw i refl))))),
      Wired-set_outputs u i o ts h.1,
    )

pub Wired-snoc :
    (u : PipelineTask)
    → u.has_input ≡ false
    → u.output_q ≡ none
    → (ts : List PipelineTask) → Wired ts
    → Wired (ts ++ u ∷ [])
unfolding none_either
Wired-snoc u i o [] h = (o ∙ last_none u.has_output, tt)
Wired-snoc u i o (t ∷ ts) h = (
  h.0 ∙ ap (λ fc. if t.has_output then fc else none) (sym (first_consumer-closed u i t.name ts)),
  Wired-snoc u i o ts h.1,
)
