-- ===== src/Aggregate/Exec/Merged.antt =====
-- AggPipeline.cpp and AggMerger.cpp: what the threads send and what the merger holds.
use joda.Base.{
  Option, none, some, Bool, List, [], ◌∷◌, ◌++◌, ◌≡◌, refl, sym, ap, ◌∙◌, map, fold, fold-append,
  filter, concat, if◌then◌else◌, Bool-cases, inl, inr,
}
use joda.Base.Dict.{find, find-update, str_eq-IsPartialEquivalence}
use joda.Base.Text.{Str, str_eq}
use joda.Aggregate.{Aggregator, aggregate}
use joda.Aggregate.Exec.{duplicates, accumulate_all, handle_one, absorbed, fill_buffer}

module _ {ℓ κ μ} {D : Type ℓ} {S : Type κ} {A : Type μ} (agg : A → Aggregator D S) where
  -- Every aggregator, after the same documents.
  abbrev pub aggregates : List A → List D → List (A × S)
  aggregates protos docs = map (λ a. (a, aggregate (agg a) docs)) protos

  accumulate_all-map :
      (protos : List A) (f : A → S) (d : D)
      → accumulate_all agg (map (λ a. (a, f a)) protos) d
        ≡ map (λ a. (a, (agg a).accumulate (f a) d)) protos
  unfolding accumulate_all
  accumulate_all-map [] f d = refl
  accumulate_all-map (a ∷ protos) f d =
      ap (λ l. (a, (agg a).accumulate (f a) d) ∷ l) (accumulate_all-map protos f d)

  fold-accumulate_all :
      (protos : List A) (docs : List D) (f : A → S)
      → fold (accumulate_all agg) (map (λ a. (a, f a)) protos) docs
        ≡ map (λ a. (a, fold (agg a).accumulate (f a) docs)) protos
  fold-accumulate_all protos [] f = refl
  fold-accumulate_all protos (d ∷ docs) f =
      ap (λ l. fold (accumulate_all agg) l docs) (accumulate_all-map protos f d)
      ∙ fold-accumulate_all protos docs (λ a. (agg a).accumulate (f a) d)

  fold-handle_one :
      (conts : List (List D)) (objects : List (A × S))
      → fold (handle_one agg) objects conts ≡ fold (accumulate_all agg) objects (concat conts)
  unfolding handle_one concat
  fold-handle_one [] objects = refl
  fold-handle_one (c ∷ conts) objects =
      fold-handle_one conts (fold (accumulate_all agg) objects c)
      ∙ sym (fold-append (accumulate_all agg) objects c (concat conts))

  pub aggregates-fold :
      (protos : List A) (docs : List D)
      → fold (accumulate_all agg) (duplicates agg protos) docs ≡ aggregates protos docs
  unfolding duplicates aggregate
  aggregates-fold protos docs = fold-accumulate_all protos docs (λ a. (agg a).fresh)

  pub accumulate_all-aggregates :
      (protos : List A) (docs : List D) (d : D)
      → accumulate_all agg (aggregates protos docs) d ≡ aggregates protos (docs ++ d ∷ [])
  unfolding aggregate
  accumulate_all-aggregates protos docs d =
      accumulate_all-map protos (λ a. aggregate (agg a) docs) d
      ∙ ap (λ f. map f protos)
          (λ i a. (a, sym (fold-append (agg a).accumulate (agg a).fresh docs (d ∷ [])) i))

  -- For all containers that a thread takes and every sequence of aggregators, what the thread then
  -- sends is every aggregator, in order, with its state after the documents of all containers.
  pub handle_one-aggregates :
      (protos : List A) (conts : List (List D))
      → fold (handle_one agg) (duplicates agg protos) conts ≡ aggregates protos (concat conts)
  handle_one-aggregates protos conts =
      fold-handle_one conts (duplicates agg protos) ∙ aggregates-fold protos (concat conts)

  -- What a thread sends: an aggregator and the documents that it went through.
  abbrev pub Message : Type (ℓ ⊔ μ)
  Message = A × List D

  abbrev pub received : Message → A × S
  received m = (m.0, aggregate (agg m.0) m.1)

  -- The first message's aggregator, with the state to which its `merge` takes the states of all
  -- messages, one after another.
  unfoldable pub joined : List Message → Option (A × S)
  joined [] = none
  joined (m ∷ ms) = some (m.0, fold (agg m.0).merge (received m).1 (map (λ n. (received n).1) ms))

  module _ (to_string : A → Str) where
    abbrev pub named_by : Str → Message → Bool
    named_by k m = str_eq (to_string m.0) k

    -- What a message does to the entry of a string.
    abbrev hear : Str → Option (A × S) → Message → Option (A × S)
    hear k e m = if named_by k m then some (absorbed agg e (received m)) else e

    find-fill_buffers :
        (k : Str) (ms : List Message) (m : List (Str × (A × S)))
        → find str_eq k (fold (fill_buffer agg to_string) m (map received ms))
          ≡ fold (hear k) (find str_eq k m) ms
    unfolding fill_buffer
    find-fill_buffers k [] m = refl
    find-fill_buffers k (x ∷ ms) m =
        find-fill_buffers k ms (fill_buffer agg to_string m (received x))
        ∙ ap (λ e. fold (hear k) e ms)
            (find-update str_eq str_eq-IsPartialEquivalence (λ e. absorbed agg e (received x))
              (to_string x.0) k m)

    hear-some :
        (k : Str) (ms : List Message) (e : A × S)
        → fold (hear k) (some e) ms
          ≡ some
              (e.0, fold (agg e.0).merge e.1 (map (λ n. (received n).1) (filter (named_by k) ms)))
    unfolding filter
    hear-some k [] e = refl
    hear-some k (x ∷ ms) e = elim (Bool-cases (named_by k x)) [
      | inl hit ↦ rw hit (hear-some k ms (absorbed agg (some e) (received x)))
      | inr miss ↦ rw miss (hear-some k ms e)
    ]

    hear-none :
        (k : Str) (ms : List Message) → fold (hear k) none ms ≡ joined (filter (named_by k) ms)
    unfolding filter joined
    hear-none k [] = refl
    hear-none k (x ∷ ms) = elim (Bool-cases (named_by k x)) [
      | inl hit ↦ rw hit (hear-some k ms (received x))
      | inr miss ↦ rw miss (hear-none k ms)
    ]

    -- For every sequence of messages that the merger receives, in any order and whatever the
    -- aggregators, the merger holds nothing under a string that no message's aggregator has, and
    -- otherwise the aggregator of the first message with that string, with its own state and then
    -- exactly the states of the later messages with that string merged into it, in the order of
    -- arrival.
    pub find-fill_buffer :
        (k : Str) (ms : List Message)
        → find str_eq k (fold (fill_buffer agg to_string) [] (map received ms))
          ≡ joined (filter (named_by k) ms)
    unfolding find
    find-fill_buffer k ms = find-fill_buffers k ms [] ∙ hear-none k ms
