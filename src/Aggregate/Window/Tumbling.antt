-- ===== src/Aggregate/Window/Tumbling.antt =====
-- WindowAgg.cpp: the windows that a stream of documents is cut into, and what is sent for each.
use joda.Base.{
  ℕ, suc, ◌+◌, ◌≤◌, ◌<◌, List, [], ◌∷◌, ◌++◌, ◌≡◌, refl, sym, ap₂, true, map, fold, concat, length,
  length-append, ltb, leb, if◌then◌else◌, Bool-cases, inl, inr, append-nil, append_assoc, arith,
}
use joda.Base.Text.{Str}
use joda.Json.{Json}
use joda.Aggregate.{Aggregator, aggregate}
use joda.Aggregate.Exec.{duplicates, accumulate_all, result_document}
use joda.Aggregate.Exec.Merged.{aggregates, accumulate_all-aggregates}
use joda.Aggregate.Window.{Window, finalize_current, window_step, finalize_window, run_window}

module _ {ℓ} {D : Type ℓ} where
  -- Every window has `n` documents, the last one at most `n` and at least one.
  abbrev pub IsTumbling : ℕ → List (List D) → Type 0
  IsTumbling n [] = Unit
  IsTumbling n (c ∷ []) = (1 ≤ length c) × (length c ≤ n)
  IsTumbling n (c ∷ d ∷ rest) = (length c ≡ n) × IsTumbling n (d ∷ rest)

  IsTumbling-cons :
      (n : ℕ) (c : List D) (cs : List (List D))
      → 1 ≤ n
      → length c ≡ n
      → IsTumbling n cs
      → IsTumbling n (c ∷ cs)
  IsTumbling-cons n c [] h k t = (omega arith, omega arith)
  IsTumbling-cons n c (d ∷ rest) h k t = (k, t)

  abbrev leftover : List D → List (List D)
  leftover [] = []
  leftover (d ∷ docs) = (d ∷ docs) ∷ []

  -- The windows after `pre`, which is not full.
  abbrev windows_from : ℕ → List D → List D → List (List D)
  windows_from n pre [] = leftover pre
  windows_from n pre (d ∷ docs) =
      let next = pre ++ d ∷ [] in
      let after_full = windows_from n [] docs in
      let after_part = windows_from n next docs in
      if leb n (length next) then next ∷ after_full else after_part

  abbrev pub windows : ℕ → List D → List (List D)
  windows n docs = windows_from n [] docs

  leftover-IsTumbling : (n : ℕ) (pre : List D) → length pre < n → IsTumbling n (leftover pre)
  leftover-IsTumbling n [] h = tt
  leftover-IsTumbling n (d ∷ pre) h = (omega arith, omega arith)

  windows_from-IsTumbling :
      (n : ℕ) (pre docs : List D) → length pre < n → IsTumbling n (windows_from n pre docs)
  windows_from-IsTumbling n pre [] h = leftover-IsTumbling n pre h
  windows_from-IsTumbling n pre (d ∷ docs) h = elim (Bool-cases (leb n (length (pre ++ d ∷ [])))) [
    | inl full ↦ rw full (
        IsTumbling-cons n (pre ++ d ∷ []) (windows_from n [] docs) (omega arith)
          (ground (arith, length-append pre (d ∷ [])))
          (windows_from-IsTumbling n [] docs (omega arith)))
    | inr part ↦ rw part (
        windows_from-IsTumbling n (pre ++ d ∷ []) docs (ground (arith, length-append pre (d ∷ []))))
  ]

  concat-windows_from : (n : ℕ) (pre docs : List D) → concat (windows_from n pre docs) ≡ pre ++ docs
  unfolding concat
  concat-windows_from n [] [] = refl
  concat-windows_from n (x ∷ pre) [] = refl
  concat-windows_from n pre (d ∷ docs) = elim (Bool-cases (leb n (length (pre ++ d ∷ [])))) [
    | inl full ↦ rw (full, concat-windows_from n [] docs) (append_assoc pre (d ∷ []) docs)
    | inr part ↦
        rw (part, concat-windows_from n (pre ++ d ∷ []) docs) (append_assoc pre (d ∷ []) docs)
  ]

module _ {ℓ κ μ} {D : Type ℓ} {S : Type κ} {A : Type μ} (agg : A → Aggregator D S)
    (get_dest_pointer : A → Str) (set : Str → Json → Json → Json) (protos : List A)
    (window_size : ℕ) where
  abbrev pub result : List D → Json
  result docs = result_document agg get_dest_pointer set (aggregates agg protos docs)

  abbrev step : Window (List (A × S)) → D → Window (List (A × S))
  step = window_step agg get_dest_pointer set protos window_size

  -- The state after the sent windows and the documents `pre`.
  abbrev after : List D → List Json → Window (List (A × S))
  after pre sent = record {
    aggregated = length pre;
    current_aggregators = aggregates agg protos pre;
    sent = sent;
  }

  advance :
      (pre : List D) (sent : List Json) (d : D)
      → record (after pre sent) {
        aggregated = length pre + 1;
        current_aggregators = accumulate_all agg (aggregates agg protos pre) d;
      }
        ≡ after (pre ++ d ∷ []) sent
  advance pre sent d =
      ap₂ (λ n o. record (after pre sent) { aggregated = n; current_aggregators = o })
        (sym (length-append pre (d ∷ []))) (accumulate_all-aggregates agg protos pre d)

  step-if :
      (pre : List D) (sent : List Json) (d : D)
      → step (after pre sent) d ≡ (
          if leb window_size (length (pre ++ d ∷ []))
          then after [] (sent ++ result (pre ++ d ∷ []) ∷ [])
          else after (pre ++ d ∷ []) sent)
  unfolding window_step finalize_current duplicates aggregate
  step-if pre sent d =
      ap₂
        (λ n w.
          if leb window_size n
          then finalize_current agg get_dest_pointer set protos window_size w
          else w)
        (sym (length-append pre (d ∷ []))) (advance pre sent d)

  ltb-suc : (n : ℕ) → ltb 0 (suc n) ≡ true
  ltb-suc n = ground arith

  finalize_window-leftover :
      (pre : List D) (sent : List Json)
      → finalize_window agg get_dest_pointer set protos window_size (after pre sent)
        ≡ sent ++ map result (leftover pre)
  unfolding finalize_window finalize_current
  finalize_window-leftover [] sent = sym (append-nil sent)
  finalize_window-leftover (d ∷ pre) sent = rw (ltb-suc (length pre)) refl

  fold-windows_from :
      (pre docs : List D) (sent : List Json)
      → finalize_window agg get_dest_pointer set protos window_size
          (fold step (after pre sent) docs)
        ≡ sent ++ map result (windows_from window_size pre docs)
  fold-windows_from pre [] sent = finalize_window-leftover pre sent
  fold-windows_from pre (d ∷ docs) sent =
      elim (Bool-cases (leb window_size (length (pre ++ d ∷ [])))) [
        | inl full ↦
            rw
              (
                step-if pre sent d,
                full,
                fold-windows_from [] docs (sent ++ result (pre ++ d ∷ []) ∷ []),
              )
              (append_assoc sent (result (pre ++ d ∷ []) ∷ [])
                (map result (windows_from window_size [] docs)))
        | inr part ↦ rw (step-if pre sent d, part) (fold-windows_from (pre ++ d ∷ []) docs sent)
      ]

  -- For every stream of documents and every window size of at least one, the results that are sent
  -- are, in order, those of the aggregators after each window, where the windows are the stream cut
  -- into pieces of exactly the window size, of which only the last may be shorter but not empty.
  pub run_window-IsTumbling :
      (docs : List D)
      → 1 ≤ window_size
      → (run_window agg get_dest_pointer set protos window_size docs
          ≡ map result (windows window_size docs))
        × (concat (windows window_size docs) ≡ docs)
        × IsTumbling window_size (windows window_size docs)
  unfolding run_window duplicates aggregate
  run_window-IsTumbling docs h = (
    fold-windows_from [] docs [],
    concat-windows_from window_size [] docs,
    windows_from-IsTumbling window_size [] docs (omega arith),
  )
