-- ===== src/Worker/Consumer/Counts.antt =====
-- The delivery counts that a reclaim goes by.
use claude_at_work_project.Prelude.{
  ℕ, ◌+◌, ◌≤◌, ◌≡◌, refl, sym, ◌∙◌, ap, Bool, true, false, ◌&&◌, Option, none, some, List, [], ◌∷◌,
  ◌++◌, arith, ltb, leb, ◌==◌, select, any, find, length,
}
use claude_at_work_project.Shared.Pagination.{take}
use claude_at_work_project.Shared.Pagination.Cuts.{take_all}
use claude_at_work_project.Worker.Consumer.{
  Fields, Handler, field, JobEnvelope, Text, dead_lettered, max_attempts, job_data_field, decoded,
  triage, process, Pending, first_id, last_id, delivery_counts, deliveries_in, raw_or_empty,
}

abbrev pub is_between : ℕ → ℕ → Pending → Bool
is_between low high p = leb low p.message_id && leb p.message_id high

-- What Redis documents of XPENDING with a range: of the group's pending rows, in the order of their
-- ids, those in the range, `count` of them at most.
abbrev pub IsXpending : (ℕ → ℕ → ℕ → List Pending) → List Pending → Type 0
IsXpending xpending rows =
    (low high count : ℕ) → xpending low high count ≡ take count (select (is_between low high) rows)

-- The rows in the range that the claimed entries span.
abbrev pub spanned : List (ℕ × Fields) → List Pending → List Pending
spanned entries rows = select (is_between (first_id entries) (last_id entries)) rows

take-++ : {A : Type 0} (xs ys : List A) → take (length xs) (xs ++ ys) ≡ xs
unfolding take
take-++ [] ys = refl
take-++ (x ∷ xs) ys = ap (λ zs. x ∷ zs) (take-++ xs ys)

find-none :
    (x : ℕ) (ps : List Pending)
    → any (λ p. p.message_id == x) ps ≡ false
    → find (λ p. p.message_id == x) ps ≡ none
find-none x [] h = refl
find-none x (p ∷ ps) h = ground (arith, find-none x ps)

module _ {W : Type 0} (decode : Text → Option JobEnvelope) (handlers : Text → Option (Handler W))
    (max : ℕ) where
  -- Where no other consumer holds a row between those claimed, each entry goes by its own count.
  pub own_count :
      (xpending : ℕ → ℕ → ℕ → List Pending) (rows : List Pending) (entries : List (ℕ × Fields))
      (x : ℕ) (p : Pending)
      → IsXpending xpending rows
      → length (spanned entries rows) ≤ length entries
      → find (λ p. p.message_id == x) (spanned entries rows) ≡ some p
      → deliveries_in decode handlers max (delivery_counts xpending entries) x ≡ p.times_delivered
  unfolding deliveries_in delivery_counts
  own_count xpending rows entries x p documented few found =
      let answer =
        documented (first_id entries) (last_id entries) (length entries)
        ∙ take_all (length entries) (spanned entries rows) few in
      rw (answer, found) refl

  -- With XPENDING as Redis documents it: of the entries that were claimed, one that is a job, and
  -- whose pending row comes after as many rows of the range that they span as there are entries, is
  -- dead-lettered for its attempts, and no handler is called, whatever its own count is.
  pub displaced :
      (xpending : ℕ → ℕ → ℕ → List Pending) (rows before after : List Pending)
      (entries : List (ℕ × Fields)) (x : ℕ) (fields : Fields) (envelope : JobEnvelope) (w : W)
      → IsXpending xpending rows
      → spanned entries rows ≡ before ++ after
      → length before ≡ length entries
      → any (λ p. p.message_id == x) before ≡ false
      → decoded decode (field job_data_field fields) ≡ some envelope
      → process decode handlers max x fields
          (deliveries_in decode handlers max (delivery_counts xpending entries) x)
          w
        ≡ (
          dead_lettered x (raw_or_empty (field job_data_field fields)) max_attempts (max + 1) ∷ [],
          w,
        )
  unfolding deliveries_in delivery_counts process triage
  displaced xpending rows before after entries x fields envelope w documented split many other job =
      let answer =
        documented (first_id entries) (last_id entries) (length entries)
        ∙ ap (take (length entries)) split
        ∙ ap (λ n. take n (before ++ after)) (sym many)
        ∙ take-++ before after in
      let count : deliveries_in decode handlers max (delivery_counts xpending entries) x ≡ max + 1 =
        rw (answer, find-none x before other) refl in
      let over : ltb max (max + 1) ≡ true = ground arith in
      rw count (rw (job, over, triage, process) refl)
