-- ===== src/Worker/Examples.antt =====
-- The theorems about the consumer at a handler that fails twice, and at a stream that two consumers
-- read.
use claude_at_work_project.Prelude.{
  ℕ, ◌+◌, ◌≤◌, ◌≡◌, refl, arith, Bool, true, false, Option, some, List, [], ◌∷◌, ltb, ◌==◌, select,
  count, if◌then◌else◌,
}
use claude_at_work_project.Worker.Consumer.{
  Text, Fields, JobEnvelope, Handler, succeeded, failed, dead_lettered, max_attempts, field,
  process, Pending, delivery_counts, deliveries_in,
}
use claude_at_work_project.Worker.Consumer.Attempts.{is_call, is_end, life, life-IsBounded}
use claude_at_work_project.Shared.Pagination.{take}
use claude_at_work_project.Worker.Consumer.Counts.{is_between, IsXpending, displaced}
use claude_at_work_project.Worker.Consumer.Loop.{Answers, start, loop, is_ensured, loop-is_ensured}

abbrev job : JobEnvelope
job = record { job_id = 1; job_type = 2; payload = 3 }

abbrev decodes : Text → Option JobEnvelope
decodes raw = some job

-- It fails on its first two calls.
abbrev flaky : Handler ℕ
flaky envelope calls = (if ltb 1 calls then succeeded else failed, calls + 1)

abbrev handles : Text → Option (Handler ℕ)
handles job_type = some flaky

abbrev entry_fields : Fields
entry_fields = (0, 9) ∷ []

-- The second delivery is lost.
abbrev second_lost : ℕ → Bool
second_lost n = n == 2

abbrev untouched : ℕ → ℕ → ℕ
untouched n calls = calls

life-IsBounded_example :
    (count is_call (life decodes handles 5 40 entry_fields second_lost untouched 8 1 0) ≤ 5)
    × (count is_end (life decodes handles 5 40 entry_fields second_lost untouched 8 1 0) ≡ 1)
life-IsBounded_example =
    life-IsBounded decodes handles 5 40 entry_fields second_lost untouched 8 6 0 (omega arith)
      (omega arith) refl

-- Entries 40 and 42 were idle, and another consumer is at 41.
abbrev idle_first : Pending
idle_first = record { message_id = 40; times_delivered = 2 }

abbrev busy : Pending
busy = record { message_id = 41; times_delivered = 1 }

abbrev idle_last : Pending
idle_last = record { message_id = 42; times_delivered = 2 }

abbrev answers_of : List Pending → ℕ → ℕ → ℕ → List Pending
answers_of rows low high n = take n (select (is_between low high) rows)

answers-IsXpending : (rows : List Pending) → IsXpending (answers_of rows) rows
answers-IsXpending rows low high n = refl

abbrev claimed : List (ℕ × Fields)
claimed = (40, entry_fields) ∷ ((42, entry_fields) ∷ [])

-- Entry 42 is given up on at its second delivery of five.
displaced_example :
    process decodes handles 5 42 entry_fields
      (deliveries_in decodes handles 5
        (delivery_counts (answers_of (idle_first ∷ (busy ∷ (idle_last ∷ [])))) claimed)
        42)
      0
    ≡ (dead_lettered 42 9 max_attempts 6 ∷ [], 0)
unfolding field take
displaced_example =
    displaced decodes handles 5 (answers_of (idle_first ∷ (busy ∷ (idle_last ∷ []))))
      (idle_first ∷ (busy ∷ (idle_last ∷ []))) (idle_first ∷ (busy ∷ [])) (idle_last ∷ []) claimed
      42 entry_fields job 0 (answers-IsXpending (idle_first ∷ (busy ∷ (idle_last ∷ [])))) refl refl
      refl refl

-- A failed read, after which the group is ensured again.
abbrev answered : List Answers
answered =
    record { ensures = true; time = 0; reclaims = true; time_after = 1; reads = false }
    ∷ (record { ensures = true; time = 9; reclaims = true; time_after = 9; reads = true } ∷ [])

loop-is_ensured_example : is_ensured false (loop 30 answered start) ≡ true
loop-is_ensured_example = loop-is_ensured 30 answered
