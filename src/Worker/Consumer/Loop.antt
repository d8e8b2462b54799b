-- ===== src/Worker/Consumer/Loop.antt =====
-- src/services/worker/worker/consumer.py: the loop of `run`, on whether each call raises a
-- RedisError. Times are in half seconds. What the calls do with entries is in the parent module.
use claude_at_work_project.Prelude.{
  ℕ, ◌+◌, ◌≡◌, refl, inl, inr, Bool, true, false, ◌&&◌, List, [], ◌∷◌, ◌++◌, leb, Bool-cases,
  if◌then◌else◌,
}

-- `group_ready` and `next_reclaim`.
pub record State : Type 0 where
  pub group_ready : Bool
  pub next_reclaim : ℕ

abbrev pub start : State
start = record { group_ready = false; next_reclaim = 0 }

-- One iteration: whether `_ensure_group`, `_reclaim` and `_read_new` return without a RedisError,
-- and the time before and after the reclaim. An answer that BUSYGROUP gives counts as a return.
pub record Answers : Type 0 where
  pub ensures : Bool
  pub time : ℕ
  pub reclaims : Bool
  pub time_after : ℕ
  pub reads : Bool

pub data Call : Type 0 where
  ensure_group reclaim_idle read_new back_off : Call

-- `max(1.0, visibility_timeout_seconds / 2)`
abbrev pub reclaim_every : (visibility_timeout : ℕ) → ℕ
reclaim_every visibility_timeout = if leb visibility_timeout 2 then 2 else visibility_timeout

abbrev pub raised : State → List Call × State
raised s = (back_off ∷ [], record s { group_ready = false })

abbrev pub after : Call → List Call × State → List Call × State
after c (cs, s) = (c ∷ cs, s)

abbrev pub read : Bool → State → List Call × State
read true s = (read_new ∷ [], s)
read false s = after read_new (raised s)

-- The body of the `try` from the test of the time on.
unfoldable pub reclaim_and_read : (visibility_timeout : ℕ) → Answers → State → List Call × State
reclaim_and_read visibility_timeout a s =
    if leb s.next_reclaim a.time
    then after reclaim_idle (
        if a.reclaims
        then read a.reads
            (record s { next_reclaim = a.time_after + reclaim_every visibility_timeout })
        else raised s)
    else read a.reads s

unfoldable pub iterate : (visibility_timeout : ℕ) → Answers → State → List Call × State
unfolding reclaim_and_read
iterate visibility_timeout a s =
    if s.group_ready
    then reclaim_and_read visibility_timeout a s
    else after ensure_group (
        if a.ensures
        then reclaim_and_read visibility_timeout a (record s { group_ready = true })
        else raised s)

-- The calls of the loop until it is stopped.
unfoldable pub loop : (visibility_timeout : ℕ) → List Answers → State → List Call
unfolding iterate
loop visibility_timeout [] s = []
loop visibility_timeout (a ∷ later) s =
    (iterate visibility_timeout a s).0
    ++ loop visibility_timeout later (iterate visibility_timeout a s).1

-- Entries are read and reclaimed only where the group was ensured, and nothing has failed since.
abbrev pub is_ensured : Bool → List Call → Bool
is_ensured ready [] = true
is_ensured ready (ensure_group ∷ cs) = is_ensured true cs
is_ensured ready (reclaim_idle ∷ cs) = ready && is_ensured ready cs
is_ensured ready (read_new ∷ cs) = ready && is_ensured ready cs
is_ensured ready (back_off ∷ cs) = is_ensured false cs

read_ensured :
    (reads : Bool) (s : State) (cs : List Call)
    → s.group_ready ≡ true
    → is_ensured (read reads s).1.group_ready cs ≡ true
    → is_ensured true ((read reads s).0 ++ cs) ≡ true
read_ensured true s cs ready rest = rw ready at rest
read_ensured false s cs ready rest = rest

reclaim_and_read_ensured :
    (timeout : ℕ) (a : Answers) (s : State) (cs : List Call)
    → s.group_ready ≡ true
    → is_ensured (reclaim_and_read timeout a s).1.group_ready cs ≡ true
    → is_ensured true ((reclaim_and_read timeout a s).0 ++ cs) ≡ true
unfolding reclaim_and_read
reclaim_and_read_ensured timeout a s cs ready rest = elim (Bool-cases (leb s.next_reclaim a.time)) [
  | inr early ↦ rw early (read_ensured a.reads s cs ready (rw early at rest))
  | inl due ↦ elim (Bool-cases a.reclaims) [
    | inl fine ↦
        rw (due, fine)
          (read_ensured a.reads (record s { next_reclaim = a.time_after + reclaim_every timeout })
            cs ready (rw (due, fine) at rest))
    | inr failed ↦ rw (due, failed) (rw (due, failed) at rest)
  ]
]

iterate_ensured :
    (timeout : ℕ) (a : Answers) (ready : Bool) (n : ℕ) (cs : List Call)
    → let s : State = record { group_ready = ready; next_reclaim = n } in
      is_ensured (iterate timeout a s).1.group_ready cs ≡ true
      → is_ensured ready
          ((iterate timeout a (record { group_ready = ready; next_reclaim = n })).0 ++ cs)
        ≡ true
unfolding iterate
iterate_ensured timeout a true n cs rest =
    reclaim_and_read_ensured timeout a (record { group_ready = true; next_reclaim = n }) cs refl
      rest
iterate_ensured timeout a false n cs rest = elim (Bool-cases a.ensures) [
  | inl fine ↦ rw fine (
      reclaim_and_read_ensured timeout a (record { group_ready = true; next_reclaim = n }) cs refl
        (rw fine at rest))
  | inr failed ↦ rw failed (rw failed at rest)
]

loop_ensured :
    (timeout : ℕ) (answers : List Answers) (s : State)
    → is_ensured s.group_ready (loop timeout answers s) ≡ true
unfolding loop
loop_ensured timeout [] s = refl
loop_ensured timeout (a ∷ later) s =
    iterate_ensured timeout a s.group_ready s.next_reclaim
      (loop timeout later (iterate timeout a s).1)
      (loop_ensured timeout later (iterate timeout a s).1)

-- Whichever calls raise, and whatever the time: in the calls of the loop from its start, each that
-- reads or reclaims entries comes after one that ensures the group, with no error in between.
pub loop-is_ensured :
    (timeout : ℕ) (answers : List Answers) → is_ensured false (loop timeout answers start) ≡ true
loop-is_ensured timeout answers = loop_ensured timeout answers start
