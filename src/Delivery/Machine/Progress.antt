-- ===== src/Delivery/Machine/Progress.antt =====
-- A delivery that nobody answers comes to an end.
use claude_at_work_project.Prelude.{
  ℕ, suc, ◌+◌, ◌-◌, ◌*◌, ◌≤◌, ◌<◌, ◌≡◌, refl, inl, inr, Bool, true, false, not, ◌&&◌, none, ok,
  arith, is_some, Bool-cases,
}
use claude_at_work_project.Delivery.Stage.{
  Stage, Role, Position, at, writer, reviewer, plan, test, code, acceptance, index, plan_writer,
  plan_reviewer, test_writer, test_reviewer, code_writer, code_reviewer, acceptance_reviewer,
  role_of, pair_of, same_pair,
}
use claude_at_work_project.Delivery.State.{State, File, fresh, put_stage}
use claude_at_work_project.Delivery.Verdict.{Status, Outcome, Advance, still}
use claude_at_work_project.Delivery.Machine.{
  moved_out, writer_done, approved, changes_requested, send_back, dispatch, advance,
}

-- What is left of a limit.
left : (limit used : ℕ) → ℕ
left limit used = limit - used

left-suc : (limit used : ℕ) → used < limit → left limit used ≡ left limit (used + 1) + 1
unfolding left
left-suc limit used h = omega arith

left-moved_out : (final r : ℕ) → left (moved_out final (r + 1)) (r + 1) ≤ left final r + 1
unfolding left moved_out
left-moved_out final r = ground arith

abbrev stages_left : Position → ℕ
stages_left (at stage) = 7 - index stage
stages_left Position.done = 0

-- The rounds that the pairs have before their final ones, and the send-backs that are left.
abbrev rounds_left : State → ℕ
rounds_left s =
    left (s.final plan) (s.rounds plan)
    + left (s.final test) (s.rounds test)
    + left (s.final code) (s.rounds code)
    + left (s.final acceptance) (s.rounds acceptance)

abbrev sendbacks_left : ℕ → State → ℕ
sendbacks_left max s =
    left max (s.sendbacks plan) + left max (s.sendbacks test) + left max (s.sendbacks code)

abbrev limits_left : ℕ → State → ℕ
limits_left max s = rounds_left s + 3 * sendbacks_left max s

pub work_left : ℕ → State → ℕ
work_left max s = 8 * limits_left max s + stages_left s.stage

index-le : (stage : Stage) → index stage ≤ 6
index-le plan_writer = omega arith
index-le plan_reviewer = omega arith
index-le test_writer = omega arith
index-le test_reviewer = omega arith
index-le code_writer = omega arith
index-le code_reviewer = omega arith
index-le acceptance_reviewer = omega arith

stages_left-le : (p : Position) → stages_left p ≤ 7
stages_left-le (at stage) = omega arith
stages_left-le Position.done = omega arith

module _ (exists : File → Bool) (max : ℕ) where
  limits_left-send_back :
      (stage : Stage) (s s' : State) (m moved : Advance)
      → send_back exists stage max m s ≡ (ok moved, s')
      → moved.stop ≡ false
      → limits_left max s' < limits_left max s
  unfolding send_back
  limits_left-send_back plan_writer s s' m moved h go = ground arith
  limits_left-send_back plan_reviewer s s' m moved h go = ground arith
  limits_left-send_back test_writer s s' m moved h go =
      ground (arith, left-suc max (s.sendbacks plan), left-moved_out (s.final plan) (s.rounds plan))
  limits_left-send_back test_reviewer s s' m moved h go = ground (
    arith,
    left-suc max (s.sendbacks plan),
    left-moved_out (s.final plan) (s.rounds plan),
    left-moved_out (s.final test) (s.rounds test),
  )
  limits_left-send_back code_writer s s' m moved h go =
      ground (arith, left-suc max (s.sendbacks test), left-moved_out (s.final test) (s.rounds test))
  limits_left-send_back code_reviewer s s' m moved h go = ground (
    arith,
    left-suc max (s.sendbacks test),
    left-moved_out (s.final test) (s.rounds test),
    left-moved_out (s.final code) (s.rounds code),
  )
  limits_left-send_back acceptance_reviewer s s' m moved h go = ground (
    arith,
    left-suc max (s.sendbacks code),
    left-moved_out (s.final code) (s.rounds code),
    left-moved_out (s.final acceptance) (s.rounds acceptance),
  )

  work_left-send_back :
      (stage : Stage) (s s' : State) (m moved : Advance)
      → s.stage ≡ at stage
      → send_back exists stage max m s ≡ (ok moved, s')
      → moved.stop ≡ false
      → work_left max s' < work_left max s
  unfolding work_left
  work_left-send_back stage s s' m moved here h go = rw here (
      omega (
        arith,
        limits_left-send_back stage s s' m moved h go,
        stages_left-le s'.stage,
        index-le stage,
      ))

  work_left-writer_done :
      (stage : Stage) (s s' : State) (m moved : Advance)
      → s.stage ≡ at stage
      → writer_done exists stage m s ≡ (ok moved, s')
      → work_left max s' < work_left max s
  unfolding writer_done work_left
  work_left-writer_done plan_writer s s' m moved here h = ground arith
  work_left-writer_done plan_reviewer s s' m moved here h = ground arith
  work_left-writer_done test_writer s s' m moved here h = ground arith
  work_left-writer_done test_reviewer s s' m moved here h = ground arith
  work_left-writer_done code_writer s s' m moved here h = ground arith
  work_left-writer_done code_reviewer s s' m moved here h = ground arith
  work_left-writer_done acceptance_reviewer s s' m moved here h = ground arith

  work_left-approved :
      (stage : Stage) (rewritten : Bool) (s s' : State) (m moved : Advance)
      → s.stage ≡ at stage
      → approved exists stage rewritten m s ≡ (ok moved, s')
      → work_left max s' < work_left max s
  unfolding approved work_left
  work_left-approved plan_writer rewritten s s' m moved here h = ground arith
  work_left-approved plan_reviewer rewritten s s' m moved here h = ground arith
  work_left-approved test_writer rewritten s s' m moved here h = ground arith
  work_left-approved test_reviewer rewritten s s' m moved here h = ground arith
  work_left-approved code_writer rewritten s s' m moved here h = ground arith
  work_left-approved code_reviewer rewritten s s' m moved here h = ground arith
  work_left-approved acceptance_reviewer rewritten s s' m moved here h = ground arith

  work_left-changes_requested :
      (stage : Stage) (s s' : State) (m moved : Advance)
      → s.stage ≡ at stage
      → role_of stage ≡ reviewer
      → changes_requested exists stage m s ≡ (ok moved, s')
      → moved.stop ≡ false
      → work_left max s' < work_left max s
  unfolding changes_requested work_left
  work_left-changes_requested plan_writer s s' m moved here role h go =
      ground (arith, left-suc (s.final plan) (s.rounds plan))
  work_left-changes_requested plan_reviewer s s' m moved here role h go =
      ground (arith, left-suc (s.final plan) (s.rounds plan))
  work_left-changes_requested test_writer s s' m moved here role h go =
      ground (arith, left-suc (s.final test) (s.rounds test))
  work_left-changes_requested test_reviewer s s' m moved here role h go =
      ground (arith, left-suc (s.final test) (s.rounds test))
  work_left-changes_requested code_writer s s' m moved here role h go =
      ground (arith, left-suc (s.final code) (s.rounds code))
  work_left-changes_requested code_reviewer s s' m moved here role h go =
      ground (arith, left-suc (s.final code) (s.rounds code))
  work_left-changes_requested acceptance_reviewer s s' m moved here role h go =
      ground (arith, left-suc (s.final acceptance) (s.rounds acceptance))

  work_left-dispatch :
      (role : Role) (status : Status) (stage : Stage) (r : Outcome) (rewritten : Bool)
      (s s' : State) (m moved : Advance)
      → role_of stage ≡ role
      → s.stage ≡ at stage
      → dispatch exists role status stage r rewritten max m s ≡ (ok moved, s')
      → moved.stop ≡ false
      → work_left max s' < work_left max s
  unfolding dispatch
  work_left-dispatch writer Status.done stage r rewritten s s' m moved role here h go =
      work_left-writer_done stage s s' m moved here h
  work_left-dispatch reviewer Status.approved stage r rewritten s s' m moved role here h go =
      work_left-approved stage rewritten s s' m moved here h
  work_left-dispatch reviewer Status.changes_requested stage r rewritten s s' m moved role here h
        go =
      work_left-changes_requested stage s s' m moved here role h go
  work_left-dispatch role' Status.send_back stage r rewritten s s' m moved role here h go =
      work_left-send_back stage s s' m moved here h go
  work_left-dispatch role' status stage r rewritten s s' m moved role here h go = ground arith

  work_left-advance :
      (stage : Stage) (s s' : State) (r : Outcome) (rewritten : Bool) (moved : Advance)
      → s.stage ≡ at stage
      → advance exists s stage r rewritten max ≡ (ok moved, s')
      → moved.stop ≡ false
      → work_left max s' < work_left max s
  unfolding advance work_left
  work_left-advance stage s s' r rewritten moved here h go =
      elim (Bool-cases (not (same_pair (pair_of stage) plan) && is_some (s.open_sendbacks stage))) [
        | inl own ↦
            work_left-dispatch (role_of stage) r.status stage r rewritten
              (record s { open_sendbacks = put_stage stage none s.open_sendbacks }) s'
              (record still { cleared = true }) moved refl here (rw own at h) go
        | inr other ↦
            work_left-dispatch (role_of stage) r.status stage r rewritten s s' still moved refl here
              (rw other at h) go
      ]

-- `n` stages that ran one after the other and did not stop the run. What is on disk, and whether
-- the pass wrote the proof anew, are each stage's own.
pub data Run (max : ℕ) (s : State) : ℕ → State → Type 0 where
  here : Run max s 0 s
  next :
      {n : ℕ} {t u : State} (exists : File → Bool) (rewritten : Bool) (stage : Stage) (r : Outcome)
      (moved : Advance)
      → Run max s n t
      → t.stage ≡ at stage
      → advance exists t stage r rewritten max ≡ (ok moved, u)
      → moved.stop ≡ false
      → Run max s (suc n) u

Run-work_left :
    {max : ℕ} {s : State} {n : ℕ} {t : State}
    → Run max s n t
    → n + work_left max t ≤ work_left max s
Run-work_left {max} here = omega arith
Run-work_left {max} (next {t = t} {u = u} exists rewritten stage r moved before e h go) =
    omega
      (arith, Run-work_left before, work_left-advance exists max stage t u r rewritten moved e h go)

-- From a fresh state, however the stages' verdicts fall, the run takes at most
-- `8 * (4 * (max_rounds - 1) + 9 * max_sendbacks) + 7` stages before one stops it for a human, one
-- is refused, or it is done.
pub Run-bounded :
    (max_rounds max n : ℕ) (t : State)
    → Run max (fresh max_rounds) n t
    → n ≤ 8 * (4 * (max_rounds - 1) + 9 * max) + 7
unfolding fresh work_left left
Run-bounded max_rounds max n t run = omega (arith, Run-work_left run)
