-- ===== src/Delivery/Machine/Examples.antt =====
-- The theorems about the state machine at a small delivery, and tests of it.
use claude_at_work_project.Prelude.{◌+◌, ◌-◌, ◌*◌, ◌≤◌, ◌≡◌, refl, Bool, true, false, [], ok}
use claude_at_work_project.Delivery.Stage.{
  at, plan, plan_writer, plan_reviewer, test_reviewer, test,
}
use claude_at_work_project.Delivery.State.{State, File, fresh}
use claude_at_work_project.Delivery.Verdict.{Status, Outcome, Advance, still}
use claude_at_work_project.Delivery.Machine.{
  is_rework, is_final_round, writer_done, send_back, dispatch, advance, missing_outputs,
}
use claude_at_work_project.Delivery.Machine.Progress.{here, next, Run-bounded}
use claude_at_work_project.Delivery.Machine.Outputs.{Explains, missing-advance}
use claude_at_work_project.Delivery.Machine.SendBack.{
  IsSentBack, IsSentBack-advance, rework_after_send_back,
}
use claude_at_work_project.Delivery.Machine.Invariant.{Keeps, fresh-IsSound, Keeps-advance}

abbrev everything : File → Bool
everything _ = true

abbrev nothing : File → Bool
nothing _ = false

abbrev says : Status → Outcome
says status = record { status = status; summary = ""; questions = [] }

-- The state at the start, with the test reviewer next.
abbrev reviewing : State
reviewing = record (fresh 3) { stage = at test_reviewer }

abbrev sent_back : State
sent_back = (advance everything reviewing test_reviewer (says Status.send_back) false 3).1

abbrev drafted : State
drafted = (advance everything (fresh 3) plan_writer (says Status.done) false 3).1

drafted_stage : drafted.stage ≡ at plan_reviewer
unfolding advance dispatch writer_done
drafted_stage = refl

sent_back_state :
    (sent_back.stage ≡ at plan_writer) × (sent_back.rounds plan ≡ 2) × (sent_back.rounds test ≡ 2)
unfolding advance dispatch send_back fresh
sent_back_state = (refl, refl, refl)

Run-bounded_example : 1 ≤ 8 * (4 * (3 - 1) + 9 * 3) + 7
Run-bounded_example = Run-bounded 3 3 1 drafted (
    unfold advance dispatch writer_done fresh in
    next everything false plan_writer (says Status.done) still here refl refl refl)

missing-advance_example :
    Explains
      (missing_outputs nothing (fresh 3) plan_writer Status.done false)
      (advance nothing (fresh 3) plan_writer (says Status.done) false 3).0
missing-advance_example = missing-advance nothing false 3 plan_writer (fresh 3) (says Status.done)

IsSentBack-advance_example :
    (moved : Advance) × ((advance everything reviewing test_reviewer
        (says Status.send_back)
        false
        3).0
      ≡ ok moved)
    × IsSentBack 3 test_reviewer plan plan_writer reviewing sent_back moved
IsSentBack-advance_example =
    IsSentBack-advance everything 3 test_reviewer plan plan_writer reviewing (says Status.send_back)
      false refl refl refl refl

rework_after_send_back_example :
    (is_rework plan_writer sent_back ≡ true) × (is_final_round plan_writer sent_back ≡ false)
rework_after_send_back_example =
    rework_after_send_back everything 3 test_reviewer plan plan_writer reviewing sent_back
      (says Status.send_back) false (record still { snapshot = true }) refl refl refl
      (unfold advance dispatch send_back fresh in refl)

Keeps-advance_example :
    Keeps (fresh 3) (advance nothing (fresh 3) plan_writer (says Status.done) false 3).1
Keeps-advance_example =
    Keeps-advance nothing false 3 plan_writer (says Status.done) (fresh 3) (fresh-IsSound 3)
