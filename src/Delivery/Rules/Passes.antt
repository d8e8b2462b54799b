-- ===== src/Delivery/Rules/Passes.antt =====
-- Which pass a stage is given: a first one, a rework or a final round.
use claude_at_work_project.Prelude.{ℕ, ◌<◌, ◌≡◌, Bool, true, false, some, ok, arith}
use claude_at_work_project.Delivery.Stage.{Stage, Pair, plan_writer, earlier_pair, writer_of}
use claude_at_work_project.Delivery.State.{State, File, fresh}
use claude_at_work_project.Delivery.Verdict.{Status, Outcome, Advance}
use claude_at_work_project.Delivery.Machine.{is_final_round, is_rework, advance}
use claude_at_work_project.Delivery.Machine.SendBack.{rework_after_send_back}
use claude_at_work_project.Delivery.Rules.{
  Settings, is_set, or_else, first_pass_turns, turns_for, default_model, model_for, effort_for,
}

fresh_passes :
    (stage : Stage) (max_rounds : ℕ)
    → 1 < max_rounds
    → (is_rework stage (fresh max_rounds) ≡ false)
      × (is_final_round stage (fresh max_rounds) ≡ false)
unfolding is_rework is_final_round fresh
fresh_passes plan_writer max_rounds h = ground arith
fresh_passes _ max_rounds h = ground arith

-- In a fresh run with two rounds or more, every stage has its first-pass turns, and its own model
-- and effort.
pub first_pass :
    (stage : Stage) (max_rounds : ℕ) (settings : Settings)
    → 1 < max_rounds
    → (turns_for stage (fresh max_rounds) settings ≡ first_pass_turns stage settings)
      × (model_for stage (fresh max_rounds) settings
          ≡ or_else (settings.stage_model stage) (or_else settings.model (default_model stage)))
      × (effort_for stage (fresh max_rounds) settings
          ≡ or_else (settings.stage_effort stage) settings.effort)
unfolding turns_for model_for effort_for
first_pass stage max_rounds settings h =
    let (rework, final) = fresh_passes stage max_rounds h in
    (ground arith, ground arith, ground arith)

-- The writer that takes a send-back has the turns of a rework pass, and the rework model and
-- effort where these are set: never those of a final round.
pub rework_pass :
    (exists : File → Bool) (max : ℕ) (stage : Stage) (before : Pair) (target : Stage) (s s' : State)
    (r : Outcome) (rewritten : Bool) (moved : Advance) (settings : Settings)
    → earlier_pair stage ≡ some before
    → writer_of before ≡ some target
    → r.status ≡ Status.send_back
    → advance exists s stage r rewritten max ≡ (ok moved, s')
    → (turns_for target s' settings ≡ settings.rework_max_turns)
      × (is_set settings.rework_model ≡ true → model_for target s' settings ≡ settings.rework_model)
      × (is_set settings.rework_effort ≡ true
          → effort_for target s' settings ≡ settings.rework_effort)
unfolding turns_for model_for effort_for
rework_pass exists max stage before target s s' r rewritten moved settings e w status h =
    let (rework, final) =
      rework_after_send_back exists max stage before target s s' r rewritten moved e w status h in
    (rw (final, rework), λ model. rw (model, rework), λ effort. rw (final, effort, rework))
