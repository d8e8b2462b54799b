-- ===== src/Delivery/Rules.antt =====
-- tools/delivery/delivery/run/rules.py: the turns, the model, the effort and the tools of a stage.
-- `Settings` has the settings that these read; a text that is not set is "".
pub mod Passes
pub mod Tools
use text.Mathlib.Text.{◌==◌}
use claude_at_work_project.Prelude.{
  ℕ, Bool, true, false, ◌&&◌, ◌||◌, not, Option, none, some, String, if◌then◌else◌,
}
use claude_at_work_project.Delivery.Stage.{
  Stage, plan_writer, plan_reviewer, test_writer, test_reviewer, code_writer, code_reviewer,
  acceptance_reviewer,
}
use claude_at_work_project.Delivery.State.{State}
use claude_at_work_project.Delivery.Machine.{is_final_round, is_rework}

pub record Settings : Type 0 where
  pub max_turns : Option ℕ
  pub rework_max_turns : ℕ
  pub final_max_turns : ℕ
  pub final_effort : String
  pub model : String
  pub rework_model : String
  pub effort : String
  pub rework_effort : String
  pub stage_model : Stage → String
  pub stage_effort : Stage → String

abbrev pub is_set : String → Bool
is_set text = not (text == "")

-- `a or b`
abbrev pub or_else : String → String → String
or_else a b = if is_set a then a else b

abbrev stage_turns : Stage → ℕ
stage_turns plan_writer = 150
stage_turns plan_reviewer = 150
stage_turns test_writer = 200
stage_turns acceptance_reviewer = 200
stage_turns _ = 250

unfoldable pub first_pass_turns : Stage → Settings → ℕ
first_pass_turns stage settings = elim settings.max_turns [
  | some turns ↦ turns
  | none ↦ stage_turns stage
]

unfoldable pub turns_for : Stage → State → Settings → ℕ
turns_for stage state settings =
    if is_final_round stage state
    then settings.final_max_turns
    else if is_rework stage state
    then settings.rework_max_turns
    else first_pass_turns stage settings

-- A stage of `SONNET` runs on it.
unfoldable pub default_model : Stage → String
default_model test_writer = "sonnet"
default_model test_reviewer = "sonnet"
default_model code_writer = "sonnet"
default_model acceptance_reviewer = "sonnet"
default_model _ = ""

unfoldable pub model_for : Stage → State → Settings → String
model_for stage state settings =
    if is_set settings.rework_model && (is_rework stage state || is_final_round stage state)
    then settings.rework_model
    else or_else (settings.stage_model stage) (or_else settings.model (default_model stage))

unfoldable pub effort_for : Stage → State → Settings → String
effort_for stage state settings =
    if is_final_round stage state
    then settings.final_effort
    else if is_set settings.rework_effort && is_rework stage state
    then settings.rework_effort
    else or_else (settings.stage_effort stage) settings.effort
