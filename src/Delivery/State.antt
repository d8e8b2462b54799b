-- ===== src/Delivery/State.antt =====
-- tools/delivery/delivery/run/state.py and the settings that the state machine reads. A dictionary
-- over the pairs or the stages is a function; a key that is absent holds `none`.
use claude_at_work_project.Prelude.{ℕ, Option, none, some, if◌then◌else◌}
use claude_at_work_project.Delivery.Stage.{
  Stage, Pair, Position, at, plan_writer, test, code, same_pair, same_stage,
}

-- The files that the machine names, under the plan folder of `Paths`: two files are the same path
-- exactly if they are the same constructor at the same stage and round.
pub data File : Type 0 where
  plan_file red_report green_report proof : File
  review sendback : Stage → ℕ → File

pub record State : Type 0 where
  pub stage : Position
  pub review : Option File  -- `none` is ""
  pub rounds : Pair → ℕ
  pub final : Pair → ℕ
  pub sendbacks : Pair → ℕ
  pub open_sendbacks : Stage → Option File
  pub pending : Pair → Option (Option File)  -- `some none` is "", `none` an absent key

-- `d[pair] = v`
module _ {ℓ} {A : Type ℓ} where
  abbrev pub put_pair : Pair → A → (Pair → A) → Pair → A
  put_pair p v d q = if same_pair q p then v else d q

  abbrev pub put_stage : Stage → A → (Stage → A) → Stage → A
  put_stage s v d t = if same_stage t s then v else d t

-- The keys of `PENDING`, each holding "".
abbrev no_pending : Pair → Option (Option File)
no_pending test = some none
no_pending code = some none
no_pending _ = none

unfoldable pub fresh : ℕ → State
fresh max_rounds = record {
  stage = at plan_writer;
  review = none;
  rounds = λ _. 1;
  final = λ _. max_rounds;
  sendbacks = λ _. 0;
  open_sendbacks = λ _. none;
  pending = no_pending;
}
