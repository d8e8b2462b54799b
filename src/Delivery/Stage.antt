-- ===== src/Delivery/Stage.antt =====
-- tools/delivery/delivery/run/machine.py: the stages, their pairs and their roles. A stage is a
-- constructor where the source has its name, so a name that is no stage cannot be written.
use claude_at_work_project.Prelude.{
  ℕ, Bool, true, false, Option, none, some, List, [], ◌∷◌, ◌==◌, not,
}

-- `STAGES`
pub data Stage : Type 0 where
  plan_writer plan_reviewer test_writer test_reviewer code_writer code_reviewer : Stage
  acceptance_reviewer : Stage

-- `PAIRS`
pub data Pair : Type 0 where
  plan test code acceptance : Pair

pub data Role : Type 0 where
  writer reviewer : Role

-- `state.stage`: a stage, or "done".
pub data Position : Type 0 where
  at : Stage → Position
  done : Position

abbrev pub stages : List Stage
stages =
    plan_writer ∷ plan_reviewer ∷ test_writer ∷ test_reviewer ∷ code_writer ∷ code_reviewer
    ∷ acceptance_reviewer ∷ []

-- `STAGES.index(stage)`
abbrev pub index : Stage → ℕ
index plan_writer = 0
index plan_reviewer = 1
index test_writer = 2
index test_reviewer = 3
index code_writer = 4
index code_reviewer = 5
index acceptance_reviewer = 6

abbrev pub same_stage : Stage → Stage → Bool
same_stage a b = index a == index b

abbrev pub pair_of : Stage → Pair
pair_of plan_writer = plan
pair_of plan_reviewer = plan
pair_of test_writer = test
pair_of test_reviewer = test
pair_of code_writer = code
pair_of code_reviewer = code
pair_of acceptance_reviewer = acceptance

abbrev pub role_of : Stage → Role
role_of plan_writer = writer
role_of test_writer = writer
role_of code_writer = writer
role_of _ = reviewer

abbrev pub is_writer : Role → Bool
is_writer writer = true
is_writer reviewer = false

abbrev pub number : Pair → ℕ
number plan = 0
number test = 1
number code = 2
number acceptance = 3

abbrev pub same_pair : Pair → Pair → Bool
same_pair p q = number p == number q

abbrev pub has_writer : Stage → Bool
has_writer stage = not (same_pair (pair_of stage) acceptance)

abbrev pub next_stage : Stage → Position
next_stage plan_writer = at plan_reviewer
next_stage plan_reviewer = at test_writer
next_stage test_writer = at test_reviewer
next_stage test_reviewer = at code_writer
next_stage code_writer = at code_reviewer
next_stage code_reviewer = at acceptance_reviewer
next_stage acceptance_reviewer = done

-- `EARLIER.get(pair)`
abbrev pub earlier : Pair → Option Pair
earlier plan = none
earlier test = some plan
earlier code = some test
earlier acceptance = some code

abbrev pub earlier_pair : Stage → Option Pair
earlier_pair stage = earlier (pair_of stage)

-- `f"{pair}-writer"`. The acceptance pair has no writer: the two places that build the name ask
-- for one only after `has_writer`, or for an earlier pair; the name itself would be no stage.
abbrev pub writer_of : Pair → Option Stage
writer_of plan = some plan_writer
writer_of test = some test_writer
writer_of code = some code_writer
writer_of acceptance = none
