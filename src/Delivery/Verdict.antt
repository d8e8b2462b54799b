-- ===== src/Delivery/Verdict.antt =====
-- tools/delivery/delivery/run/machine.py: what a stage reports, the errors, and what the loop is
-- told to do.
use claude_at_work_project.Prelude.{ℕ, Bool, false, Option, none, String, List, Result}
use claude_at_work_project.Delivery.Stage.{Stage, Pair}
use claude_at_work_project.Delivery.State.{State, File}

-- `result["status"]`: a status that no branch names is `other`.
pub data Status : Type 0 where
  done approved changes_requested send_back needs_human other : Status

-- `result`: the fields that the machine reads.
pub record Outcome : Type 0 where
  pub status : Status
  pub summary : String
  pub questions : List String

-- `RunError`, by what its message says.
pub data RunError : Type 0 where
  wrote_no : Stage → File → RunError
  stale_proof : Stage → RunError
  no_writer : Stage → RunError
  no_earlier : Stage → RunError
  may_not_return : Stage → Status → RunError

-- The summary and the questions of a stop: the stage's own, or one of the machine's two texts.
pub data Reason : Type 0 where
  asked : (summary : String) (questions : List String) → Reason
  final_review : (pair : Pair) (rounds final : ℕ) (last : File) → Reason
  too_many_sendbacks : (to : Pair) (max : ℕ) (why : File) → Reason

pub record HumanStop : Type 0 where
  pub stage : Stage
  pub round : ℕ
  pub reason : Reason

pub record Advance : Type 0 where
  pub human : Option HumanStop
  pub stop : Bool
  pub snapshot : Bool
  pub cleared : Bool

-- `Advance()`
abbrev pub still : Advance
still = record { human = none; stop = false; snapshot = false; cleared = false }

-- What a call of `advance` returns or raises, and the state as it leaves it: what was assigned
-- before a raise stays assigned.
abbrev pub Answer : Type 0
Answer = Result RunError Advance × State
