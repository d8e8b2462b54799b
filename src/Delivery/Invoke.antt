-- ===== src/Delivery/Invoke.antt =====
-- tools/delivery/delivery/run/invoke.py: how a stage's agent is run, rerun once after a crash and
-- resumed once after the turn cap. `run` is the agent runner: what `parsed` makes of its answer to a
-- call, which may depend on the calls before. Prompts, transcripts and logging are not modelled; a
-- text is a number.
pub mod Calls
mod Examples
use claude_at_work_project.Prelude.{
  ℕ, ◌+◌, ◌/◌, Bool, true, false, not, ◌&&◌, ◌||◌, Option, none, some, List, [], ◌∷◌, ltb, is_some,
  if◌then◌else◌, Result, ok, err,
}

-- `subtype`: the cap of turns, or anything else that is not the empty string.
pub data Subtype : Type 0 where
  error_max_turns : Subtype
  ended : ℕ → Subtype

-- `structured_output`, a dict with a status.
pub record Structured : Type 0 where
  pub status : ℕ
  pub summary : ℕ

-- The fields of a transcript that are read, none where one is missing or empty. `is_error` is none
-- where it is no Boolean.
pub record Output : Type 0 where
  pub subtype : Option Subtype
  pub is_error : Option Bool
  pub session_id : Option ℕ
  pub structured_output : Option Structured

pub data RunError : Type 0 where
  failed_twice failed_when_resumed failed_when_asked : RunError
  ended_in_error no_structured_result : RunError

-- A call of the runner: of the pass anew, or of its session with so many turns.
pub data Call : Type 0 where
  fresh : (turns : ℕ) → Call
  resumed : (session turns : ℕ) → Call

abbrev pub Runner : Type 0
Runner = List Call → Call → Option Output

pub record Ran : Type 0 where
  pub subtype : Option Subtype
  pub output : Output
  pub turns : ℕ

abbrev pub missing_turns : ℕ
missing_turns = 20

abbrev pub subtype_of : Option Output → Option Subtype
subtype_of none = none
subtype_of (some o) = o.subtype

abbrev pub is_max_turns : Option Subtype → Bool
is_max_turns none = false
is_max_turns (some error_max_turns) = true
is_max_turns (some (ended n)) = false

-- `found.get("is_error") is not False`
abbrev pub not_false : Option Bool → Bool
not_false none = true
not_false (some b) = b

abbrev pub is_error_of : Option Output → Option Bool
is_error_of none = none
is_error_of (some o) = o.is_error

abbrev pub session_of : Option Output → Option ℕ
session_of none = none
session_of (some o) = o.session_id

unfoldable pub crashed : Option Output → Bool
crashed found =
    not (is_some (subtype_of found))
    || (not (is_max_turns (subtype_of found)) && not_false (is_error_of found))

-- `max(p.turns // 2, 30)`
abbrev pub more_turns : ℕ → ℕ
more_turns turns = if ltb (turns / 2) 30 then 30 else turns / 2

-- The end of `run_agent`; the calls, the last first.
abbrev pub ran :
    (turns : ℕ) → RunError → List Call → Option Output → Result RunError Ran × List Call
ran turns e calls none = (err e, calls)
ran turns e calls (some o) =
    if is_some o.subtype
    then (ok (record { subtype = o.subtype; output = o; turns = turns }), calls)
    else (err e, calls)

-- From `if subtype_of(found) == "error_max_turns"` on.
unfoldable pub resume :
    (turns : ℕ) → Runner → RunError → List Call → Option Output → Result RunError Ran × List Call
resume turns run e calls found =
    if not (is_max_turns (subtype_of found))
    then ran turns e calls found
    else elim (session_of found) [
      | none ↦ ran turns e calls found
      | some session ↦
          let call = resumed session (more_turns turns) in
          ran turns failed_when_resumed (call ∷ calls) (run calls call)
    ]

unfoldable pub run_agent : (turns : ℕ) → Runner → Result RunError Ran × List Call
unfolding crashed resume
run_agent turns run =
    let first = run [] (fresh turns) in
    let second = run (fresh turns ∷ []) (fresh turns) in
    if not (crashed first)
    then resume turns run failed_twice (fresh turns ∷ []) first
    else if is_some (subtype_of second)
    then resume turns run failed_twice (fresh turns ∷ (fresh turns ∷ [])) second
    else (err failed_twice, fresh turns ∷ (fresh turns ∷ []))

unfoldable pub finish_outputs : (session : ℕ) → Runner → List Call → Result RunError Ran × List Call
finish_outputs session run calls =
    let call = resumed session missing_turns in
    ran missing_turns failed_when_asked (call ∷ calls) (run calls call)

-- The stop for a human, or the structured result.
pub data StageResult : Type 0 where
  needs_human : StageResult
  returned : Structured → StageResult

unfoldable pub result_of : Ran → Result RunError StageResult
result_of r =
    if is_max_turns r.subtype
    then ok needs_human
    else if not_false r.output.is_error
    then err ended_in_error
    else elim r.output.structured_output [
      | none ↦ err no_structured_result
      | some s ↦ ok (returned s)
    ]
