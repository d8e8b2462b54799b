-- ===== src/Delivery/Machine.antt =====
-- tools/delivery/delivery/run/machine.py: what a stage's verdict does to the run. The theorems are
-- in the modules below.
pub mod Progress
pub mod Outputs
pub mod SendBack
pub mod Invariant
mod Examples
use claude_at_work_project.Prelude.{
  ℕ, ◌+◌, Bool, true, false, not, ◌&&◌, ◌||◌, Option, none, some, List, [], ◌∷◌, ltb, leb, is_some,
  any, select, if◌then◌else◌, ok, err,
}
use claude_at_work_project.Delivery.Stage.{
  Stage, Pair, Role, Position, at, writer, reviewer, plan, plan_writer, test_writer, code_writer,
  stages, same_pair, same_stage, pair_of, role_of, is_writer, has_writer, next_stage, earlier_pair,
  writer_of,
}
use claude_at_work_project.Delivery.State.{
  State, File, plan_file, red_report, green_report, proof, put_pair, put_stage,
}
use claude_at_work_project.Delivery.Verdict.{
  Status, Outcome, RunError, wrote_no, stale_proof, no_writer, no_earlier, may_not_return, asked,
  final_review, too_many_sendbacks, HumanStop, Advance, still, Answer,
}

unfoldable pub is_final_round : Stage → State → Bool
is_final_round stage state = leb (state.final (pair_of stage)) (state.rounds (pair_of stage))

-- One turn of the loop of `is_rework` over the open send-backs.
abbrev pub blocks : Stage → State → Stage → Bool
blocks stage state sender =
    not (same_stage sender stage && is_writer (role_of stage))
    && is_some (state.open_sendbacks sender)

unfoldable pub is_rework : Stage → State → Bool
is_rework stage state =
    ltb 1 (state.rounds (pair_of stage))
    || ((is_writer (role_of stage) && is_some state.review) || any (blocks stage state) stages)

abbrev pub review_path : Stage → State → File
review_path stage state = File.review stage (state.rounds (pair_of stage))

-- `before` is `earlier_pair(stage)`, which the source asserts is not `None`.
abbrev pub sendback_path : Stage → Pair → State → File
sendback_path stage before state = File.sendback stage (state.rounds before + 1)

abbrev pub writer_output : Stage → Option File
writer_output plan_writer = some plan_file
writer_output test_writer = some red_report
writer_output code_writer = some green_report
writer_output _ = none

-- A final round that round `r` reaches moves out past it; a later one stays.
unfoldable pub moved_out : (final r : ℕ) → ℕ
moved_out final r = if leb final r then r + 1 else final

abbrev pub new_round : Pair → State → State
new_round pair s =
    let r = s.rounds pair + 1 in
    record s {
      rounds = put_pair pair r s.rounds;
      final = put_pair pair (moved_out (s.final pair) r) s.final;
    }

-- `moved.human = HumanStop(...)` and `moved.stop = True`.
abbrev pub ask : HumanStop → Advance → Advance
ask h m = record m { human = some h; stop = true }

-- `state.review = ""`, `state.stage = next_stage(stage)`
abbrev pub onward : Stage → State → State
onward stage s = record s { review = none; stage = next_stage stage }

-- The writer that comes next gets the review that waits for its pair, and "" where none does.
abbrev pub hand_over : Position → State → State
hand_over (at next) s =
    if is_writer (role_of next)
    then elim (s.pending (pair_of next)) [
      | none ↦ record s { review = none }
      | some waiting ↦ record s {
        review = waiting;
        pending = put_pair (pair_of next) (some none) s.pending;
      }
    ]
    else s
hand_over Position.done s = s

abbrev pub forward : Stage → State → State
forward stage s = hand_over (next_stage stage) (onward stage s)

-- What follows the check of the review that a reviewer's send-back owes.
abbrev pub set_aside : Stage → State → State → State
set_aside stage s t =
    if has_writer stage
    then record t {
      pending = put_pair (pair_of stage) (some (some (review_path stage s))) t.pending;
    }
    else t

abbrev pub count_sendback : Pair → State → State
count_sendback before s = record s {
  sendbacks = put_pair before (s.sendbacks before + 1) s.sendbacks;
}

-- The end of `send_back`: the send-back is open, and the earlier pair's writer is next.
abbrev pub opened : Stage → Option Stage → File → State → State
opened stage target file s = record s {
  open_sendbacks = put_stage stage (some file) s.open_sendbacks;
  review = some file;
  stage = elim target [ none ↦ s.stage | some next ↦ at next ];
}

-- What `moved` says after a send-back to `before`, from the state that the send-back leaves.
abbrev pub sent : Stage → Pair → ℕ → File → Advance → State → Advance
sent stage before max file m s =
    let measured = record m { snapshot = true } in
    if ltb max (s.sendbacks before)
    then ask
        (record {
          stage = stage;
          round = s.rounds (pair_of stage);
          reason = too_many_sendbacks before max file;
        })
        measured
    else measured

module _ (exists : File → Bool) where
  unfoldable pub writer_done : Stage → Advance → State → Answer
  writer_done stage m s = elim (writer_output stage) [
    | none ↦ (ok m, onward stage s)
    | some file ↦ if exists file then (ok m, onward stage s) else (err (wrote_no stage file), s)
  ]

  unfoldable pub approved : Stage → Bool → Advance → State → Answer
  approved stage proof_rewritten m s =
      if has_writer stage
      then (if exists (review_path stage s)
          then (ok m, forward stage s)
          else (err (wrote_no stage (review_path stage s)), s))
      else if not (exists proof)
      then (err (wrote_no stage proof), s)
      else if not proof_rewritten
      then (err (stale_proof stage), s)
      else (ok m, forward stage s)

  -- `writer_of` has no writer for exactly the pair that `has_writer` refuses.
  unfoldable pub changes_requested : Stage → Advance → State → Answer
  changes_requested stage m s =
      let pair = pair_of stage in
      let file = review_path stage s in
      let rounds = s.rounds pair in
      let final = s.final pair in
      let reviewed = record s { review = some file } in
      elim (writer_of pair) [
        | none ↦ (err (no_writer stage), s)
        | some next ↦
            if exists file
            then (
              (if leb final rounds
                  then ok (
                      ask
                        (record {
                          stage = stage;
                          round = rounds;
                          reason = final_review pair rounds final file;
                        })
                        m)
                  else ok m),
              record reviewed { rounds = put_pair pair (rounds + 1) s.rounds; stage = at next },
            )
            else (err (wrote_no stage file), reviewed)
      ]

  -- The pair before takes a new round and the send-back is counted; a reviewer has reviewed too,
  -- so its review waits for its own writer and its own pair moves on.
  unfoldable pub send_back_to : Stage → Pair → Option Stage → ℕ → Advance → State → Answer
  send_back_to stage before target max m s =
      let file = sendback_path stage before s in
      let review = review_path stage s in
      let t = count_sendback before (new_round before s) in
      let u = new_round (pair_of stage) (set_aside stage s t) in
      if not (exists file)
      then (err (wrote_no stage file), s)
      else if is_writer (role_of stage)
      then (ok (sent stage before max file m t), opened stage target file t)
      else if has_writer stage && not (exists review)
      then (err (wrote_no stage review), t)
      else (ok (sent stage before max file m u), opened stage target file u)

  unfoldable pub send_back : Stage → ℕ → Advance → State → Answer
  unfolding send_back_to
  send_back stage max m s = elim (earlier_pair stage) [
    | none ↦ (err (no_earlier stage), s)
    | some before ↦ send_back_to stage before (writer_of before) max m s
  ]

  -- The branches of `advance`, in the source's order.
  unfoldable pub dispatch : Role → Status → Stage → Outcome → Bool → ℕ → Advance → State → Answer
  dispatch writer Status.done stage r rewritten max m s = writer_done stage m s
  dispatch reviewer Status.approved stage r rewritten max m s = approved stage rewritten m s
  dispatch reviewer Status.changes_requested stage r rewritten max m s = changes_requested stage m s
  dispatch role Status.send_back stage r rewritten max m s = send_back stage max m s
  dispatch role Status.needs_human stage r rewritten max m s = (
    ok (
        ask
          (record {
            stage = stage;
            round = s.rounds (pair_of stage);
            reason = asked r.summary r.questions;
          })
          m),
    s,
  )
  dispatch role status stage r rewritten max m s = (err (may_not_return stage status), s)

  -- `advance(state, stage, result, ...)`. A stage past the plan pair closes its own send-back
  -- first. Of the settings it reads `max_sendbacks` alone.
  unfoldable pub advance : State → Stage → Outcome → Bool → ℕ → Answer
  advance s stage r proof_rewritten max_sendbacks =
      if not (same_pair (pair_of stage) plan) && is_some (s.open_sendbacks stage)
      then dispatch (role_of stage) r.status stage r proof_rewritten max_sendbacks
          (record still { cleared = true })
          (record s { open_sendbacks = put_stage stage none s.open_sendbacks })
      else dispatch (role_of stage) r.status stage r proof_rewritten max_sendbacks still s

  -- `[path for path in owed if not exists(path)]`
  abbrev pub absent : List File → List File
  absent = select (λ file. not (exists file))

  abbrev pub with_review : Stage → State → List File
  with_review stage state =
      if not (is_writer (role_of stage)) && has_writer stage
      then review_path stage state ∷ []
      else []

  -- The verdict's own branch; a verdict that owes no file owes `[]`.
  abbrev pub missing_on : Role → Status → Stage → State → Bool → List File
  missing_on writer Status.done stage state rewritten = elim (writer_output stage) [
    | none ↦ []
    | some file ↦ absent (file ∷ [])
  ]
  missing_on role Status.approved stage state rewritten =
      if has_writer stage
      then absent (review_path stage state ∷ [])
      else if exists proof && not rewritten
      then proof ∷ []
      else absent (proof ∷ [])
  missing_on role Status.changes_requested stage state rewritten =
      if has_writer stage then absent (review_path stage state ∷ []) else []
  missing_on role Status.send_back stage state rewritten = elim (earlier_pair stage) [
    | none ↦ []
    | some before ↦ absent (sendback_path stage before state ∷ with_review stage state)
  ]
  missing_on _ _ stage state rewritten = []

  unfoldable pub missing_outputs : State → Stage → Status → Bool → List File
  missing_outputs state stage status rewritten =
      missing_on (role_of stage) status stage state rewritten
