-- ===== src/Delivery/Machine/Outputs.antt =====
-- `missing_outputs` names what `advance` would refuse.
use claude_at_work_project.Prelude.{
  ◌≡◌, refl, inl, inr, Bool, true, not, ◌&&◌, Option, none, some, List, [], ◌∷◌, Result, ok, err,
  arith, is_some, Bool-cases, ℕ, subst,
}
use claude_at_work_project.Delivery.Stage.{
  Stage, Role, writer, reviewer, plan, plan_writer, plan_reviewer, test_writer, test_reviewer,
  code_writer, code_reviewer, acceptance_reviewer, role_of, pair_of, same_pair,
}
use claude_at_work_project.Delivery.State.{State, File, proof, put_stage}
use claude_at_work_project.Delivery.Verdict.{
  Status, Outcome, RunError, wrote_no, stale_proof, Advance, still,
}
use claude_at_work_project.Delivery.Machine.{
  writer_done, approved, changes_requested, send_back, dispatch, advance, missing_on,
  missing_outputs,
}

abbrev pub first : List File → Option File
first [] = none
first (file ∷ rest) = some file

-- What an answer says of the files that were missing.
pub record Explains (missing : List File) (answer : Result RunError Advance) : Type 0 where
  pub nothing : (moved : Advance) → answer ≡ ok moved → missing ≡ []
  pub not_written :
      (by : Stage) (file : File) → answer ≡ err (wrote_no by file) → first missing ≡ some file
  pub stale : (by : Stage) → answer ≡ err (stale_proof by) → missing ≡ proof ∷ []

module _ (exists : File → Bool) (rewritten : Bool) (max : ℕ) where
  missing-writer_done :
      (stage : Stage) (m : Advance) (s : State)
      → role_of stage ≡ writer
      → Explains
          (missing_on exists writer Status.done stage s rewritten)
          (writer_done exists stage m s).0
  unfolding writer_done
  missing-writer_done plan_writer m s role = record {
    nothing = λ moved h. ground arith;
    not_written = λ by file h. ground arith;
    stale = λ by h. ground arith;
  }
  missing-writer_done plan_reviewer m s role = record {
    nothing = λ moved h. ground arith;
    not_written = λ by file h. ground arith;
    stale = λ by h. ground arith;
  }
  missing-writer_done test_writer m s role = record {
    nothing = λ moved h. ground arith;
    not_written = λ by file h. ground arith;
    stale = λ by h. ground arith;
  }
  missing-writer_done test_reviewer m s role = record {
    nothing = λ moved h. ground arith;
    not_written = λ by file h. ground arith;
    stale = λ by h. ground arith;
  }
  missing-writer_done code_writer m s role = record {
    nothing = λ moved h. ground arith;
    not_written = λ by file h. ground arith;
    stale = λ by h. ground arith;
  }
  missing-writer_done code_reviewer m s role = record {
    nothing = λ moved h. ground arith;
    not_written = λ by file h. ground arith;
    stale = λ by h. ground arith;
  }
  missing-writer_done acceptance_reviewer m s role = record {
    nothing = λ moved h. ground arith;
    not_written = λ by file h. ground arith;
    stale = λ by h. ground arith;
  }

  missing-approved :
      (stage : Stage) (m : Advance) (s : State)
      → role_of stage ≡ reviewer
      → Explains
          (missing_on exists reviewer Status.approved stage s rewritten)
          (approved exists stage rewritten m s).0
  unfolding approved
  missing-approved plan_writer m s role = record {
    nothing = λ moved h. ground arith;
    not_written = λ by file h. ground arith;
    stale = λ by h. ground arith;
  }
  missing-approved plan_reviewer m s role = record {
    nothing = λ moved h. ground arith;
    not_written = λ by file h. ground arith;
    stale = λ by h. ground arith;
  }
  missing-approved test_writer m s role = record {
    nothing = λ moved h. ground arith;
    not_written = λ by file h. ground arith;
    stale = λ by h. ground arith;
  }
  missing-approved test_reviewer m s role = record {
    nothing = λ moved h. ground arith;
    not_written = λ by file h. ground arith;
    stale = λ by h. ground arith;
  }
  missing-approved code_writer m s role = record {
    nothing = λ moved h. ground arith;
    not_written = λ by file h. ground arith;
    stale = λ by h. ground arith;
  }
  missing-approved code_reviewer m s role = record {
    nothing = λ moved h. ground arith;
    not_written = λ by file h. ground arith;
    stale = λ by h. ground arith;
  }
  missing-approved acceptance_reviewer m s role = record {
    nothing = λ moved h. ground arith;
    not_written = λ by file h. ground arith;
    stale = λ by h. ground arith;
  }

  missing-changes_requested :
      (stage : Stage) (m : Advance) (s : State)
      → role_of stage ≡ reviewer
      → Explains
          (missing_on exists reviewer Status.changes_requested stage s rewritten)
          (changes_requested exists stage m s).0
  unfolding changes_requested
  missing-changes_requested plan_writer m s role = record {
    nothing = λ moved h. ground arith;
    not_written = λ by file h. ground arith;
    stale = λ by h. ground arith;
  }
  missing-changes_requested plan_reviewer m s role = record {
    nothing = λ moved h. ground arith;
    not_written = λ by file h. ground arith;
    stale = λ by h. ground arith;
  }
  missing-changes_requested test_writer m s role = record {
    nothing = λ moved h. ground arith;
    not_written = λ by file h. ground arith;
    stale = λ by h. ground arith;
  }
  missing-changes_requested test_reviewer m s role = record {
    nothing = λ moved h. ground arith;
    not_written = λ by file h. ground arith;
    stale = λ by h. ground arith;
  }
  missing-changes_requested code_writer m s role = record {
    nothing = λ moved h. ground arith;
    not_written = λ by file h. ground arith;
    stale = λ by h. ground arith;
  }
  missing-changes_requested code_reviewer m s role = record {
    nothing = λ moved h. ground arith;
    not_written = λ by file h. ground arith;
    stale = λ by h. ground arith;
  }
  missing-changes_requested acceptance_reviewer m s role = record {
    nothing = λ moved h. ground arith;
    not_written = λ by file h. ground arith;
    stale = λ by h. ground arith;
  }

  missing-send_back :
      (stage : Stage) (m : Advance) (s : State)
      → Explains
          (missing_on exists (role_of stage) Status.send_back stage s rewritten)
          (send_back exists stage max m s).0
  unfolding send_back
  missing-send_back plan_writer m s = record {
    nothing = λ moved h. ground arith;
    not_written = λ by file h. ground arith;
    stale = λ by h. ground arith;
  }
  missing-send_back plan_reviewer m s = record {
    nothing = λ moved h. ground arith;
    not_written = λ by file h. ground arith;
    stale = λ by h. ground arith;
  }
  missing-send_back test_writer m s = record {
    nothing = λ moved h. ground arith;
    not_written = λ by file h. ground arith;
    stale = λ by h. ground arith;
  }
  missing-send_back test_reviewer m s = record {
    nothing = λ moved h. ground arith;
    not_written = λ by file h. ground arith;
    stale = λ by h. ground arith;
  }
  missing-send_back code_writer m s = record {
    nothing = λ moved h. ground arith;
    not_written = λ by file h. ground arith;
    stale = λ by h. ground arith;
  }
  missing-send_back code_reviewer m s = record {
    nothing = λ moved h. ground arith;
    not_written = λ by file h. ground arith;
    stale = λ by h. ground arith;
  }
  missing-send_back acceptance_reviewer m s = record {
    nothing = λ moved h. ground arith;
    not_written = λ by file h. ground arith;
    stale = λ by h. ground arith;
  }

  missing-dispatch :
      (role : Role) (status : Status) (stage : Stage) (r : Outcome) (m : Advance) (s : State)
      → role_of stage ≡ role
      → Explains
          (missing_on exists role status stage s rewritten)
          (dispatch exists role status stage r rewritten max m s).0
  unfolding dispatch
  missing-dispatch writer Status.done stage r m s e = missing-writer_done stage m s e
  missing-dispatch reviewer Status.approved stage r m s e = missing-approved stage m s e
  missing-dispatch reviewer Status.changes_requested stage r m s e =
      missing-changes_requested stage m s e
  missing-dispatch role Status.send_back stage r m s e =
      subst
        (λ p.
          Explains (missing_on exists p Status.send_back stage s rewritten)
            (send_back exists stage max m s).0)
        e (missing-send_back stage m s)
  missing-dispatch role status stage r m s e = record {
    nothing = λ moved h. ground arith;
    not_written = λ by file h. ground arith;
    stale = λ by h. ground arith;
  }

  -- The files that a verdict owes do not depend on the open send-backs.
  missing-close_own :
      (role : Role) (status : Status) (stage : Stage) (s : State) (files : Stage → Option File)
      → missing_on exists role status stage (record s { open_sendbacks = files }) rewritten
        ≡ missing_on exists role status stage s rewritten
  missing-close_own writer Status.done stage s files = refl
  missing-close_own reviewer Status.approved stage s files = refl
  missing-close_own reviewer _ stage s files = refl
  missing-close_own writer _ stage s files = refl

-- What is asked for before `advance` is what `advance` would refuse: a verdict that it accepts
-- leaves nothing missing, a file that it names as not written is the first one missing, and a proof
-- that it calls an earlier pass's is the one file missing.
pub missing-advance :
    (exists : File → Bool) (rewritten : Bool) (max : ℕ) (stage : Stage) (s : State) (r : Outcome)
    → Explains
        (missing_outputs exists s stage r.status rewritten)
        (advance exists s stage r rewritten max).0
unfolding missing_outputs advance
missing-advance exists rewritten max stage s r =
    elim (Bool-cases (not (same_pair (pair_of stage) plan) && is_some (s.open_sendbacks stage))) [
      | inl own ↦
          rw
            (
              own,
              ← missing-close_own exists rewritten max (role_of stage) r.status stage s
                  (put_stage stage none s.open_sendbacks),
            )
            (missing-dispatch exists rewritten max (role_of stage) r.status stage r
              (record still { cleared = true })
              (record s { open_sendbacks = put_stage stage none s.open_sendbacks }) refl)
      | inr other ↦
          rw other
            (missing-dispatch exists rewritten max (role_of stage) r.status stage r still s refl)
    ]
