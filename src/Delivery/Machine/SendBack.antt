-- ===== src/Delivery/Machine/SendBack.antt =====
-- What a send-back does: the earlier pair takes the work again, with an ordinary review ahead.
use claude_at_work_project.Prelude.{
  ℕ, ◌+◌, ◌≡◌, ◌<◌, Bool, true, false, some, ok, ltb, arith, refl, inl, inr, not, ◌&&◌, ◌||◌, none,
  ◌≢◌, err, Result-cases, is_some, Bool-cases,
}
use claude_at_work_project.Delivery.Stage.{
  Stage, Pair, Role, at, writer, reviewer, plan, test, code, plan_writer, same_pair, plan_reviewer,
  test_writer, test_reviewer, code_writer, code_reviewer, acceptance_reviewer, earlier_pair,
  writer_of, pair_of, is_writer, role_of, has_writer,
}
use claude_at_work_project.Delivery.State.{State, File, put_stage}
use claude_at_work_project.Delivery.Verdict.{Status, Outcome, Advance, RunError, still}
use claude_at_work_project.Delivery.Machine.{
  moved_out, is_final_round, is_rework, sendback_path, review_path, send_back, dispatch, advance,
}

-- Stage `stage` has sent work back from state `s` to the writer `target` of pair `before`.
pub record IsSentBack (max : ℕ) (stage : Stage) (before : Pair) (target : Stage) (s s' : State)
    (moved : Advance) : Type 0 where
  pub moved_to : s'.stage ≡ at target
  pub reason : s'.review ≡ some (sendback_path stage before s)
  pub stays_open : s'.open_sendbacks stage ≡ some (sendback_path stage before s)
  pub new_round : s'.rounds before ≡ s.rounds before + 1
  pub not_final : s'.rounds before < s'.final before
  pub counted : s'.sendbacks before ≡ s.sendbacks before + 1
  pub measured : moved.snapshot ≡ true
  pub human_past_limit : moved.stop ≡ ltb max (s.sendbacks before + 1)

lt-moved_out : (final r : ℕ) → r < moved_out final r
unfolding moved_out
lt-moved_out final r = ground arith

module _ (exists : File → Bool) (max : ℕ) where
  IsSentBack-send_back :
      (stage : Stage) (before : Pair) (target : Stage) (s s' : State) (m moved : Advance)
      → earlier_pair stage ≡ some before
      → writer_of before ≡ some target
      → m.stop ≡ false
      → send_back exists stage max m s ≡ (ok moved, s')
      → IsSentBack max stage before target s s' moved
  unfolding send_back
  IsSentBack-send_back plan_writer before target s s' m moved e w go h = ground arith
  IsSentBack-send_back plan_reviewer before target s s' m moved e w go h = ground arith
  IsSentBack-send_back test_writer before target s s' m moved e w go h =
      ground (arith, lt-moved_out (s.final plan) (s.rounds plan + 1))
  IsSentBack-send_back test_reviewer before target s s' m moved e w go h =
      ground (arith, lt-moved_out (s.final plan) (s.rounds plan + 1))
  IsSentBack-send_back code_writer before target s s' m moved e w go h =
      ground (arith, lt-moved_out (s.final test) (s.rounds test + 1))
  IsSentBack-send_back code_reviewer before target s s' m moved e w go h =
      ground (arith, lt-moved_out (s.final test) (s.rounds test + 1))
  IsSentBack-send_back acceptance_reviewer before target s s' m moved e w go h =
      ground (arith, lt-moved_out (s.final code) (s.rounds code + 1))

  dispatch-send_back :
      (role : Role) (stage : Stage) (r : Outcome) (rewritten : Bool) (m : Advance) (s : State)
      → dispatch exists role Status.send_back stage r rewritten max m s
        ≡ send_back exists stage max m s
  unfolding dispatch
  dispatch-send_back writer stage r rewritten m s = refl
  dispatch-send_back reviewer stage r rewritten m s = refl

-- Has the stage written what a send-back to `before` owes: why it sends work back, and the review of a
-- reviewer whose pair has a writer?
abbrev pub has_written : (File → Bool) → Stage → Pair → State → Bool
has_written exists stage before s =
    exists (sendback_path stage before s)
    && (is_writer (role_of stage) || (not (has_writer stage) || exists (review_path stage s)))

send_back-accepts :
    (exists : File → Bool) (max : ℕ) (stage : Stage) (before : Pair) (m : Advance) (s : State)
    (e : RunError)
    → earlier_pair stage ≡ some before
    → has_written exists stage before s ≡ true
    → (send_back exists stage max m s).0 ≢ err e
unfolding send_back
send_back-accepts exists max plan_writer before m s e earlier owed h = ground arith
send_back-accepts exists max plan_reviewer before m s e earlier owed h = ground arith
send_back-accepts exists max test_writer before m s e earlier owed h = ground arith
send_back-accepts exists max test_reviewer before m s e earlier owed h = ground arith
send_back-accepts exists max code_writer before m s e earlier owed h = ground arith
send_back-accepts exists max code_reviewer before m s e earlier owed h = ground arith
send_back-accepts exists max acceptance_reviewer before m s e earlier owed h = ground arith

advance-accepts :
    (exists : File → Bool) (max : ℕ) (stage : Stage) (before : Pair) (s : State) (r : Outcome)
    (rewritten : Bool) (e : RunError)
    → earlier_pair stage ≡ some before
    → r.status ≡ Status.send_back
    → has_written exists stage before s ≡ true
    → (advance exists s stage r rewritten max).0 ≢ err e
unfolding advance
advance-accepts exists max stage before s r rewritten e earlier status owed h =
    elim (Bool-cases (not (same_pair (pair_of stage) plan) && is_some (s.open_sendbacks stage))) [
      | inl own ↦
          let closed = record s { open_sendbacks = put_stage stage none s.open_sendbacks } in
          send_back-accepts exists max stage before (record still { cleared = true }) closed e
            earlier owed (rw (own, status, dispatch-send_back) at h)
      | inr other ↦
          send_back-accepts exists max stage before still s e earlier owed
            (rw (other, status, dispatch-send_back) at h)
    ]

-- A send-back that is accepted has gone to the writer of the pair before.
IsSentBack-accepted :
    (exists : File → Bool) (max : ℕ) (stage : Stage) (before : Pair) (target : Stage) (s s' : State)
    (r : Outcome) (rewritten : Bool) (moved : Advance)
    → earlier_pair stage ≡ some before
    → writer_of before ≡ some target
    → r.status ≡ Status.send_back
    → advance exists s stage r rewritten max ≡ (ok moved, s')
    → IsSentBack max stage before target s s' moved
unfolding advance
IsSentBack-accepted exists max stage before target s s' r rewritten moved e w status h =
    elim (Bool-cases (not (same_pair (pair_of stage) plan) && is_some (s.open_sendbacks stage))) [
      | inl own ↦
          let closed = record s { open_sendbacks = put_stage stage none s.open_sendbacks } in
          let sent =
            IsSentBack-send_back exists max stage before target closed s'
              (record still { cleared = true }) moved e w refl
              (rw (own, status, dispatch-send_back) at h) in
          record {
            moved_to = sent.moved_to;
            reason = sent.reason;
            stays_open = sent.stays_open;
            new_round = sent.new_round;
            not_final = sent.not_final;
            counted = sent.counted;
            measured = sent.measured;
            human_past_limit = sent.human_past_limit;
          }
      | inr other ↦
          IsSentBack-send_back exists max stage before target s s' still moved e w refl
            (rw (other, status, dispatch-send_back) at h)
    ]

-- A stage with a pair before it, which has written why it sends work back and, where it is a reviewer
-- whose pair has a writer, its review, is not refused: the work goes to the writer of the pair before,
-- which takes a new round that is not its final one; the send-back is counted and stays open, and a
-- human sees it first exactly when that pair has taken more than `max` of them.
pub IsSentBack-advance :
    (exists : File → Bool) (max : ℕ) (stage : Stage) (before : Pair) (target : Stage) (s : State)
    (r : Outcome) (rewritten : Bool)
    → earlier_pair stage ≡ some before
    → writer_of before ≡ some target
    → r.status ≡ Status.send_back
    → has_written exists stage before s ≡ true
    → (moved : Advance) × ((advance exists s stage r rewritten max).0 ≡ ok moved)
      × IsSentBack max stage before target s (advance exists s stage r rewritten max).1 moved
IsSentBack-advance exists max stage before target s r rewritten earlier w status owed =
    elim (Result-cases (advance exists s stage r rewritten max).0) [
      | inl (e, refused) ↦
          absurd
            (advance-accepts exists max stage before s r rewritten e earlier status owed refused)
      | inr (moved, accepted) ↦ (
        moved,
        accepted,
        IsSentBack-accepted exists max stage before target s
            (advance exists s stage r rewritten max).1 r rewritten moved earlier w status
            (cc accepted),
      )
    ]

-- After a send-back that is accepted, the writer that the work goes back to changes work that
-- exists: its pass is a rework pass, and never a final round.
pub rework_after_send_back :
    (exists : File → Bool) (max : ℕ) (stage : Stage) (before : Pair) (target : Stage) (s s' : State)
    (r : Outcome) (rewritten : Bool) (moved : Advance)
    → earlier_pair stage ≡ some before
    → writer_of before ≡ some target
    → r.status ≡ Status.send_back
    → advance exists s stage r rewritten max ≡ (ok moved, s')
    → (is_rework target s' ≡ true) × (is_final_round target s' ≡ false)
unfolding is_rework is_final_round
rework_after_send_back exists max stage before target s s' r rewritten moved e w status h =
    at_target before target w
      (IsSentBack-accepted exists max stage before target s s' r rewritten moved e w status h)
  where
    at_target :
        (p : Pair) (t : Stage)
        → writer_of p ≡ some t
        → IsSentBack max stage p t s s' moved
        → (is_rework t s' ≡ true) × (is_final_round t s' ≡ false)
    at_target plan t w sent = ground arith
    at_target _ t w sent = ground arith
