-- ===== src/Delivery/Machine/Invariant.antt =====
-- What holds of the state of a run after every verdict, also one that is refused.
use claude_at_work_project.Prelude.{
  ℕ, ◌+◌, ◌≤◌, ◌≡◌, inl, inr, Bool, true, not, ◌&&◌, none, arith, is_some, Bool-cases,
}
use claude_at_work_project.Delivery.Stage.{
  Stage, Pair, Role, writer, reviewer, plan, test, code, acceptance, plan_writer, plan_reviewer,
  test_writer, test_reviewer, code_writer, code_reviewer, acceptance_reviewer, role_of, pair_of,
  same_pair,
}
use claude_at_work_project.Delivery.State.{State, File, fresh, put_stage}
use claude_at_work_project.Delivery.Verdict.{Status, Outcome, Advance, still}
use claude_at_work_project.Delivery.Machine.{
  moved_out, writer_done, approved, changes_requested, send_back, dispatch, advance,
}

-- Every pair is in its first round or a later one, no review waits for a pair that keeps none, and
-- no plan stage has a send-back open.
pub record IsSound (s : State) : Type 0 where
  pub started : (p : Pair) → 1 ≤ s.rounds p
  pub plan_keeps_none : s.pending plan ≡ none
  pub acceptance_keeps_none : s.pending acceptance ≡ none
  pub plan_writer_open : s.open_sendbacks plan_writer ≡ none
  pub plan_reviewer_open : s.open_sendbacks plan_reviewer ≡ none

pub fresh-IsSound : (max_rounds : ℕ) → IsSound (fresh max_rounds)
unfolding fresh
fresh-IsSound max_rounds = ground arith

-- What an answer leaves behind: a sound state, in which no pair has gone back a round, has a
-- nearer final round or has fewer send-backs.
pub record Keeps (s s' : State) : Type 0 where
  pub sound : IsSound s'
  pub rounds_grow : (p : Pair) → s.rounds p ≤ s'.rounds p
  pub final_grows : (p : Pair) → s.final p ≤ s'.final p
  pub sendbacks_grow : (p : Pair) → s.sendbacks p ≤ s'.sendbacks p

final-le-moved_out : (final r : ℕ) → final ≤ moved_out final r
unfolding moved_out
final-le-moved_out final r = ground arith

module _ (exists : File → Bool) (rewritten : Bool) (max : ℕ) where
  Keeps-writer_done :
      (stage : Stage) (m : Advance) (s : State)
      → IsSound s
      → Keeps s (writer_done exists stage m s).1
  unfolding writer_done
  Keeps-writer_done plan_writer m s k = record {
    sound = record {
      started = λ p. ground (arith, k.started p);
      plan_keeps_none = ground arith;
      acceptance_keeps_none = ground arith;
      plan_writer_open = ground arith;
      plan_reviewer_open = ground arith;
    };
    rounds_grow = λ p. ground arith;
    final_grows = λ p. ground (arith);
    sendbacks_grow = λ p. ground arith;
  }
  Keeps-writer_done plan_reviewer m s k = record {
    sound = record {
      started = λ p. ground (arith, k.started p);
      plan_keeps_none = ground arith;
      acceptance_keeps_none = ground arith;
      plan_writer_open = ground arith;
      plan_reviewer_open = ground arith;
    };
    rounds_grow = λ p. ground arith;
    final_grows = λ p. ground (arith);
    sendbacks_grow = λ p. ground arith;
  }
  Keeps-writer_done test_writer m s k = record {
    sound = record {
      started = λ p. ground (arith, k.started p);
      plan_keeps_none = ground arith;
      acceptance_keeps_none = ground arith;
      plan_writer_open = ground arith;
      plan_reviewer_open = ground arith;
    };
    rounds_grow = λ p. ground arith;
    final_grows = λ p. ground (arith);
    sendbacks_grow = λ p. ground arith;
  }
  Keeps-writer_done test_reviewer m s k = record {
    sound = record {
      started = λ p. ground (arith, k.started p);
      plan_keeps_none = ground arith;
      acceptance_keeps_none = ground arith;
      plan_writer_open = ground arith;
      plan_reviewer_open = ground arith;
    };
    rounds_grow = λ p. ground arith;
    final_grows = λ p. ground (arith);
    sendbacks_grow = λ p. ground arith;
  }
  Keeps-writer_done code_writer m s k = record {
    sound = record {
      started = λ p. ground (arith, k.started p);
      plan_keeps_none = ground arith;
      acceptance_keeps_none = ground arith;
      plan_writer_open = ground arith;
      plan_reviewer_open = ground arith;
    };
    rounds_grow = λ p. ground arith;
    final_grows = λ p. ground (arith);
    sendbacks_grow = λ p. ground arith;
  }
  Keeps-writer_done code_reviewer m s k = record {
    sound = record {
      started = λ p. ground (arith, k.started p);
      plan_keeps_none = ground arith;
      acceptance_keeps_none = ground arith;
      plan_writer_open = ground arith;
      plan_reviewer_open = ground arith;
    };
    rounds_grow = λ p. ground arith;
    final_grows = λ p. ground (arith);
    sendbacks_grow = λ p. ground arith;
  }
  Keeps-writer_done acceptance_reviewer m s k = record {
    sound = record {
      started = λ p. ground (arith, k.started p);
      plan_keeps_none = ground arith;
      acceptance_keeps_none = ground arith;
      plan_writer_open = ground arith;
      plan_reviewer_open = ground arith;
    };
    rounds_grow = λ p. ground arith;
    final_grows = λ p. ground (arith);
    sendbacks_grow = λ p. ground arith;
  }

  Keeps-approved :
      (stage : Stage) (m : Advance) (s : State)
      → IsSound s
      → Keeps s (approved exists stage rewritten m s).1
  unfolding approved
  Keeps-approved plan_writer m s k = record {
    sound = record {
      started = λ p. ground (arith, k.started p);
      plan_keeps_none = ground arith;
      acceptance_keeps_none = ground arith;
      plan_writer_open = ground arith;
      plan_reviewer_open = ground arith;
    };
    rounds_grow = λ p. ground arith;
    final_grows = λ p. ground (arith);
    sendbacks_grow = λ p. ground arith;
  }
  Keeps-approved plan_reviewer m s k = record {
    sound = record {
      started = λ p. ground (arith, k.started p);
      plan_keeps_none = ground arith;
      acceptance_keeps_none = ground arith;
      plan_writer_open = ground arith;
      plan_reviewer_open = ground arith;
    };
    rounds_grow = λ p. ground arith;
    final_grows = λ p. ground (arith);
    sendbacks_grow = λ p. ground arith;
  }
  Keeps-approved test_writer m s k = record {
    sound = record {
      started = λ p. ground (arith, k.started p);
      plan_keeps_none = ground arith;
      acceptance_keeps_none = ground arith;
      plan_writer_open = ground arith;
      plan_reviewer_open = ground arith;
    };
    rounds_grow = λ p. ground arith;
    final_grows = λ p. ground (arith);
    sendbacks_grow = λ p. ground arith;
  }
  Keeps-approved test_reviewer m s k = record {
    sound = record {
      started = λ p. ground (arith, k.started p);
      plan_keeps_none = ground arith;
      acceptance_keeps_none = ground arith;
      plan_writer_open = ground arith;
      plan_reviewer_open = ground arith;
    };
    rounds_grow = λ p. ground arith;
    final_grows = λ p. ground (arith);
    sendbacks_grow = λ p. ground arith;
  }
  Keeps-approved code_writer m s k = record {
    sound = record {
      started = λ p. ground (arith, k.started p);
      plan_keeps_none = ground arith;
      acceptance_keeps_none = ground arith;
      plan_writer_open = ground arith;
      plan_reviewer_open = ground arith;
    };
    rounds_grow = λ p. ground arith;
    final_grows = λ p. ground (arith);
    sendbacks_grow = λ p. ground arith;
  }
  Keeps-approved code_reviewer m s k = record {
    sound = record {
      started = λ p. ground (arith, k.started p);
      plan_keeps_none = ground arith;
      acceptance_keeps_none = ground arith;
      plan_writer_open = ground arith;
      plan_reviewer_open = ground arith;
    };
    rounds_grow = λ p. ground arith;
    final_grows = λ p. ground (arith);
    sendbacks_grow = λ p. ground arith;
  }
  Keeps-approved acceptance_reviewer m s k = record {
    sound = record {
      started = λ p. ground (arith, k.started p);
      plan_keeps_none = ground arith;
      acceptance_keeps_none = ground arith;
      plan_writer_open = ground arith;
      plan_reviewer_open = ground arith;
    };
    rounds_grow = λ p. ground arith;
    final_grows = λ p. ground (arith);
    sendbacks_grow = λ p. ground arith;
  }

  Keeps-changes_requested :
      (stage : Stage) (m : Advance) (s : State)
      → IsSound s
      → Keeps s (changes_requested exists stage m s).1
  unfolding changes_requested
  Keeps-changes_requested plan_writer m s k = record {
    sound = record {
      started = λ p. ground (arith, k.started p);
      plan_keeps_none = ground arith;
      acceptance_keeps_none = ground arith;
      plan_writer_open = ground arith;
      plan_reviewer_open = ground arith;
    };
    rounds_grow = λ p. ground arith;
    final_grows = λ p. ground (arith);
    sendbacks_grow = λ p. ground arith;
  }
  Keeps-changes_requested plan_reviewer m s k = record {
    sound = record {
      started = λ p. ground (arith, k.started p);
      plan_keeps_none = ground arith;
      acceptance_keeps_none = ground arith;
      plan_writer_open = ground arith;
      plan_reviewer_open = ground arith;
    };
    rounds_grow = λ p. ground arith;
    final_grows = λ p. ground (arith);
    sendbacks_grow = λ p. ground arith;
  }
  Keeps-changes_requested test_writer m s k = record {
    sound = record {
      started = λ p. ground (arith, k.started p);
      plan_keeps_none = ground arith;
      acceptance_keeps_none = ground arith;
      plan_writer_open = ground arith;
      plan_reviewer_open = ground arith;
    };
    rounds_grow = λ p. ground arith;
    final_grows = λ p. ground (arith);
    sendbacks_grow = λ p. ground arith;
  }
  Keeps-changes_requested test_reviewer m s k = record {
    sound = record {
      started = λ p. ground (arith, k.started p);
      plan_keeps_none = ground arith;
      acceptance_keeps_none = ground arith;
      plan_writer_open = ground arith;
      plan_reviewer_open = ground arith;
    };
    rounds_grow = λ p. ground arith;
    final_grows = λ p. ground (arith);
    sendbacks_grow = λ p. ground arith;
  }
  Keeps-changes_requested code_writer m s k = record {
    sound = record {
      started = λ p. ground (arith, k.started p);
      plan_keeps_none = ground arith;
      acceptance_keeps_none = ground arith;
      plan_writer_open = ground arith;
      plan_reviewer_open = ground arith;
    };
    rounds_grow = λ p. ground arith;
    final_grows = λ p. ground (arith);
    sendbacks_grow = λ p. ground arith;
  }
  Keeps-changes_requested code_reviewer m s k = record {
    sound = record {
      started = λ p. ground (arith, k.started p);
      plan_keeps_none = ground arith;
      acceptance_keeps_none = ground arith;
      plan_writer_open = ground arith;
      plan_reviewer_open = ground arith;
    };
    rounds_grow = λ p. ground arith;
    final_grows = λ p. ground (arith);
    sendbacks_grow = λ p. ground arith;
  }
  Keeps-changes_requested acceptance_reviewer m s k = record {
    sound = record {
      started = λ p. ground (arith, k.started p);
      plan_keeps_none = ground arith;
      acceptance_keeps_none = ground arith;
      plan_writer_open = ground arith;
      plan_reviewer_open = ground arith;
    };
    rounds_grow = λ p. ground arith;
    final_grows = λ p. ground (arith);
    sendbacks_grow = λ p. ground arith;
  }

  Keeps-send_back :
      (stage : Stage) (m : Advance) (s : State)
      → IsSound s
      → Keeps s (send_back exists stage max m s).1
  unfolding send_back
  Keeps-send_back plan_writer m s k = record {
    sound = record {
      started = λ p. ground (arith, k.started p);
      plan_keeps_none = ground arith;
      acceptance_keeps_none = ground arith;
      plan_writer_open = ground arith;
      plan_reviewer_open = ground arith;
    };
    rounds_grow = λ p. ground arith;
    final_grows = λ p. ground (arith);
    sendbacks_grow = λ p. ground arith;
  }
  Keeps-send_back plan_reviewer m s k = record {
    sound = record {
      started = λ p. ground (arith, k.started p);
      plan_keeps_none = ground arith;
      acceptance_keeps_none = ground arith;
      plan_writer_open = ground arith;
      plan_reviewer_open = ground arith;
    };
    rounds_grow = λ p. ground arith;
    final_grows = λ p. ground (arith);
    sendbacks_grow = λ p. ground arith;
  }
  Keeps-send_back test_writer m s k = record {
    sound = record {
      started = λ p. ground (arith, k.started p);
      plan_keeps_none = ground arith;
      acceptance_keeps_none = ground arith;
      plan_writer_open = ground arith;
      plan_reviewer_open = ground arith;
    };
    rounds_grow = λ p. ground arith;
    final_grows = λ p. ground (
      arith,
      final-le-moved_out (s.final plan) (s.rounds plan + 1),
      final-le-moved_out (s.final test) (s.rounds test + 1),
    );
    sendbacks_grow = λ p. ground arith;
  }
  Keeps-send_back test_reviewer m s k = record {
    sound = record {
      started = λ p. ground (arith, k.started p);
      plan_keeps_none = ground arith;
      acceptance_keeps_none = ground arith;
      plan_writer_open = ground arith;
      plan_reviewer_open = ground arith;
    };
    rounds_grow = λ p. ground arith;
    final_grows = λ p. ground (
      arith,
      final-le-moved_out (s.final plan) (s.rounds plan + 1),
      final-le-moved_out (s.final test) (s.rounds test + 1),
    );
    sendbacks_grow = λ p. ground arith;
  }
  Keeps-send_back code_writer m s k = record {
    sound = record {
      started = λ p. ground (arith, k.started p);
      plan_keeps_none = ground arith;
      acceptance_keeps_none = ground arith;
      plan_writer_open = ground arith;
      plan_reviewer_open = ground arith;
    };
    rounds_grow = λ p. ground arith;
    final_grows = λ p. ground (
      arith,
      final-le-moved_out (s.final test) (s.rounds test + 1),
      final-le-moved_out (s.final code) (s.rounds code + 1),
    );
    sendbacks_grow = λ p. ground arith;
  }
  Keeps-send_back code_reviewer m s k = record {
    sound = record {
      started = λ p. ground (arith, k.started p);
      plan_keeps_none = ground arith;
      acceptance_keeps_none = ground arith;
      plan_writer_open = ground arith;
      plan_reviewer_open = ground arith;
    };
    rounds_grow = λ p. ground arith;
    final_grows = λ p. ground (
      arith,
      final-le-moved_out (s.final test) (s.rounds test + 1),
      final-le-moved_out (s.final code) (s.rounds code + 1),
    );
    sendbacks_grow = λ p. ground arith;
  }
  Keeps-send_back acceptance_reviewer m s k = record {
    sound = record {
      started = λ p. ground (arith, k.started p);
      plan_keeps_none = ground arith;
      acceptance_keeps_none = ground arith;
      plan_writer_open = ground arith;
      plan_reviewer_open = ground arith;
    };
    rounds_grow = λ p. ground arith;
    final_grows = λ p. ground (
      arith,
      final-le-moved_out (s.final code) (s.rounds code + 1),
      final-le-moved_out (s.final acceptance) (s.rounds acceptance + 1),
    );
    sendbacks_grow = λ p. ground arith;
  }

  Keeps-dispatch :
      (role : Role) (status : Status) (stage : Stage) (r : Outcome) (m : Advance) (s : State)
      → IsSound s
      → Keeps s (dispatch exists role status stage r rewritten max m s).1
  unfolding dispatch
  Keeps-dispatch writer Status.done stage r m s k = Keeps-writer_done stage m s k
  Keeps-dispatch reviewer Status.approved stage r m s k = Keeps-approved stage m s k
  Keeps-dispatch reviewer Status.changes_requested stage r m s k =
      Keeps-changes_requested stage m s k
  Keeps-dispatch role Status.send_back stage r m s k = Keeps-send_back stage m s k
  Keeps-dispatch role status stage r m s k = record {
    sound = k;
    rounds_grow = λ p. omega arith;
    final_grows = λ p. omega arith;
    sendbacks_grow = λ p. omega arith;
  }

-- In a sound state, whatever a stage answers, and also where it is refused, what is left is sound,
-- and no pair has gone back a round, lost a final round or forgotten a send-back.
pub Keeps-advance :
    (exists : File → Bool) (rewritten : Bool) (max : ℕ) (stage : Stage) (r : Outcome) (s : State)
    → IsSound s
    → Keeps s (advance exists s stage r rewritten max).1
unfolding advance
Keeps-advance exists rewritten max stage r s k =
    elim (Bool-cases (not (same_pair (pair_of stage) plan) && is_some (s.open_sendbacks stage))) [
      | inl own ↦
          let closed = record s { open_sendbacks = put_stage stage none s.open_sendbacks } in
          let kept =
            Keeps-dispatch exists rewritten max (role_of stage) r.status stage r
              (record still { cleared = true }) closed
              (record {
                started = k.started;
                plan_keeps_none = k.plan_keeps_none;
                acceptance_keeps_none = k.acceptance_keeps_none;
                plan_writer_open = ground arith;
                plan_reviewer_open = ground arith;
              }) in
          rw own (record {
            sound = kept.sound;
            rounds_grow = kept.rounds_grow;
            final_grows = kept.final_grows;
            sendbacks_grow = kept.sendbacks_grow;
          })
      | inr other ↦
          rw other (Keeps-dispatch exists rewritten max (role_of stage) r.status stage r still s k)
    ]
