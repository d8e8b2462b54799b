-- ===== src/Delivery/Invoke/Calls.antt =====
-- How often a pass is run, and for how many turns.
use claude_at_work_project.Prelude.{
  ℕ, ◌+◌, ◌*◌, ◌≤◌, ◌≡◌, refl, inl, inr, Bool, true, false, not, Option, none, some, List, [], ◌∷◌,
  arith, count, is_some, Bool-cases, Option-cases, Result, ok, err,
}
use claude_at_work_project.Delivery.Invoke.{
  Output, RunError, failed_twice, failed_when_resumed, Call, fresh, resumed, Runner, Ran,
  subtype_of, is_max_turns, session_of, crashed, more_turns, ran, resume, run_agent,
}

abbrev pub is_fresh : Call → Bool
is_fresh (fresh turns) = true
is_fresh (resumed session turns) = false

abbrev pub turns_of : Call → ℕ
turns_of (fresh turns) = turns
turns_of (resumed session turns) = turns

abbrev pub all_turns : List Call → ℕ
all_turns [] = 0
all_turns (c ∷ cs) = turns_of c + all_turns cs

abbrev pub has_result : Result RunError Ran → Bool
has_result (err e) = true
has_result (ok r) = is_some r.subtype

-- After the calls `before`: at most one more, that resumes the pass, and a result if no error.
record IsResumed (turns : ℕ) (before : List Call) (r : Result RunError Ran × List Call)
    : Type 0 where
  pub no_fresh : count is_fresh r.1 ≡ count is_fresh before
  pub one_resumed : count (λ c. not (is_fresh c)) r.1 ≤ count (λ c. not (is_fresh c)) before + 1
  pub bounded : all_turns r.1 ≤ all_turns before + more_turns turns
  pub result : has_result r.0 ≡ true

ran_result :
    (turns : ℕ) (e : RunError) (calls : List Call) (found : Option Output)
    → (has_result (ran turns e calls found).0 ≡ true) × ((ran turns e calls found).1 ≡ calls)
ran_result turns e calls none = (refl, refl)
ran_result turns e calls (some o) = elim (Bool-cases (is_some o.subtype)) [
  | inl there ↦ rw there (there, refl)
  | inr not_there ↦ rw not_there (refl, refl)
]

ran-IsResumed :
    (turns : ℕ) (e : RunError) (calls : List Call) (found : Option Output)
    → IsResumed turns calls (ran turns e calls found)
ran-IsResumed turns e calls found =
    let (result, same) = ran_result turns e calls found in
    record {
      no_fresh = rw same refl;
      one_resumed = rw same (omega arith);
      bounded = rw same (omega arith);
      result = result;
    }

resume-IsResumed :
    (turns : ℕ) (run : Runner) (e : RunError) (calls : List Call) (found : Option Output)
    → IsResumed turns calls (resume turns run e calls found)
unfolding resume
resume-IsResumed turns run e calls found = elim (Bool-cases (is_max_turns (subtype_of found))) [
  | inr other ↦ rw other (ran-IsResumed turns e calls found)
  | inl capped ↦ elim (Option-cases (session_of found)) [
    | inl no_session ↦ rw (capped, no_session) (ran-IsResumed turns e calls found)
    | inr (session, there) ↦
        let call = resumed session (more_turns turns) in
        let (result, same) = ran_result turns failed_when_resumed (call ∷ calls) (run calls call) in
        rw (capped, there)
          (record {
            no_fresh = rw same refl;
            one_resumed = rw same (omega arith);
            bounded = rw same (omega arith);
            result = result;
          })
  ]
]

-- A pass is run anew at most twice and resumed at most once, whatever the runner answers, for at most
-- twice its turns and the turns of the resumption in all; and where there is no error, the transcript
-- that comes back says how it ended.
pub run_agent-bounded :
    (turns : ℕ) (run : Runner)
    → (count is_fresh (run_agent turns run).1 ≤ 2)
      × (count (λ c. not (is_fresh c)) (run_agent turns run).1 ≤ 1)
      × (all_turns (run_agent turns run).1 ≤ 2 * turns + more_turns turns)
      × (has_result (run_agent turns run).0 ≡ true)
unfolding run_agent
run_agent-bounded turns run =
    let first = run [] (fresh turns) in
    let second = run (fresh turns ∷ []) (fresh turns) in
    elim (Bool-cases (crashed first)) [
      | inr fine ↦
          let r = resume-IsResumed turns run failed_twice (fresh turns ∷ []) first in
          rw fine (
            omega (arith, r.no_fresh),
            omega (arith, r.one_resumed),
            omega (arith, r.bounded),
            r.result,
          )
      | inl again ↦ elim (Bool-cases (is_some (subtype_of second))) [
        | inl ended ↦
            let r =
              resume-IsResumed turns run failed_twice (fresh turns ∷ (fresh turns ∷ [])) second in
            rw (again, ended)
              (
                omega (arith, r.no_fresh),
                omega (arith, r.one_resumed),
                omega (arith, r.bounded),
                r.result,
              )
        | inr failed ↦ rw (again, failed) (omega arith, omega arith, omega arith, refl)
      ]
    ]
