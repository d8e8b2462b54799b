-- ===== src/Delivery/Invoke/Examples.antt =====
-- A pass that crashes, and then runs out of turns.
use claude_at_work_project.Prelude.{
  ◌+◌, ◌*◌, ◌≤◌, ◌≡◌, true, false, not, none, some, [], ◌∷◌, count,
}
use claude_at_work_project.Delivery.Invoke.{error_max_turns, ended, Runner, more_turns, run_agent}
use claude_at_work_project.Delivery.Invoke.Calls.{
  is_fresh, all_turns, has_result, run_agent-bounded,
}

abbrev troubled : Runner
troubled [] call = none
troubled (c ∷ []) call = some (record {
  subtype = some error_max_turns;
  is_error = some true;
  session_id = some 7;
  structured_output = none;
})
troubled (c ∷ (d ∷ cs)) call = some (record {
  subtype = some (ended 1);
  is_error = some false;
  session_id = some 7;
  structured_output = some (record { status = 2; summary = 3 });
})

run_agent-bounded_example :
    (count is_fresh (run_agent 80 troubled).1 ≤ 2)
    × (count (λ c. not (is_fresh c)) (run_agent 80 troubled).1 ≤ 1)
    × (all_turns (run_agent 80 troubled).1 ≤ 2 * 80 + more_turns 80)
    × (has_result (run_agent 80 troubled).0 ≡ true)
run_agent-bounded_example = run_agent-bounded 80 troubled
