-- ===== src/Delivery/Rules/Tools.antt =====
-- tools/delivery/delivery/run/rules.py: `TOOLS`, the whole reach of each stage.
use text.Mathlib.Text.{starts_with}
use claude_at_work_project.Prelude.{
  ◌≡◌, refl, Bool, true, false, not, ◌||◌, String, List, [], ◌∷◌, ◌++◌, any,
}
use claude_at_work_project.Delivery.Stage.{
  Stage, plan_writer, plan_reviewer, test_writer, test_reviewer, code_writer, code_reviewer,
  acceptance_reviewer, role_of, is_writer, same_stage,
}

abbrev pub base : List String
base = "Read" ∷ "Grep" ∷ "Glob" ∷ "Write" ∷ "Edit" ∷ "Skill" ∷ []

abbrev pub read_only_bash : List String
read_only_bash =
    "Bash(git log *)" ∷ "Bash(git show *)" ∷ "Bash(git diff *)" ∷ "Bash(git status *)"
    ∷ "Bash(git worktree list*)" ∷ "Bash(git branch *)" ∷ "Bash(git merge-base *)" ∷ "Bash(ls *)"
    ∷ "Bash(wc *)" ∷ []

abbrev pub test_bash : List String
test_bash =
    "Bash(npm --prefix src/frontend test*)" ∷ "Bash(npm --prefix src/frontend run typecheck*)"
    ∷ "Bash(npm --prefix src/frontend run lint*)" ∷ "Bash(uv run pytest *)" ∷ "Bash(uv sync*)" ∷ []

abbrev pub check_bash : List String
check_bash =
    "Bash(uv run ruff check *)" ∷ "Bash(uv run ruff format --check *)" ∷ "Bash(helm lint *)"
    ∷ "Bash(helm template *)" ∷ "Bash(bash -n *)"
    ∷ "Bash(python3 .claude/hooks/checks/conventions.py*)" ∷ []

abbrev pub remove_bash : List String
remove_bash =
    "Bash(rm src/*)" ∷ "Bash(rm tests/*)" ∷ "Bash(rm docs/*)" ∷ "Bash(rm charts/*)"
    ∷ "Bash(rm docker/*)" ∷ "Bash(rm scripts/*)" ∷ []

-- The entry of `TOOLS`, and so `list(TOOLS[stage])`: every stage has one.
unfoldable pub allowed_tools : Stage → List String
allowed_tools plan_writer = base ++ read_only_bash
allowed_tools plan_reviewer = base ++ read_only_bash
allowed_tools test_writer =
    base
    ++ (("Bash(npm --prefix src/frontend ci*)" ∷ "Bash(uv run ruff *)" ∷ [])
        ++ (read_only_bash ++ (test_bash ++ remove_bash)))
allowed_tools test_reviewer =
    base ++ (("Bash(.claude/delivery/sketch.sh *)" ∷ []) ++ (read_only_bash ++ test_bash))
allowed_tools code_writer =
    base
    ++ (("Bash(npm --prefix src/frontend ci*)" ∷ "Bash(npm --prefix src/frontend install *)"
          ∷ "Bash(npm --prefix src/frontend run build*)"
          ∷ "Bash(npm --prefix src/frontend run generate:api*)" ∷ "Bash(uv run ruff *)"
          ∷ "Bash(uv run alembic *)" ∷ "Bash(uv run python -m *)" ∷ "Bash(uv add *)"
          ∷ "Bash(uv lock*)" ∷ "Bash(scripts/test.sh *)" ∷ "Bash(.claude/hooks/security.sh*)" ∷ [])
        ++ (read_only_bash ++ (test_bash ++ (check_bash ++ remove_bash))))
allowed_tools code_reviewer =
    base
    ++ (("Bash(.claude/delivery/sketch.sh *)" ∷ "Bash(npm --prefix src/frontend run build*)" ∷ [])
        ++ (read_only_bash ++ (test_bash ++ check_bash)))
allowed_tools acceptance_reviewer =
    base
    ++ (("Bash(scripts/deploy.sh preview url)" ∷ "Bash(scripts/smoke.sh *)" ∷ []) ++ read_only_bash)

-- Some tool that the stage may call begins with the text.
abbrev pub may_call : Stage → String → Bool
may_call stage text = any (λ tool. starts_with tool text) (allowed_tools stage)

-- A command that changes the history or a branch, or leaves the machine.
abbrev pub publishing : List String
publishing =
    "Bash(git commit" ∷ "Bash(git push" ∷ "Bash(git merge " ∷ "Bash(git checkout" ∷ "Bash(git reset"
    ∷ "Bash(git rebase" ∷ "Bash(gh " ∷ "Bash(scripts/deploy.sh preview up"
    ∷ "Bash(scripts/deploy.sh preview down" ∷ []

-- Whichever the stage: its tools publish nothing and move no branch; a reviewer has no tool that
-- removes a file, adds a dependency or formats files in place; and scripts/test.sh, which rewrites
-- the committed report, is the code-writer's alone.
pub tools_safe :
    (stage : Stage)
    → (any (may_call stage) publishing ≡ false)
      × ((is_writer (role_of stage)
            || not (
                may_call stage "Bash(rm "
                || may_call stage "Bash(uv add"
                || may_call stage "Bash(uv run ruff *"))
          ≡ true)
      × (may_call stage "Bash(scripts/test.sh" ≡ same_stage stage code_writer)
unfolding allowed_tools
tools_safe plan_writer = (refl, refl, refl)
tools_safe plan_reviewer = (refl, refl, refl)
tools_safe test_writer = (refl, refl, refl)
tools_safe test_reviewer = (refl, refl, refl)
tools_safe code_writer = (refl, refl, refl)
tools_safe code_reviewer = (refl, refl, refl)
tools_safe acceptance_reviewer = (refl, refl, refl)
