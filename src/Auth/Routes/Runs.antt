-- ===== src/Auth/Routes/Runs.antt =====
-- Whatever is asked of the routes: one live token in a rotation chain, and an exchanged token is
-- refused for good.
use claude_at_work_project.Prelude.{
  ℕ, ◌≡◌, refl, subst, sym, Bool, true, false, Option, some, List, [], arith, ◌==◌, is_some,
  any-find, find, find-holds, find-update_where, update_where, if◌then◌else◌,
}
use claude_at_work_project.Auth.Rows.{Uuid, Time, RefreshToken, Db}
use claude_at_work_project.Auth.Sessions.{clash, revoke, retire, revoke_workspace_sessions, issue}
use claude_at_work_project.Auth.Sessions.Walk.{dead, Chain}
use claude_at_work_project.Auth.Sessions.Sound.{IsKept, IsSound, IsSound-IsKept, Chain-live}
use claude_at_work_project.Auth.Routes.{refresh, switch_workspace, logout}
use claude_at_work_project.Auth.Routes.Keeps.{
  issue-IsKept, refresh-IsKept, switch_workspace-IsKept, logout-IsKept,
  revoke_workspace_sessions-IsKept,
}

-- What changes the tokens: a sign-in, the routes, and the removal of someone from a workspace.
-- `directory` is any other request: it leaves the tokens alone.
pub data Step (hash : ℕ → ℕ) (days : ℕ) (db : Db) : Db → Type 0 where
  sign_in :
      (id token user workspace now : ℕ)
      → Step hash days db (issue hash id token user workspace now days db).1
  refreshes :
      (presented id token now : ℕ)
      → Step hash days db (refresh hash days presented id token now db).1
  switches :
      (presented workspace id token now : ℕ)
      → Step hash days db (switch_workspace hash days presented workspace id token now db).1
  logs_out :
      (presented : Option ℕ) (now : Time) → Step hash days db (logout hash days presented now db)
  removed :
      (user workspace now : ℕ)
      → Step hash days db (revoke_workspace_sessions user workspace now db).1
  directory : (db' : Db) → db.tokens ≡ db'.tokens → Step hash days db db'

pub data Run (hash : ℕ → ℕ) (days : ℕ) (s : Db) : Db → Type 0 where
  here : Run hash days s s
  next : {t u : Db} → Run hash days s t → Step hash days t u → Run hash days s u

Step-IsKept :
    (P : List RefreshToken → Type 0) (k : IsKept P) (hash : ℕ → ℕ) (days : ℕ) {s t : Db}
    → Step hash days s t
    → P s.tokens
    → P t.tokens
Step-IsKept P k hash days {s} (sign_in id token user workspace now) h =
    issue-IsKept P k hash days id token user workspace now s h
Step-IsKept P k hash days {s} (refreshes presented id token now) h =
    refresh-IsKept P k hash days presented id token now s h
Step-IsKept P k hash days {s} (switches presented workspace id token now) h =
    switch_workspace-IsKept P k hash days presented workspace id token now s h
Step-IsKept P k hash days {s} (logs_out presented now) h =
    logout-IsKept P k hash days presented now s h
Step-IsKept P k hash days {s} (removed user workspace now) h =
    revoke_workspace_sessions-IsKept P k hash days user workspace now s h
Step-IsKept P k hash days (directory t same) h = subst P same h

pub Run-IsKept :
    (P : List RefreshToken → Type 0) (k : IsKept P) (hash : ℕ → ℕ) (days : ℕ) {s t : Db}
    → Run hash days s t
    → P s.tokens
    → P t.tokens
Run-IsKept P k hash days here h = h
Run-IsKept P k hash days (next before step) h =
    Step-IsKept P k hash days step (Run-IsKept P k hash days before h)

-- However people sign in, refresh, switch workspace, log out and are removed from workspaces, from
-- no tokens on, and whatever they present: of the rows of one rotation chain at most one can still
-- be used.
pub Run-live :
    (hash : ℕ → ℕ) (days : ℕ) (s t : Db) (a x y : Uuid)
    → s.tokens ≡ []
    → Run hash days s t
    → Chain t.tokens a x
    → Chain t.tokens a y
    → dead t.tokens x ≡ false
    → dead t.tokens y ≡ false
    → x ≡ y
Run-live hash days s t a x y none_yet run = Chain-live t.tokens a x y (
    Run-IsKept IsSound IsSound-IsKept hash days run
      (subst IsSound (sym none_yet) (record { one_row = tt; spent_revoked = tt })))

-- The token of this hash was exchanged for another.
pub record IsSpent (token_hash : ℕ) (rows : List RefreshToken) : Type 0 where
  pub row : RefreshToken
  pub found : find (λ r. r.token_hash == token_hash) rows ≡ some row
  pub spent : is_some row.rotated_to ≡ true

-- Any write that leaves hashes alone, and takes no successor away, leaves it exchanged.
IsSpent-update :
    (h : ℕ) (q : RefreshToken → Bool) (f : RefreshToken → RefreshToken) (rows : List RefreshToken)
    → ((r : RefreshToken) → (f r).token_hash ≡ r.token_hash)
    → ((r : RefreshToken) → is_some r.rotated_to ≡ true → is_some (f r).rotated_to ≡ true)
    → IsSpent h rows
    → IsSpent h (update_where q f rows)
IsSpent-update h q f rows same_hash keeps s = record {
  row = if q s.row then f s.row else s.row;
  found = rw (find-update_where (λ r. r.token_hash == h) q f rows (λ r. rw (same_hash r)), s.found);
  spent = ground (arith, keeps s.row, s.spent);
}

pub IsSpent-IsKept : (h : ℕ) → IsKept (IsSpent h)
IsSpent-IsKept h = record {
  revoking = λ q now rows s. IsSpent-update h q (revoke now) rows (λ r. refl) (λ r e. e) s;
  retiring = λ id next now rows s.
      IsSpent-update h (λ r. r.id == id) (retire next now) rows (λ r. refl) (λ r e. refl) s;
  inserting = λ r rows new free s. record {
    row = s.row;
    found =
        let apart = any-find (clash r) (λ x. x.token_hash == h) rows s.row new s.found in
        let held = find-holds (λ x. x.token_hash == h) rows s.found in
        let other : (r.token_hash == h) ≡ false = ground arith in rw other s.found;
    spent = s.spent;
  };
}
