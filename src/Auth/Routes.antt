-- ===== src/Auth/Routes.antt =====
-- src/services/auth/auth/routers/auth.py: the routes that spend, replace and revoke a refresh
-- token, on the rows as committed. A route that raises before it commits leaves them as they were.
-- The cookie, the access token and the denylist of access tokens are not modelled.
pub mod Keeps
pub mod Runs
pub mod Spends
pub mod Replay
pub mod Exchange
use claude_at_work_project.Prelude.{ℕ, Option, none, some, List, Result, ok, err, if◌then◌else◌}
use claude_at_work_project.Auth.Rows.{
  Uuid, Time, RefreshToken, Db, Error, invalid_grant, no_workspace, not_a_member, Action,
}
use claude_at_work_project.Auth.Identities.{
  Membership, find_user, membership, memberships, default_membership, or_else,
}
use claude_at_work_project.Auth.Sessions.{spend, rotate, revoke_refresh_token}

-- A raise of `rotate` comes before the commit.
abbrev pub committed : Db → Result Error (Unit {0}) × Db → Result Error (Unit {0}) × Db
committed db (ok a, db') = (ok a, db')
committed db (err e, db') = (err e, db)

-- The workspace of the new session: the row's, if its user is still in it, else the default.
unfoldable pub next_membership : Db → RefreshToken → Option Membership
next_membership db presented =
    or_else (membership db presented.user_id presented.workspace_id)
      (default_membership (memberships db presented.user_id))

module _ (hash : ℕ → ℕ) (days : ℕ) where
  unfoldable pub rotate_into :
      Option Membership → Error → RefreshToken → (id token now : ℕ) → Action (Unit {0})
  rotate_into none e presented id token now db = (err e, db)
  rotate_into (some m) e presented id token now db =
      committed db (rotate hash presented id token presented.user_id m.workspace.id now days db)

  -- A token that cannot be spent is the one answer, and what `spend` wrote is committed.
  unfoldable pub refresh : (presented id token now : ℕ) → Action (Unit {0})
  unfolding rotate_into next_membership
  refresh presented id token now db = elim (spend hash presented now db).0 [
    | err e ↦ (err invalid_grant, (spend hash presented now db).1)
    | ok row ↦ elim (find_user db row.user_id) [
      | none ↦ (err invalid_grant, db)
      | some u ↦ rotate_into (next_membership db row) no_workspace row id token now db
    ]
  ]

  unfoldable pub switch_workspace : (presented workspace id token now : ℕ) → Action (Unit {0})
  unfolding rotate_into
  switch_workspace presented workspace id token now db = elim (spend hash presented now db).0 [
    | err e ↦ (err invalid_grant, (spend hash presented now db).1)
    | ok row ↦ elim (find_user db row.user_id) [
      | none ↦ (err invalid_grant, db)
      | some u ↦ rotate_into (membership db row.user_id workspace) not_a_member row id token now db
    ]
  ]

  -- `none` is a request with no cookie.
  unfoldable pub logout : Option ℕ → Time → Db → Db
  logout none now db = db
  logout (some presented) now db = revoke_refresh_token hash presented now db
