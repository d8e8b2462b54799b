-- ===== src/Auth/Routes/Keeps.antt =====
-- What every kind of write keeps, every route keeps.
use claude_at_work_project.Prelude.{
  ℕ, refl, inl, inr, Option, none, some, List, arith, is_some, any, Result-cases, Option-cases,
  Bool-cases, Result, ok, err,
}
use claude_at_work_project.Auth.Rows.{Uuid, Time, RefreshToken, Db, Error}
use claude_at_work_project.Auth.Identities.{Membership, find_user, membership}
use claude_at_work_project.Auth.Sessions.{
  clash, new_row, is_live, is_live_in, revoke_descendants, replayed, check_usable,
  revoke_workspace_sessions, find_token, issue, spend, point_at, rotate, revoke_refresh_token,
}
use claude_at_work_project.Auth.Sessions.Sound.{IsKept, revoke_descendants-IsKept}
use claude_at_work_project.Auth.Routes.{
  committed, next_membership, rotate_into, refresh, switch_workspace, logout,
}

module _ (P : List RefreshToken → Type 0) (k : IsKept P) (hash : ℕ → ℕ) (days : ℕ) where
  check_usable-IsKept :
      (r : RefreshToken) (now : Time) (db : Db) → P db.tokens → P (check_usable r now db).1.tokens
  unfolding check_usable replayed
  check_usable-IsKept r now db h = elim (Bool-cases (is_some r.rotated_to)) [
    | inr fresh ↦ ground arith
    | inl spent ↦ elim (Option-cases (revoke_descendants now r db.tokens)) [
      | inl e ↦ rw (spent, check_usable) (rw (e, replayed) h)
      | inr (rows, e) ↦
          rw (spent, check_usable)
            (rw (e, replayed) (revoke_descendants-IsKept P k now r db.tokens rows h e))
    ]
  ]

  spend-IsKept :
      (token : ℕ) (now : Time) (db : Db) → P db.tokens → P (spend hash token now db).1.tokens
  unfolding spend
  spend-IsKept token now db h = elim (Option-cases (find_token hash db token)) [
    | inl e ↦ rw (e, spend) h
    | inr (r, e) ↦ rw (e, spend) (check_usable-IsKept r now db h)
  ]

  pub issue-IsKept :
      (id token user workspace now : ℕ) (db : Db)
      → P db.tokens
      → P (issue hash id token user workspace now days db).1.tokens
  unfolding issue
  issue-IsKept id token user workspace now db h =
      let row = new_row id user workspace (hash token) now days in
      elim (Bool-cases (any (clash row) db.tokens)) [
        | inl taken ↦ rw (taken, issue) h
        | inr free ↦ rw (free, issue) (k.inserting row db.tokens free refl h)
      ]

  point_at-IsKept :
      (s : Option RefreshToken) (presented : RefreshToken) (now : Time) (db : Db)
      → P db.tokens
      → P (point_at hash s presented now db).1.tokens
  unfolding point_at
  point_at-IsKept none presented now db h = h
  point_at-IsKept (some s) presented now db h = k.retiring presented.id s.id now db.tokens h

  rotate-IsKept :
      (presented : RefreshToken) (id token user workspace now : ℕ) (db : Db)
      → P db.tokens
      → P (rotate hash presented id token user workspace now days db).1.tokens
  unfolding rotate
  rotate-IsKept presented id token user workspace now db h =
      let issued = issue hash id token user workspace now days db in
      let kept = issue-IsKept id token user workspace now db h in
      elim (Result-cases issued.0) [
        | inl (e, failed) ↦ rw (failed, rotate) kept
        | inr (u, done) ↦
            rw (done, rotate)
              (point_at-IsKept (find_token hash issued.1 token) presented now issued.1 kept)
      ]

  committed-IsKept :
      (db : Db) (r : Result Error (Unit {0}) × Db)
      → P db.tokens
      → P r.1.tokens
      → P (committed db r).1.tokens
  committed-IsKept db (ok a, db') h h' = h'
  committed-IsKept db (err e, db') h h' = h

  rotate_into-IsKept :
      (m : Option Membership) (e : Error) (presented : RefreshToken) (id token now : ℕ) (db : Db)
      → P db.tokens
      → P (rotate_into hash days m e presented id token now db).1.tokens
  unfolding rotate_into
  rotate_into-IsKept none e presented id token now db h = h
  rotate_into-IsKept (some m) e presented id token now db h =
      committed-IsKept db
        (rotate hash presented id token presented.user_id m.workspace.id now days db) h
        (rotate-IsKept presented id token presented.user_id m.workspace.id now db h)

  pub refresh-IsKept :
      (presented id token now : ℕ) (db : Db)
      → P db.tokens
      → P (refresh hash days presented id token now db).1.tokens
  unfolding refresh
  refresh-IsKept presented id token now db h = elim (Result-cases (spend hash presented now db).0) [
    | inl (e, failed) ↦ rw (failed, refresh) (spend-IsKept presented now db h)
    | inr (row, done) ↦ elim (Option-cases (find_user db row.user_id)) [
      | inl e ↦ rw (done, e, refresh) h
      | inr (u, e) ↦
          rw (done, e, refresh)
            (rotate_into-IsKept (next_membership db row) _ row id token now db h)
    ]
  ]

  pub switch_workspace-IsKept :
      (presented workspace id token now : ℕ) (db : Db)
      → P db.tokens
      → P (switch_workspace hash days presented workspace id token now db).1.tokens
  unfolding switch_workspace
  switch_workspace-IsKept presented workspace id token now db h =
      elim (Result-cases (spend hash presented now db).0) [
        | inl (e, failed) ↦ rw (failed, switch_workspace) (spend-IsKept presented now db h)
        | inr (row, done) ↦ elim (Option-cases (find_user db row.user_id)) [
          | inl e ↦ rw (done, e, switch_workspace) h
          | inr (u, e) ↦
              rw (done, e, switch_workspace)
                (rotate_into-IsKept (membership db row.user_id workspace) _ row id token now db h)
        ]
      ]

  pub logout-IsKept :
      (presented : Option ℕ) (now : Time) (db : Db)
      → P db.tokens
      → P (logout hash days presented now db).tokens
  unfolding logout revoke_refresh_token
  logout-IsKept none now db h = h
  logout-IsKept (some presented) now db h = elim (Option-cases (find_token hash db presented)) [
    | inl e ↦ rw (e, revoke_refresh_token) h
    | inr (r, e) ↦ rw (e, revoke_refresh_token) (k.revoking (is_live r.id) now db.tokens h)
  ]

  pub revoke_workspace_sessions-IsKept :
      (user workspace : Uuid) (now : Time) (db : Db)
      → P db.tokens
      → P (revoke_workspace_sessions user workspace now db).1.tokens
  unfolding revoke_workspace_sessions
  revoke_workspace_sessions-IsKept user workspace now db h =
      k.revoking (is_live_in user workspace) now db.tokens h
