-- ===== src/Auth/Sessions/Workspaces.antt =====
-- The sessions of someone who is removed from a workspace.
use claude_at_work_project.Prelude.{
  ◌≡◌, refl, false, ◌&&◌, List, [], ◌∷◌, arith, ◌==◌, count, update_where,
}
use claude_at_work_project.Auth.Rows.{Uuid, Time, RefreshToken, Db}
use claude_at_work_project.Auth.Sessions.{is_live_in, revoke, revoke_workspace_sessions}

module _ (user workspace : Uuid) (now : Time) where
  count_live-revoke :
      (rows : List RefreshToken)
      → count
          (is_live_in user workspace)
          (update_where (is_live_in user workspace) (revoke now) rows)
        ≡ 0
  count_live-revoke [] = refl
  count_live-revoke (r ∷ rows) = ground (arith, count_live-revoke rows)

  count_live-elsewhere :
      (user' workspace' : Uuid) (rows : List RefreshToken)
      → user' == user && workspace' == workspace ≡ false
      → count
          (is_live_in user' workspace')
          (update_where (is_live_in user workspace) (revoke now) rows)
        ≡ count (is_live_in user' workspace') rows
  count_live-elsewhere user' workspace' [] other = refl
  count_live-elsewhere user' workspace' (r ∷ rows) other =
      ground (arith, count_live-elsewhere user' workspace' rows other)

-- Revoking someone's sessions in a workspace answers how many rows of theirs there were not yet
-- revoked. Then there is none, and of anyone else, or in any other workspace, as many as before.
pub revoke_workspace_sessions_lem :
    (user workspace user' workspace' : Uuid) (now : Time) (db : Db)
    → user' == user && workspace' == workspace ≡ false
    → ((revoke_workspace_sessions user workspace now db).0
        ≡ count (is_live_in user workspace) db.tokens)
      × (count
            (is_live_in user workspace)
            (revoke_workspace_sessions user workspace now db).1.tokens
          ≡ 0)
      × (count
            (is_live_in user' workspace')
            (revoke_workspace_sessions user workspace now db).1.tokens
          ≡ count (is_live_in user' workspace') db.tokens)
unfolding revoke_workspace_sessions
revoke_workspace_sessions_lem user workspace user' workspace' now db other = (
  refl,
  count_live-revoke user workspace now db.tokens,
  count_live-elsewhere user workspace now user' workspace' db.tokens other,
)
