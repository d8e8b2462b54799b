-- ===== src/Auth/Sessions.antt =====
-- src/services/auth/auth/sessions.py: refresh tokens, each row linked to the one that replaced it.
-- A token is a number, and its SHA-256 the parameter `hash`; an access token is not stored, and not
-- modelled.
pub mod Walk
pub mod Steps
pub mod Swept
pub mod Sound
pub mod Workspaces
use claude_at_work_project.Prelude.{
  ℕ, zero, suc, ◌+◌, ◌*◌, Bool, true, false, not, ◌&&◌, ◌||◌, Option, none, some, List, [], ◌∷◌,
  leb, ◌==◌, is_some, find, any, length, count, map_option, update_where, if◌then◌else◌, Result, ok,
  err,
}
use claude_at_work_project.Auth.Rows.{
  Uuid, Time, RefreshToken, Db, Error, unknown_token, reuse_detected, revoked, expired,
  out_of_rounds, integrity_error, not_read_back, Action,
}

-- `session.get(RefreshToken, id)`
unfoldable pub get : List RefreshToken → Uuid → Option RefreshToken
get rows id = find (λ r. r.id == id) rows

abbrev pub revoke : Time → RefreshToken → RefreshToken
revoke now r = record r { revoked_at = some now }

-- `if current.revoked_at is None: current.revoked_at = now`
abbrev pub is_live : Uuid → RefreshToken → Bool
is_live id r = r.id == id && not (is_some r.revoked_at)

abbrev pub revoke_row : Time → Uuid → List RefreshToken → List RefreshToken
revoke_row now id rows = update_where (is_live id) (revoke now) rows

-- `id in seen`
abbrev pub is_seen : Uuid → List Uuid → Bool
is_seen id seen = any (λ x. x == id) seen

-- The row that the walk goes to next, if `rotated_to` is set.
abbrev pub successor : List RefreshToken → RefreshToken → Option RefreshToken
successor rows r = elim r.rotated_to [ none ↦ none | some next ↦ get rows next ]

-- The loop of `_revoke_descendants`; `none` means that the fuel ran out.
unfoldable pub walk :
    ℕ → Time → List Uuid → Option RefreshToken → List RefreshToken → Option (List RefreshToken)
walk fuel now seen none rows = some rows
walk zero now seen (some r) rows = none
walk (suc fuel) now seen (some r) rows =
    let rows' = revoke_row now r.id rows in
    let rest = walk fuel now (r.id ∷ seen) (successor rows' r) rows' in
    if is_seen r.id seen then some rows else rest

-- A round for each row, and one to see the end.
unfoldable pub revoke_descendants :
    Time → RefreshToken → List RefreshToken → Option (List RefreshToken)
revoke_descendants now r rows = walk (length rows + 1) now [] (some r) rows

-- What an insert of a row is refused for: the primary key, and `ix_refresh_token_hash`.
abbrev pub clash : RefreshToken → RefreshToken → Bool
clash a b = a.id == b.id || a.token_hash == b.token_hash

-- The row that `issue` writes. `id` is `uuid7()`.
abbrev pub new_row : (id user workspace token_hash : ℕ) → (now days : ℕ) → RefreshToken
new_row id user workspace token_hash now days = record {
  id = id;
  user_id = user;
  workspace_id = workspace;
  token_hash = token_hash;
  expires_at = now + days * 86400;
  rotated_to = none;
  revoked_at = none;
}

-- `presented.rotated_to = successor.id`, `presented.revoked_at = now`
abbrev pub retire : Uuid → Time → RefreshToken → RefreshToken
retire successor now r = record r { rotated_to = some successor; revoked_at = some now }

-- The rows that `revoke_workspace_sessions` selects.
abbrev pub is_live_in : (user workspace : Uuid) → RefreshToken → Bool
is_live_in user workspace r =
    (r.user_id == user && r.workspace_id == workspace) && not (is_some r.revoked_at)

-- How many rows, beside the rows.
unfoldable pub revoke_workspace_sessions : (user workspace : Uuid) → Time → Db → ℕ × Db
revoke_workspace_sessions user workspace now db = (
  count (is_live_in user workspace) db.tokens,
  record db { tokens = update_where (is_live_in user workspace) (revoke now) db.tokens },
)

-- The end of a replay: the rows are revoked and the error raised.
unfoldable pub replayed : Option (List RefreshToken) → Action RefreshToken
replayed none db = (err out_of_rounds, db)
replayed (some rows) db = (err reuse_detected, record db { tokens = rows })

unfoldable pub check_usable : RefreshToken → Time → Action RefreshToken
unfolding replayed
check_usable r now db =
    if is_some r.rotated_to
    then replayed (revoke_descendants now r db.tokens) db
    else if is_some r.revoked_at
    then (err revoked, db)
    else if leb r.expires_at now
    then (err expired, db)
    else (ok r, db)

module _ (hash : ℕ → ℕ) where
  -- `_find(session, token)`
  unfoldable pub find_token : Db → ℕ → Option RefreshToken
  find_token db token = find (λ r. r.token_hash == hash token) db.tokens

  unfoldable pub issue : (id token user workspace : ℕ) → (now days : ℕ) → Action (Unit {0})
  issue id token user workspace now days db =
      let row = new_row id user workspace (hash token) now days in
      if any (clash row) db.tokens
      then (err integrity_error, db)
      else (ok tt, record db { tokens = row ∷ db.tokens })

  unfoldable pub spend : (token : ℕ) → Time → Action RefreshToken
  unfolding check_usable
  spend token now db = elim (find_token db token) [
    | none ↦ (err unknown_token, db)
    | some r ↦ check_usable r now db
  ]

  -- The rest of `rotate`, once the new row is written: it is read back by its token, and the row
  -- that was presented points at it.
  unfoldable pub point_at : Option RefreshToken → RefreshToken → Time → Action (Unit {0})
  point_at none presented now db = (err not_read_back, db)
  point_at (some successor) presented now db = (
    ok tt,
    record db {
      tokens = update_where (λ r. r.id == presented.id) (retire successor.id now) db.tokens;
    },
  )

  unfoldable pub rotate :
      RefreshToken → (id token user workspace : ℕ) → (now days : ℕ) → Action (Unit {0})
  unfolding issue point_at
  rotate presented id token user workspace now days db =
      let issued = issue id token user workspace now days db in
      elim issued.0 [
        | err e ↦ (err e, issued.1)
        | ok _ ↦ point_at (find_token issued.1 token) presented now issued.1
      ]

  -- `if row is not None and row.revoked_at is None: row.revoked_at = now`
  unfoldable pub revoke_refresh_token : (token : ℕ) → Time → Db → Db
  revoke_refresh_token token now db = elim (find_token db token) [
    | none ↦ db
    | some r ↦ record db { tokens = revoke_row now r.id db.tokens }
  ]
