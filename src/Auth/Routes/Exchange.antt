-- ===== src/Auth/Routes/Exchange.antt =====
-- A refresh with a token that can be used: what it answers, and the two rows it writes.
use claude_at_work_project.Prelude.{
  ℕ, ◌+◌, ◌*◌, ◌<◌, ◌≡◌, ◌≢◌, refl, inl, inr, ◌∙◌, false, ◌||◌, none, some, ◌∷◌, arith, ◌==◌,
  ==_refl, any, any-find, find, find-holds, find-update_where, update_where, Option-cases, ok,
}
use claude_at_work_project.Auth.Rows.{Uuid, Time, User, RefreshToken, Db}
use claude_at_work_project.Auth.Identities.{Membership, find_user}
use claude_at_work_project.Auth.Sessions.{
  get, clash, new_row, retire, check_usable, find_token, spend, point_at, rotate,
}
use claude_at_work_project.Auth.Routes.{refresh, next_membership, rotate_into}
use claude_at_work_project.Auth.Routes.Spends.{found-new, rotate_free}

-- What a refresh that exchanges the token of row `r` leaves: the row of the new token, and the old row
-- retired in its favour.
pub record IsExchanged (hash : ℕ → ℕ) (r : RefreshToken) (days presented id token workspace : ℕ)
    (now : Time) (db db' : Db) : Type 0 where
  pub fresh : RefreshToken
  pub issued : find_token hash db' token ≡ some fresh
  pub new_id : fresh.id ≡ id
  pub for_user : fresh.user_id ≡ r.user_id
  pub in_workspace : fresh.workspace_id ≡ workspace
  pub lasts : fresh.expires_at ≡ now + days * 86400
  pub not_spent : fresh.rotated_to ≡ none
  pub not_revoked : fresh.revoked_at ≡ none
  pub old : RefreshToken
  pub held : find_token hash db' presented ≡ some old
  pub same_id : old.id ≡ r.id
  pub same_user : old.user_id ≡ r.user_id
  pub same_workspace : old.workspace_id ≡ r.workspace_id
  pub same_expiry : old.expires_at ≡ r.expires_at
  pub points_at_new : old.rotated_to ≡ some id
  pub revoked_now : old.revoked_at ≡ some now
  pub others :
      (other : Uuid) → other ≢ id → other ≢ r.id → get db'.tokens other ≡ get db.tokens other

module _ (hash : ℕ → ℕ) (days : ℕ) where
  spend_usable :
      (token now : ℕ) (db : Db) (r : RefreshToken)
      → find_token hash db token ≡ some r
      → r.rotated_to ≡ none
      → r.revoked_at ≡ none
      → now < r.expires_at
      → spend hash token now db ≡ (ok r, db)
  unfolding spend check_usable
  spend_usable token now db r found unspent live early = rw (found, spend) (ground arith)

  module _ (r : RefreshToken) (presented id token user workspace now : ℕ) (db : Db)
      (found : find_token hash db presented ≡ some r)
      (free : any (clash (new_row id user workspace (hash token) now days)) db.tokens ≡ false) where
    -- The rows after a rotation.
    abbrev pub exchanged : Db
    exchanged = record db {
      tokens =
          update_where (λ x. x.id == r.id) (retire id now)
            (new_row id user workspace (hash token) now days ∷ db.tokens);
    }

    rotate_exchanges : rotate hash r id token user workspace now days db ≡ (ok tt, exchanged)
    unfolding find_token point_at
    rotate_exchanges =
        rotate_free hash days r id token user workspace now db free
        ∙ rw (==_refl (hash token), point_at) refl

    new_found :
        find_token hash exchanged token ≡ some (new_row id user workspace (hash token) now days)
    unfolding find_token
    new_found =
        let row = new_row id user workspace (hash token) now days in
        let apart =
          any-find (clash row) (λ x. x.token_hash == hash presented) db.tokens r free found in
        let other : (id == r.id) ≡ false = ground arith in
        rw
          (
            find-update_where (λ x. x.token_hash == hash token) (λ x. x.id == r.id) (retire id now)
                (row ∷ db.tokens) (λ x. refl),
            ==_refl (hash token),
            other,
          )
          refl

    old_found : find_token hash exchanged presented ≡ some (retire id now r)
    unfolding find_token
    old_found =
        let row = new_row id user workspace (hash token) now days in
        rw
          (
            find-update_where (λ x. x.token_hash == hash presented) (λ x. x.id == r.id)
                (retire id now) (row ∷ db.tokens) (λ x. refl),
            found-new hash days (hash presented) row r db.tokens free found,
            ==_refl r.id,
          )
          refl

    others_kept :
        (other : Uuid)
        → other ≢ id
        → other ≢ r.id
        → get exchanged.tokens other ≡ get db.tokens other
    unfolding get
    others_kept other not_new not_old =
        let row = new_row id user workspace (hash token) now days in
        let new_apart : (id == other) ≡ false = ground arith in
        find-update_where (λ x. x.id == other) (λ x. x.id == r.id) (retire id now) (row ∷ db.tokens)
          (λ x. refl)
        ∙ rw new_apart (elim (Option-cases (find (λ x. x.id == other) db.tokens)) [
          | inl e ↦ rw e refl
          | inr (x, e) ↦
              let is_other = find-holds (λ x. x.id == other) db.tokens e in
              let old_apart : (x.id == r.id) ≡ false = ground arith in rw (e, old_apart) refl
        ])

-- A refresh with a token whose row is neither rotated nor revoked nor expired, of a user who is there
-- and in a workspace, with an id and a token that no row has yet, goes through. It leaves a row of the
-- new token, for that user and workspace, that is neither rotated nor revoked and expires `days` days
-- from now; the row of the token presented, revoked now and pointing at the new row, is otherwise what
-- it was; and what every other id finds is as it was.
pub refresh-exchanges :
    (hash : ℕ → ℕ) (days presented id token now : ℕ) (db : Db) (r : RefreshToken) (u : User)
    (m : Membership)
    → find_token hash db presented ≡ some r
    → r.rotated_to ≡ none
    → r.revoked_at ≡ none
    → now < r.expires_at
    → find_user db r.user_id ≡ some u
    → next_membership db r ≡ some m
    → any (λ x. id == x.id || hash token == x.token_hash) db.tokens ≡ false
    → ((refresh hash days presented id token now db).0 ≡ ok tt)
      × IsExchanged hash r days presented id token m.workspace.id now db
          (refresh hash days presented id token now db).1
unfolding refresh rotate_into
refresh-exchanges hash days presented id token now db r u m found unspent live early user there
      free =
    let spent = spend_usable hash days presented now db r found unspent live early in
    let done =
      rotate_exchanges hash days r presented id token r.user_id m.workspace.id now db found free in
    rw (spent, refresh)
      (rw (user, there, rotate_into)
        (rw done (
          refl,
          record {
            fresh = new_row id r.user_id m.workspace.id (hash token) now days;
            issued =
                new_found hash days r presented id token r.user_id m.workspace.id now db found free;
            new_id = refl;
            for_user = refl;
            in_workspace = refl;
            lasts = refl;
            not_spent = refl;
            not_revoked = refl;
            old = retire id now r;
            held =
                old_found hash days r presented id token r.user_id m.workspace.id now db found free;
            same_id = refl;
            same_user = refl;
            same_workspace = refl;
            same_expiry = refl;
            points_at_new = refl;
            revoked_now = refl;
            others =
                others_kept hash days r presented id token r.user_id m.workspace.id now db found
                  free;
          },
        )))
