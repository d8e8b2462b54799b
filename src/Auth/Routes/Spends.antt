-- ===== src/Auth/Routes/Spends.antt =====
-- A refresh that goes through exchanges the token that was presented.
use claude_at_work_project.Prelude.{
  ℕ, ◌≡◌, refl, ap, subst, sym, ◌∙◌, inl, inr, true, false, Option, none, some, List, ◌∷◌, arith,
  ◌==◌, ==_refl, is_some, any, any-find, find, find-holds, find-update_where, update_where,
  Result-cases, Option-cases, Bool-cases, Result, ok, err,
}
use claude_at_work_project.Auth.Rows.{Time, RefreshToken, Db, Error, no_workspace, integrity_error}
use claude_at_work_project.Auth.Identities.{Membership, find_user}
use claude_at_work_project.Auth.Sessions.{
  clash, new_row, retire, revoke_descendants, replayed, check_usable, find_token, issue, spend,
  point_at, rotate,
}
use claude_at_work_project.Auth.Routes.{refresh, next_membership, rotate_into, committed}
use claude_at_work_project.Auth.Routes.Runs.{IsSpent}

committed-ok :
    (db : Db) (r : Result Error (Unit {0}) × Db)
    → (committed db r).0 ≡ ok tt
    → r ≡ (ok tt, (committed db r).1)
committed-ok db (ok tt, db') done = refl
committed-ok db (err e, db') done = absurd (cc)

module _ (hash : ℕ → ℕ) (days : ℕ) where
  -- A refresh that goes through exchanges the token that was presented.
  point_at-IsSpent :
      (h : ℕ) (successor r : RefreshToken) (now : Time) (rows : List RefreshToken)
      → find (λ x. x.token_hash == h) rows ≡ some r
      → IsSpent h (update_where (λ x. x.id == r.id) (retire successor.id now) rows)
  point_at-IsSpent h successor r now rows found = record {
    row = retire successor.id now r;
    found =
        rw
          (
            find-update_where (λ x. x.token_hash == h) (λ x. x.id == r.id) (retire successor.id now)
                rows (λ x. refl),
            found,
          )
          (rw (==_refl r.id));
    spent = refl;
  }

  -- The row of a hash is found behind a new row with another hash.
  pub found-new :
      (h : ℕ) (row r : RefreshToken) (rows : List RefreshToken)
      → any (clash row) rows ≡ false
      → find (λ x. x.token_hash == h) rows ≡ some r
      → find (λ x. x.token_hash == h) (row ∷ rows) ≡ some r
  found-new h row r rows new found =
      let apart = any-find (clash row) (λ x. x.token_hash == h) rows r new found in
      let held = find-holds (λ x. x.token_hash == h) rows found in
      let other : (row.token_hash == h) ≡ false = ground arith in rw other found

  point_at_spends :
      (successor : Option RefreshToken) (r : RefreshToken) (h now : ℕ) (db db' : Db)
      → find (λ x. x.token_hash == h) db.tokens ≡ some r
      → point_at hash successor r now db ≡ (ok tt, db')
      → IsSpent h db'.tokens
  unfolding point_at
  point_at_spends none r h now db db' found done = absurd (ground arith)
  point_at_spends (some successor) r h now db db' found done =
      subst (λ (d : Db). IsSpent h d.tokens) (ap (λ p. p.1) done)
        (point_at-IsSpent h successor r now db.tokens found)

  pub rotate_free :
      (r : RefreshToken) (id token user workspace now : ℕ) (db : Db)
      → any (clash (new_row id user workspace (hash token) now days)) db.tokens ≡ false
      → let db1 : Db = record db {
        tokens = new_row id user workspace (hash token) now days ∷ db.tokens;
      } in
        rotate hash r id token user workspace now days db
        ≡ point_at hash (find_token hash db1 token) r now db1
  unfolding rotate issue
  rotate_free r id token user workspace now db free =
      rw (free, issue, rotate) (rw (free, issue) refl)

  rotate_taken :
      (r : RefreshToken) (id token user workspace now : ℕ) (db : Db)
      → any (clash (new_row id user workspace (hash token) now days)) db.tokens ≡ true
      → rotate hash r id token user workspace now days db ≡ (err integrity_error, db)
  unfolding rotate issue
  rotate_taken r id token user workspace now db taken =
      rw (taken, issue, rotate) (rw (taken, issue) refl)

  rotate_spends :
      (r : RefreshToken) (h id token user workspace now : ℕ) (db db' : Db)
      → find (λ x. x.token_hash == h) db.tokens ≡ some r
      → rotate hash r id token user workspace now days db ≡ (ok tt, db')
      → IsSpent h db'.tokens
  rotate_spends r h id token user workspace now db db' found done =
      let row = new_row id user workspace (hash token) now days in
      elim (Bool-cases (any (clash row) db.tokens)) [
        | inl taken ↦ absurd (cc (sym (rotate_taken r id token user workspace now db taken) ∙ done))
        | inr free ↦
            let db1 = record db { tokens = row ∷ db.tokens } in
            point_at_spends (find_token hash db1 token) r h now db1 db'
              (found-new h row r db.tokens free found)
              (sym (rotate_free r id token user workspace now db free) ∙ done)
      ]

  check_usable_ok :
      (r row : RefreshToken) (now : Time) (db : Db) → (check_usable r now db).0 ≡ ok row → r ≡ row
  unfolding check_usable
  check_usable_ok r row now db done = elim (Bool-cases (is_some r.rotated_to)) [
    | inl spent ↦ elim (Option-cases (revoke_descendants now r db.tokens)) [
      | inl e ↦ absurd (cc (rw (spent, e, replayed) at done))
      | inr (rows, e) ↦ absurd (cc (rw (spent, e, replayed) at done))
    ]
    | inr fresh ↦ ground arith
  ]

  -- A token that can be spent is the row of its hash.
  spend_ok :
      (token now : ℕ) (db : Db) (row : RefreshToken)
      → (spend hash token now db).0 ≡ ok row
      → find (λ r. r.token_hash == hash token) db.tokens ≡ some row
  unfolding spend find_token
  spend_ok token now db row done = elim (Option-cases (find_token hash db token)) [
    | inl e ↦ absurd (cc (rw (e, spend) at done))
    | inr (r, e) ↦ e ∙ ap some (check_usable_ok r row now db (rw (e, spend) at done))
  ]

  rotate_into_spends :
      (m : Option Membership) (e : Error) (r : RefreshToken) (h id token now : ℕ) (db : Db)
      → find (λ x. x.token_hash == h) db.tokens ≡ some r
      → (rotate_into hash days m e r id token now db).0 ≡ ok tt
      → IsSpent h (rotate_into hash days m e r id token now db).1.tokens
  unfolding rotate_into
  rotate_into_spends none e r h id token now db found done = absurd (cc)
  rotate_into_spends (some m) e r h id token now db found done =
      rotate_spends r h id token r.user_id m.workspace.id now db
        (committed db (rotate hash r id token r.user_id m.workspace.id now days db)).1 found
        (committed-ok db (rotate hash r id token r.user_id m.workspace.id now days db) done)

  -- After a refresh that went through, the token it was given is exchanged.
  pub refresh_spends :
      (token id new now : ℕ) (db : Db)
      → (refresh hash days token id new now db).0 ≡ ok tt
      → IsSpent (hash token) (refresh hash days token id new now db).1.tokens
  unfolding refresh
  refresh_spends token id new now db done = elim (Result-cases (spend hash token now db).0) [
    | inl (e, failed) ↦ absurd (cc (rw (failed, refresh) at done))
    | inr (row, usable) ↦ elim (Option-cases (find_user db row.user_id)) [
      | inl e ↦ absurd (cc (rw (usable, e, refresh) at done))
      | inr (u, e) ↦
          rw (usable, e, refresh)
            (rotate_into_spends (next_membership db row) no_workspace row (hash token) id new now db
              (spend_ok token now db row usable) (rw (usable, e, refresh) at done))
    ]
  ]
