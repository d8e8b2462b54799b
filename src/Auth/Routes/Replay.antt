-- ===== src/Auth/Routes/Replay.antt =====
-- A token that was exchanged is refused for good, and presenting it ends the session.
use claude_at_work_project.Prelude.{
  ℕ, ◌⊎◌, ◌≡◌, refl, subst, sym, inl, true, some, List, [], arith, ◌==◌, ==_refl, is_some, find,
  find-key, Unique, Result, ok, err,
}
use claude_at_work_project.Auth.Rows.{
  Uuid, Time, RefreshToken, Db, Error, invalid_grant, reuse_detected,
}
use claude_at_work_project.Auth.Sessions.{
  clash, get, revoke_descendants, replayed, check_usable, find_token, spend,
}
use claude_at_work_project.Auth.Sessions.Walk.{has, dead, Chain}
use claude_at_work_project.Auth.Sessions.Swept.{IsRevoked, revoke_descendants-IsRevoked}
use claude_at_work_project.Auth.Sessions.Sound.{IsSound, IsSound-IsKept}
use claude_at_work_project.Auth.Routes.{refresh}
use claude_at_work_project.Auth.Routes.Runs.{Run, Step, Run-IsKept, IsSpent, IsSpent-IsKept}
use claude_at_work_project.Auth.Routes.Spends.{refresh_spends}

-- A row is the one that its id finds.
get-found :
    (h : ℕ) (rows : List RefreshToken) (r : RefreshToken)
    → Unique clash rows
    → find (λ x. x.token_hash == h) rows ≡ some r
    → get rows r.id ≡ some r
unfolding get
get-found h rows r one found =
    find-key clash (λ x. x.token_hash == h) (λ x. x.id == r.id) rows r (λ y e. ground arith)
      (==_refl r.id) one found

-- What presenting an exchanged token comes to: the one answer, and a chain that is dead.
pub record IsCut (presented : RefreshToken) (before : Db) (answer : Result Error (Unit {0}))
    (after : Db) : Type 0 where
  pub refused : answer ≡ err invalid_grant
  pub chain_dead :
      (x : Uuid)
      → has before.tokens x ≡ true
      → Chain before.tokens presented.id x
      → dead after.tokens x ≡ true
  pub others :
      (x : Uuid)
      → has before.tokens x ≡ true
      → dead after.tokens x ≡ true
      → Chain before.tokens presented.id x ⊎ (dead before.tokens x ≡ true)

check_usable_spent :
    (r : RefreshToken) (now : Time) (db : Db) (rows : List RefreshToken)
    → is_some r.rotated_to ≡ true
    → revoke_descendants now r db.tokens ≡ some rows
    → check_usable r now db ≡ (err reuse_detected, record db { tokens = rows })
unfolding check_usable replayed
check_usable_spent r now db rows spent ends = rw (spent, check_usable) (rw (ends, replayed))

module _ (hash : ℕ → ℕ) (days : ℕ) where
  find_token_spent :
      (token : ℕ) (db : Db) (s : IsSpent (hash token) db.tokens)
      → find_token hash db token ≡ some s.row
  unfolding find_token
  find_token_spent token db s = s.found

  -- What `spend` does with an exchanged token.
  spend_spent :
      (token now : ℕ) (db : Db) (s : IsSpent (hash token) db.tokens)
      → IsSound db.tokens
      → (rows : List RefreshToken) × (spend hash token now db
          ≡ (err reuse_detected, record db { tokens = rows }))
        × IsRevoked s.row.id db.tokens rows
  unfolding spend
  spend_spent token now db s sound =
      let (rows, ends, cut) =
        revoke_descendants-IsRevoked now db.tokens s.row
          (get-found (hash token) db.tokens s.row sound.one_row s.found) in
      (
        rows,
        rw (find_token_spent token db s, spend) (check_usable_spent s.row now db rows s.spent ends),
        cut,
      )

  refresh_spent :
      (token id new now : ℕ) (db : Db) (s : IsSpent (hash token) db.tokens)
      → IsSound db.tokens
      → IsCut s.row db
          (refresh hash days token id new now db).0
          (refresh hash days token id new now db).1
  unfolding refresh
  refresh_spent token id new now db s sound =
      let (rows, answer, cut) = spend_spent token now db s sound in
      rw (answer, refresh)
        (rw answer (record {
          refused = refl;
          chain_dead = λ x there chain. (cut.exactly x there).1 (inl chain);
          others = λ x there gone. (cut.exactly x there).0 gone;
        }))

-- Take any run of the routes from no tokens on, a refresh in it that goes through, and any run
-- after that. Whoever then presents the token that this refresh was given is refused with
-- `invalid_grant`, and no row in the rotation chain of that token can be used any longer, while
-- every other row can be used if it could before.
pub refresh-IsCut :
    (hash : ℕ → ℕ) (days token id new now id' new' now' : ℕ) (s0 s t : Db)
    → s0.tokens ≡ []
    → Run hash days s0 s
    → (refresh hash days token id new now s).0 ≡ ok tt
    → Run hash days (refresh hash days token id new now s).1 t
    → (r : RefreshToken) × (find (λ x. x.token_hash == hash token) t.tokens ≡ some r)
      × IsCut r t
          (refresh hash days token id' new' now' t).0
          (refresh hash days token id' new' now' t).1
refresh-IsCut hash days token id new now id' new' now' s0 s t none_yet before done after =
    let start : IsSound s0.tokens =
      subst IsSound (sym none_yet) (record { one_row = tt; spent_revoked = tt }) in
    let sound =
      Run-IsKept IsSound IsSound-IsKept hash days
        (Run.next before (Step.refreshes token id new now)) start in
    let spent =
      Run-IsKept (IsSpent (hash token)) (IsSpent-IsKept (hash token)) hash days after
        (refresh_spends hash days token id new now s done) in
    (
      spent.row,
      spent.found,
      refresh_spent hash days token id' new' now' t spent
          (Run-IsKept IsSound IsSound-IsKept hash days after sound),
    )
