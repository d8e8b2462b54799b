-- ===== src/Auth/Members/Listing.antt =====
-- Who is in the list of members.
use claude_at_work_project.Prelude.{
  ◌≡◌, refl, sym, ◌∙◌, ap, inl, inr, Bool, not, ◌&&◌, none, some, List, [], ◌∷◌, arith, ltb, ◌==◌,
  any, find, find-holds, select, count, is_some, Option-cases, Bool-cases,
}
use claude_at_work_project.Shared.Pagination.Ordered.{order_by, count-order_by}
use claude_at_work_project.Auth.Rows.{Uuid, User, WorkspaceMember, Db, is_member_row}
use claude_at_work_project.Auth.Identities.{find_user}
use claude_at_work_project.Auth.Members.{
  Member, seated_before, member_key, with_users, members, find_member,
}

module _ {A : Type 0} (p : A → Bool) where
  find-any : (xs : List A) → is_some (find p xs) ≡ any p xs
  find-any [] = refl
  find-any (x ∷ xs) = ground (arith, find-any xs)

  any-count : (xs : List A) → any p xs ≡ ltb 0 (count p xs)
  any-count [] = refl
  any-count (x ∷ xs) = ground (arith, any-count xs)

find_user-id : (db : Db) (user : Uuid) (u : User) → find_user db user ≡ some u → u.id ≡ user
unfolding find_user
find_user-id db user u e =
    let held = find-holds (λ u. u.id == user && not (is_some u.deleted_at)) db.users e in
    ground arith

module _ (db : Db) (workspace user : Uuid) where
  any-with_users :
      (ms : List WorkspaceMember)
      → any (λ m. m.user.id == user) (with_users db (select (λ m. m.workspace_id == workspace) ms))
        ≡ (is_some (find_user db user) && any (is_member_row user workspace) ms)
  unfolding with_users
  any-with_users [] = ground arith
  any-with_users (m ∷ ms) = elim (Bool-cases (m.workspace_id == workspace)) [
    | inr other ↦ rw other (ground (arith, any-with_users ms))
    | inl here ↦ elim (Option-cases (find_user db m.user_id)) [
      | inl gone ↦
          rw (here, gone)
            (elim (Bool-cases (m.user_id == user)) [
              | inl theirs ↦
                  let same : m.user_id ≡ user = ground (arith, theirs) in
                  let nobody : find_user db user ≡ none = ap (find_user db) (sym same) ∙ gone in
                  any-with_users ms ∙ rw nobody refl
              | inr else_row ↦ rw else_row (any-with_users ms)
            ])
      | inr (u, there) ↦
          let id = find_user-id db m.user_id u there in
          rw (here, there)
            (elim (Bool-cases (m.user_id == user)) [
              | inl theirs ↦
                  let same : m.user_id ≡ user = ground (arith, theirs) in
                  let somebody : find_user db user ≡ some u =
                    ap (find_user db) (sym same) ∙ there in
                  rw (id, theirs, somebody) refl
              | inr else_row ↦ rw (id, else_row) (any-with_users ms)
            ])
    ]
  ]

-- Someone is found among the members of a workspace exactly if there is such a user, not deleted,
-- and a membership row of theirs in it.
pub find_member_lem :
    (db : Db) (workspace user : Uuid)
    → is_some (find_member db workspace user)
      ≡ (is_some (find_user db user) && any (is_member_row user workspace) db.members)
unfolding find_member members
find_member_lem db workspace user =
    let is_theirs : Member → Bool = λ m. m.user.id == user in
    let rows = with_users db (select (λ m. m.workspace_id == workspace) db.members) in
    find-any is_theirs (order_by seated_before member_key rows)
    ∙ any-count is_theirs (order_by seated_before member_key rows)
    ∙ ap (ltb 0) (count-order_by seated_before member_key is_theirs rows)
    ∙ sym (any-count is_theirs rows)
    ∙ any-with_users db workspace user db.members
