-- ===== src/Auth/Identities.antt =====
-- src/services/auth/auth/identities.py: users, memberships and roles. Sign-in's linking of an
-- identity, and the names it gives, are not here.
pub mod Owners
use claude_at_work_project.Prelude.{
  ℕ, ◌≤◌, Bool, true, false, not, ◌&&◌, ◌||◌, Option, none, some, List, [], ◌∷◌, ltb, leb, ◌==◌,
  is_some, find, any, select, count, map_option, update_where, if◌then◌else◌, Result, ok, err,
}
use claude_at_work_project.Auth.Rows.{
  Uuid, Time, Role, owner, admin, is_owner_role, User, Workspace, WorkspaceMember, Db,
  is_member_row, same_member, Error, integrity_error, not_read_back, last_owner, already_a_member,
  Action,
}

-- A workspace, and the role in it.
pub record Membership : Type 0 where
  pub workspace : Workspace
  pub role : Role

unfoldable pub find_user : Db → Uuid → Option User
find_user db user = find (λ u. u.id == user && not (is_some u.deleted_at)) db.users

-- The join of a membership row with its workspace.
abbrev pub joined : Db → WorkspaceMember → Option Membership
joined db m =
    map_option (λ w. record { workspace = w; role = m.role })
      (find (λ w. w.id == m.workspace_id) db.workspaces)

abbrev pub or_none : Db → Option WorkspaceMember → Option Membership
or_none db none = none
or_none db (some m) = joined db m

-- `membership(session, user_id, workspace_id)`
unfoldable pub membership : Db → (user workspace : Uuid) → Option Membership
membership db user workspace = or_none db (find (is_member_row user workspace) db.members)

abbrev pub keep_some : Option Membership → List Membership → List Membership
keep_some none ms = ms
keep_some (some m) ms = m ∷ ms

abbrev pub join_all : Db → List WorkspaceMember → List Membership
join_all db [] = []
join_all db (m ∷ ms) = keep_some (joined db m) (join_all db ms)

-- `ORDER BY joined_at, id` of the membership rows, by insertion.
abbrev pub joined_before : WorkspaceMember → WorkspaceMember → Bool
joined_before a b =
    ltb a.joined_at b.joined_at || (a.joined_at == b.joined_at && leb a.workspace_id b.workspace_id)

unfoldable pub insert_member_row : WorkspaceMember → List WorkspaceMember → List WorkspaceMember
insert_member_row m [] = m ∷ []
insert_member_row m (x ∷ xs) =
    let rest = insert_member_row m xs in if joined_before m x then m ∷ (x ∷ xs) else x ∷ rest

unfoldable pub by_joined : List WorkspaceMember → List WorkspaceMember
unfolding insert_member_row
by_joined [] = []
by_joined (m ∷ ms) = insert_member_row m (by_joined ms)

unfoldable pub memberships : Db → Uuid → List Membership
unfolding by_joined
memberships db user = join_all db (by_joined (select (λ m. m.user_id == user) db.members))

abbrev pub first_of : List Membership → Option Membership
first_of [] = none
first_of (m ∷ ms) = some m

abbrev pub or_else : Option Membership → Option Membership → Option Membership
or_else none b = b
or_else (some a) b = some a

unfoldable pub default_membership : List Membership → Option Membership
default_membership found = or_else (find (λ m. is_owner_role m.role) found) (first_of found)

abbrev pub is_owner_of : Uuid → WorkspaceMember → Bool
is_owner_of workspace m = m.workspace_id == workspace && is_owner_role m.role

unfoldable pub count_owners : Db → Uuid → ℕ
count_owners db workspace = count (is_owner_of workspace) db.members

-- `_last_owner`
unfoldable pub is_last_owner : Db → (workspace user : Uuid) → Bool
is_last_owner db workspace user = elim (membership db user workspace) [
  | none ↦ false
  | some m ↦ is_owner_role m.role && leb (count_owners db workspace) 1
]

-- What the insert of a member is refused for: a user or a workspace that is not there, and the
-- primary key.
abbrev pub is_insertable : Db → WorkspaceMember → Bool
is_insertable db row =
    any (λ u. u.id == row.user_id) db.users
    && any (λ w. w.id == row.workspace_id) db.workspaces
    && not (any (same_member row) db.members)

unfoldable pub add_member : (workspace user : Uuid) → Role → Time → Action Membership
add_member workspace user role now db =
    let row : WorkspaceMember = record {
      workspace_id = workspace;
      user_id = user;
      role = role;
      joined_at = now;
    } in
    let db' = record db { members = row ∷ db.members } in
    if is_some (membership db user workspace)
    then (err already_a_member, db)
    else if not (is_insertable db row)
    then (err integrity_error, db)
    else elim (membership db' user workspace) [
      | none ↦ (err not_read_back, db')
      | some m ↦ (ok m, db')
    ]

abbrev pub with_role : Role → WorkspaceMember → WorkspaceMember
with_role role m = record m { role = role }

-- `None` if there is no such member.
unfoldable pub set_role : (workspace user : Uuid) → Role → Action (Option Membership)
set_role workspace user role db = elim (membership db user workspace) [
  | none ↦ (ok none, db)
  | some m ↦
      if not (is_owner_role role) && is_last_owner db workspace user
      then (err last_owner, db)
      else let db' = record db {
        members = update_where (is_member_row user workspace) (with_role role) db.members;
      } in
        (ok (membership db' user workspace), db')
]

unfoldable pub remove_member : (workspace user : Uuid) → Action Bool
remove_member workspace user db = elim (membership db user workspace) [
  | none ↦ (ok false, db)
  | some m ↦ if is_last_owner db workspace user then (err last_owner, db) else (
    ok true,
    record db { members = select (λ m. not (is_member_row user workspace m)) db.members },
  )
]

abbrev pub shares : Uuid → List WorkspaceMember → WorkspaceMember → Bool
shares subject ms m = any (λ t. t.user_id == subject && t.workspace_id == m.workspace_id) ms

unfoldable pub shares_workspace : Db → (viewer subject : Uuid) → Bool
shares_workspace db viewer subject =
    ltb 0 (count (λ m. m.user_id == viewer && shares subject db.members m) db.members)
