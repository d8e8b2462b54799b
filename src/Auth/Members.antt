-- ===== src/Auth/Members.antt =====
-- src/services/auth/auth/identities.py: the members of a workspace, as its pages list them. A time in
-- a cursor is the text `show_time` of it, its `isoformat`.
pub mod Listing
use claude_at_work_project.Prelude.{
  ℕ, ◌≡◌, Bool, true, false, not, ◌&&◌, ◌||◌, Option, none, some, List, [], ◌∷◌, ltb, ◌==◌, find,
  select, is_some,
}
use claude_at_work_project.Shared.Pagination.{Text, PageRequest, Page, encode_cursor}
use claude_at_work_project.Shared.Pagination.Walk.{keyset_page}
use claude_at_work_project.Shared.Pagination.Ordered.{order_by}
use claude_at_work_project.Auth.Rows.{Uuid, Time, Role, User, WorkspaceMember, Db}
use claude_at_work_project.Auth.Identities.{find_user}

-- A person in a workspace.
pub record Member : Type 0 where
  pub user : User
  pub role : Role
  pub joined_at : Time

-- The row comparison `(joined_at, user_id) > (joined_at, user_id)`.
abbrev pub seated_before : Time × Uuid → Time × Uuid → Bool
seated_before a b = ltb a.0 b.0 || (a.0 == b.0 && ltb a.1 b.1)

abbrev pub member_key : Member → Time × Uuid
member_key m = (m.joined_at, m.user.id)

abbrev pub keep_member : Option User → WorkspaceMember → List Member → List Member
keep_member none m ms = ms
keep_member (some u) m ms = record { user = u; role = m.role; joined_at = m.joined_at } ∷ ms

-- The join of the membership rows with the users that are not deleted.
unfoldable pub with_users : Db → List WorkspaceMember → List Member
with_users db [] = []
with_users db (m ∷ ms) = keep_member (find_user db m.user_id) m (with_users db ms)

-- `_members_query`
unfoldable pub members : Db → (workspace : Uuid) → List Member
members db workspace =
    order_by seated_before member_key
      (with_users db (select (λ m. m.workspace_id == workspace) db.members))

unfoldable pub find_member : Db → (workspace user : Uuid) → Option Member
find_member db workspace user = find (λ m. m.user.id == user) (members db workspace)

module _ (encode : Text → Text) (show : Uuid → Text) (show_time : Time → Text) where
  abbrev pub member_cursor : Time × Uuid → Text
  member_cursor k = encode_cursor encode (show_time k.0 ∷ (show k.1 ∷ []))

  unfoldable pub members_page : Db → (workspace : Uuid) → PageRequest (Time × Uuid) → Page Member
  members_page db workspace request =
      keyset_page seated_before member_key member_cursor (members db workspace) request
