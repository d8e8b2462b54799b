-- ===== src/Auth/Rows.antt =====
-- src/services/auth/auth/models.py: the rows that the domain modules read and write. A UUID and a
-- time are numbers; a token's hash is a number too, as only its equality is used. Display names,
-- and the columns that no rule here reads, are left out.
use claude_at_work_project.Prelude.{ℕ, Bool, true, false, Option, List, ◌==◌, ◌&&◌, Exec}

abbrev pub Uuid : Type 0
Uuid = ℕ

abbrev pub Time : Type 0
Time = ℕ

pub data Role : Type 0 where
  owner admin member guest : Role

abbrev pub is_owner_role : Role → Bool
is_owner_role owner = true
is_owner_role _ = false

pub record User : Type 0 where
  pub id : Uuid
  pub email : ℕ
  pub deleted_at : Option Time

pub record Workspace : Type 0 where
  pub id : Uuid
  pub name : ℕ

pub record WorkspaceMember : Type 0 where
  pub workspace_id : Uuid
  pub user_id : Uuid
  pub role : Role
  pub joined_at : Time

-- `rotated_to` is the id of the row that replaced this one.
pub record RefreshToken : Type 0 where
  pub id : Uuid
  pub user_id : Uuid
  pub workspace_id : Uuid
  pub token_hash : ℕ
  pub expires_at : Time
  pub rotated_to : Option Uuid
  pub revoked_at : Option Time

pub record Db : Type 0 where
  pub users : List User
  pub workspaces : List Workspace
  pub members : List WorkspaceMember
  pub tokens : List RefreshToken

-- The primary key of `workspace_members`.
abbrev pub is_member_row : (user workspace : Uuid) → WorkspaceMember → Bool
is_member_row user workspace m = m.user_id == user && m.workspace_id == workspace

abbrev pub same_member : WorkspaceMember → WorkspaceMember → Bool
same_member a b = is_member_row a.user_id a.workspace_id b

-- The exceptions of `identities` and `sessions`, an insert that a unique index refuses, and the
-- Problems of the routes. `out_of_rounds` is the model's: a walk that did not end.
pub data Error : Type 0 where
  last_owner already_a_member : Error
  unknown_token reuse_detected revoked expired out_of_rounds : Error
  integrity_error not_read_back : Error
  invalid_grant no_workspace not_a_member : Error

abbrev pub Action : Type 0 → Type 0
Action A = Exec Error Db A
