-- ===== src/Messaging/Channels/Admins.antt =====
-- Every channel that can be administered has an admin: what that means, and what one write does to
-- it. The operations are in `Writes`, their sequences in `Runs`.
pub mod Operations
pub mod Runs
use claude_at_work_project.Prelude.{
  ℕ, zero, suc, ◌+◌, ◌≤◌, ◌<◌, ◌≡◌, ◌≢◌, ◌⊎◌, refl, inl, inr, Bool, true, false, not, ◌&&◌, Option,
  none, some, List, [], ◌∷◌, ◌++◌, arith, ◌==◌, find, find-holds, count-without, subst, any, select,
  count, count-select, count-find, count-Apart, Unique, Unique-select, Apart-any, All, All-map,
  All-update_where, map_option, Option-cases, Result-cases, Bool-cases, ok, err, if◌then◌else◌,
}
use claude_at_work_project.Messaging.Models.{
  Uuid, Time, Text, Kind, dm, is_dm, Role, admin, is_admin_role, Channel, ChannelMember,
  is_member_row, same_member,
}
use claude_at_work_project.Messaging.Session.{Db, Session, Error, Action, rollback}
use claude_at_work_project.Messaging.Channels.{VisibleChannel, role_in, is_admin_of, count_admins}
use claude_at_work_project.Messaging.Channels.Writes.{
  insert_channel, insert_member, create, create_checked, rename, renamed, rename_checked, archive,
  put_away, add_member, remove_member,
}

-- A DM is administered by nobody; any other channel has an admin.
abbrev pub HasAdmin : List ChannelMember → Channel → Type 0
HasAdmin members c = (is_dm c.kind ≡ true) ⊎ (1 ≤ count (is_admin_of c.id) members)

-- The rows of `channel_members` have the primary key, and every channel has an admin.
pub record IsGoverned (db : Db) : Type 0 where
  pub one_role : Unique same_member db.members
  pub administered : All (HasAdmin db.members) db.channels

-- As committed, and in the transaction.
pub record Governed (s : Session) : Type 0 where
  pub before : IsGoverned s.committed
  pub now : IsGoverned s.db

pub member_key :
    (channel user : Uuid) (x y : ChannelMember)
    → is_member_row channel user x ≡ true
    → is_member_row channel user y ≡ true
    → same_member x y ≡ true
member_key channel user x y h k = ground arith

-- One more member takes no admin away.
pub HasAdmin-cons :
    (m : ChannelMember) (members : List ChannelMember) (c : Channel)
    → HasAdmin members c
    → HasAdmin (m ∷ members) c
HasAdmin-cons m members c (inl fixed) = inl fixed
HasAdmin-cons m members c (inr h) = inr (ground arith)

pub IsGoverned-insert_member :
    (m : ChannelMember) (db db' : Db)
    → IsGoverned db
    → insert_member m db ≡ some db'
    → IsGoverned db'
unfolding insert_member
IsGoverned-insert_member m db db' g h = elim (Bool-cases (any (same_member m) db.members)) [
  | inl clash ↦ absurd (ground arith)
  | inr free ↦
      subst IsGoverned (let e : record db { members = m ∷ db.members } ≡ db' = ground arith in e)
        (record {
          one_role = (Apart-any same_member m db.members free, g.one_role);
          administered = All-map db.channels (HasAdmin-cons m db.members) g.administered;
        })
]

-- Taking someone out of a channel leaves each channel an admin: the last one is refused.
count-remaining :
    (channel user id : Uuid) (members : List ChannelMember) (m : ChannelMember)
    → Unique same_member members
    → find (is_member_row channel user) members ≡ some m
    → is_admin_role m.role && count (is_admin_of channel) members == 1 ≡ false
    → 1 ≤ count (is_admin_of id) members
    → 1 ≤ count (is_admin_of id) (select (λ x. not (is_member_row channel user x)) members)
count-remaining channel user id members m one here many h =
    let row : is_member_row channel user m ≡ true =
      find-holds (is_member_row channel user) members here in
    let gone =
      count-find same_member (is_admin_of id) (is_member_row channel user) members m
        (member_key channel user) one here in
    let total = count-without (is_admin_of id) (is_member_row channel user) members in
    elim (Bool-cases (is_admin_of id m)) [
      | inl admin_row ↦
          let same : id ≡ channel = ground arith in
          let several : 1 < count (is_admin_of id) members = rw same (ground arith) in
          omega (arith, (rw admin_row at gone), total)
      | inr other ↦ omega (arith, (rw other at gone), total)
    ]

pub HasAdmin-without :
    (s : Session) (channel user : Uuid) (role : Role) (c : Channel)
    → Unique same_member s.members
    → role_in s channel user ≡ some role
    → is_admin_role role && count_admins s channel == 1 ≡ false
    → HasAdmin s.members c
    → HasAdmin (select (λ m. not (is_member_row channel user m)) s.members) c
unfolding role_in count_admins
HasAdmin-without s channel user role c one here many (inl fixed) = inl fixed
HasAdmin-without s channel user role c one here many (inr h) =
    elim (Option-cases (find (is_member_row channel user) s.members)) [
      | inl e ↦ absurd (ground arith)
      | inr (m, e) ↦
          let same : m.role ≡ role = ground arith in
          inr (count-remaining channel user c.id s.members m one e (rw same many) h)
    ]
