-- ===== src/Messaging/Channels/Writes.antt =====
-- src/services/messaging/messaging/channels.py: `create`, `rename`, `archive`, `add_member` and
-- `remove_member`. A flush that the indexes refuse raises `IntegrityError`, which these turn into
-- an error after a rollback.
use claude_at_work_project.Prelude.{
  ℕ, ◌+◌, Bool, true, false, not, ◌&&◌, ◌||◌, Option, none, some, ◌∷◌, ◌==◌, leb, any, find, select,
  map, update_where, if◌then◌else◌, Result, ok, err,
}
use claude_at_work_project.Messaging.Models.{
  Uuid, Time, Text, Name, typed, pair_key, Kind, public, private, is_public, is_dm, Role, admin,
  is_admin_role, Channel, ChannelMember, is_member_row, same_member, same_name,
}
use claude_at_work_project.Messaging.Session.{
  Db, Session, Error, unknown_kind, duplicate_name, version_conflict, already_member, last_admin,
  Action, write, rollback,
}
use claude_at_work_project.Messaging.Names.{validate_name}
use claude_at_work_project.Messaging.Channels.{VisibleChannel, role_in, count_admins}

-- `validate_kind`: `CREATABLE_KINDS` are the public and the private one.
unfoldable pub validate_kind : Kind → Result Error Kind
validate_kind public = ok public
validate_kind private = ok private
validate_kind _ = err unknown_kind

-- PostgreSQL's `lower` on ASCII text: every typed name is ASCII.
abbrev pub lower_char : ℕ → ℕ
lower_char c = if leb b'A' c && leb c b'Z' then c + 32 else c

abbrev pub lower : Name → Name
lower (typed cs) = typed (map lower_char cs)
lower (pair_key a b) = pair_key a b

-- Two rows of `ux_channels_public_name`, or of `ux_channels_dm_pair`, that hold one key.
abbrev pub public_clash : Channel → Channel → Bool
public_clash a b =
    (is_public a.kind && is_public b.kind)
    && (a.workspace_id == b.workspace_id && same_name (lower a.name) (lower b.name))

abbrev pub dm_clash : Channel → Channel → Bool
dm_clash a b =
    (is_dm a.kind && is_dm b.kind) && (a.workspace_id == b.workspace_id && same_name a.name b.name)

abbrev pub name_clash : Channel → Channel → Bool
name_clash a b = public_clash a b || dm_clash a b

abbrev pub clash : Channel → Channel → Bool
clash a b = a.id == b.id || name_clash a b

-- A flush of one row: `None` is `IntegrityError`.
unfoldable pub insert_channel : Channel → Db → Option Db
insert_channel c db =
    if any (clash c) db.channels then none else some (record db { channels = c ∷ db.channels })

-- The primary key of `channel_members`, and its foreign key.
unfoldable pub insert_member : ChannelMember → Db → Option Db
insert_member m db =
    if any (same_member m) db.members || not (any (λ c. c.id == m.channel_id) db.channels)
    then none
    else some (record db { members = m ∷ db.members })

unfoldable pub flush_new : Channel → ChannelMember → Db → Option Db
flush_new c m db = elim (insert_channel c db) [ none ↦ none | some db' ↦ insert_member m db' ]

abbrev pub new_channel : (id workspace creator : Uuid) → Text → Option Text → Kind → Time → Channel
new_channel id workspace creator name topic kind now = record {
  id = id;
  workspace_id = workspace;
  name = typed name;
  topic = topic;
  kind = kind;
  created_by = creator;
  updated_at = now;
  archived_at = none;
  version = 0;
}

abbrev pub created : Channel → VisibleChannel
created c = record {
  channel = c;
  my_role = some admin;
  last_read_id = none;
  unread_count = 0;
  dm_partner_id = none;
}

unfoldable pub create_checked : Channel → Action VisibleChannel
create_checked c s =
    elim (flush_new c (record { channel_id = c.id; user_id = c.created_by; role = admin }) s.db) [
      | none ↦ (err duplicate_name, rollback s)
      | some db ↦ (ok (created c), record s { db = db })
    ]

-- `id` is `uuid7()`, `now` the transaction's time.
unfoldable pub create :
    (id workspace creator : Uuid) → Text → Option Text → Kind → Time → Action VisibleChannel
create id workspace creator name topic kind now s = elim (validate_name name) [
  | err e ↦ (err e, s)
  | ok name' ↦ elim (validate_kind kind) [
    | err e ↦ (err e, s)
    | ok kind' ↦ create_checked (new_channel id workspace creator name' topic kind' now) s
  ]
]

-- The row that the guarded `UPDATE` finds, and its new columns. `topic` is `none` where it is left
-- alone, and `some none` where it is cleared.
abbrev pub is_version : (channel : Uuid) (expected : ℕ) → Channel → Bool
is_version channel expected c = c.id == channel && c.version == expected

abbrev pub renamed : Option Text → Option (Option Text) → Time → Channel → Channel
renamed name topic now c = record c {
  name = elim name [ none ↦ c.name | some text ↦ typed text ];
  topic = elim topic [ none ↦ c.topic | some value ↦ value ];
  updated_at = now;
  version = c.version + 1;
}

unfoldable pub rename_checked :
    (channel : Uuid) (expected : ℕ) → Option Text → Option (Option Text) → Time → Action (Unit {0})
rename_checked channel expected name topic now s =
    elim (find (is_version channel expected) s.channels) [
      | none ↦ (err version_conflict, s)
      | some c ↦
          if any (λ d. not (d.id == channel) && name_clash (renamed name topic now c) d) s.channels
          then (err duplicate_name, rollback s)
          else (
            ok tt,
            write
                (λ db. record db {
                  channels =
                      update_where (is_version channel expected) (renamed name topic now)
                        db.channels;
                })
                s,
          )
    ]

unfoldable pub rename :
    (channel : Uuid) (expected : ℕ) → Option Text → Option (Option Text) → Time → Action (Unit {0})
rename channel expected none topic now s = rename_checked channel expected none topic now s
rename channel expected (some raw) topic now s = elim (validate_name raw) [
  | err e ↦ (err e, s)
  | ok name ↦ rename_checked channel expected (some name) topic now s
]

abbrev pub put_away : Time → Channel → Channel
put_away now c = record c { archived_at = some now; updated_at = now; version = c.version + 1 }

unfoldable pub archive : Uuid → Time → Action (Unit {0})
archive channel now s = (
  ok tt,
  write
      (λ db. record db {
        channels = update_where (λ c. c.id == channel) (put_away now) db.channels;
      })
      s,
)

unfoldable pub add_member : (channel user : Uuid) → Role → Action ChannelMember
add_member channel user role s =
    let m : ChannelMember = record { channel_id = channel; user_id = user; role = role } in
    elim (insert_member m s.db) [
      | none ↦ (err already_member, rollback s)
      | some db ↦ (ok m, record s { db = db })
    ]

abbrev pub without_member : (channel user : Uuid) → Session → Session
without_member channel user =
    write
      (λ db. record db { members = select (λ m. not (is_member_row channel user m)) db.members })

-- `False` if they were never in it.
unfoldable pub remove_member : (channel user : Uuid) → Action Bool
remove_member channel user s = elim (role_in s channel user) [
  | none ↦ (ok false, s)
  | some role ↦
      if is_admin_role role && count_admins s channel == 1
      then (err last_admin, s)
      else (ok true, without_member channel user s)
]
