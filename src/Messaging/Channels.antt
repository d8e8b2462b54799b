-- ===== src/Messaging/Channels.antt =====
-- src/services/messaging/messaging/channels.py: who sees a channel, and the writes to it. The
-- theorems are in the modules below.
pub mod Writes
pub mod Visibility
pub mod Admins
pub mod Versions
use claude_at_work_project.Prelude.{
  ℕ, ◌+◌, Bool, true, false, not, ◌&&◌, ◌||◌, Option, none, some, List, ltb, ◌==◌, is_some, find,
  select, count, any, length, map, map_option, if◌then◌else◌,
}
use claude_at_work_project.Messaging.Models.{
  Uuid, Role, is_admin_role, is_public, Channel, ChannelMember, Message, is_member_row, is_read_row,
}
use claude_at_work_project.Messaging.Session.{Session}
use claude_at_work_project.Messaging.Dms.{partner_of}

-- A channel and what the caller is to it.
pub record VisibleChannel : Type 0 where
  pub channel : Channel
  pub my_role : Option Role
  pub last_read_id : Option Uuid
  pub unread_count : ℕ
  pub dm_partner_id : Option Uuid

-- `_role`: the primary key leaves one row at most.
unfoldable pub role_in : Session → (channel user : Uuid) → Option Role
role_in s channel user = map_option (λ m. m.role) (find (is_member_row channel user) s.members)

unfoldable pub is_member : Session → (channel user : Uuid) → Bool
is_member s channel user = is_some (role_in s channel user)

abbrev pub role_is_admin : Option Role → Bool
role_is_admin none = false
role_is_admin (some role) = is_admin_role role

unfoldable pub is_admin : Session → (channel user : Uuid) → Bool
is_admin s channel user = role_is_admin (role_in s channel user)

abbrev pub is_admin_of : Uuid → ChannelMember → Bool
is_admin_of channel m = m.channel_id == channel && is_admin_role m.role

unfoldable pub count_admins : Session → Uuid → ℕ
count_admins s channel = count (is_admin_of channel) s.members

-- The `WHERE` of `_visible_query`, with its outer join.
unfoldable pub sees : Session → (workspace user : Uuid) → Channel → Bool
sees s workspace user c =
    (c.workspace_id == workspace && not (is_some c.archived_at))
    && (is_public c.kind || is_some (role_in s c.id user))

abbrev pub marker : Session → (channel user : Uuid) → Option Uuid
marker s channel user = map_option (λ r. r.last_read_id) (find (is_read_row channel user) s.reads)

-- `Message.id > last_read_id`, or no marker.
abbrev pub is_after : Option Uuid → Message → Bool
is_after none m = true
is_after (some last) m = ltb last m.id

-- The `WHERE` of the count in `_with_read_state`.
abbrev pub is_unread : (channel user : Uuid) → Option Uuid → Message → Bool
is_unread channel user last m =
    (m.channel_id == channel && not (m.author_id == user))
    && ((not (is_some m.deleted_at) && not (is_some m.thread_root_id)) && is_after last m)

unfoldable pub unread : Session → (channel user : Uuid) → ℕ
unread s channel user = count (is_unread channel user (marker s channel user)) s.messages

-- `_visible_from` of a row without the read state, and of one with it.
abbrev pub visible_from : Session → Uuid → Channel → VisibleChannel
visible_from s user c = record {
  channel = c;
  my_role = role_in s c.id user;
  last_read_id = none;
  unread_count = 0;
  dm_partner_id = partner_of c user;
}

abbrev pub with_read_state : Session → Uuid → VisibleChannel → VisibleChannel
with_read_state s user v = record v {
  last_read_id = marker s v.channel.id user;
  unread_count = unread s v.channel.id user;
}

-- `get_visible` for a guard. One row at most has the id.
unfoldable pub get_visible : Session → (workspace user channel : Uuid) → Option VisibleChannel
get_visible s workspace user channel =
    map_option (visible_from s user)
      (find (λ c. sees s workspace user c && c.id == channel) s.channels)

-- `get_visible(with_read_state=True)`
unfoldable pub get_channel : Session → (workspace user channel : Uuid) → Option VisibleChannel
get_channel s workspace user channel =
    map_option (with_read_state s user) (get_visible s workspace user channel)

unfoldable pub visible_ids : Session → (workspace user : Uuid) → List Uuid
visible_ids s workspace user = map (λ c. c.id) (select (sees s workspace user) s.channels)
