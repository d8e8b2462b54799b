-- ===== src/Messaging/Dms.antt =====
-- src/services/messaging/messaging/dms.py: the pair key of a direct message, its members, and
-- get-or-create. The theorems are in the modules below.
pub mod Pairs
use claude_at_work_project.Prelude.{
  ℕ, Bool, true, false, not, ◌&&◌, Option, none, some, List, [], ◌∷◌, ◌++◌, ltb, ◌==◌, is_some,
  find, any, ◌||◌, if◌then◌else◌, Result, ok, err,
}
use claude_at_work_project.Messaging.Models.{
  Uuid, Time, Name, typed, pair_key, Kind, dm, is_dm, Role, member, same_name, Channel,
  ChannelMember, Message,
}
use claude_at_work_project.Messaging.Session.{Session, Error, self_dm, fixed_channel, Action, write}

-- `pair_name(a, b)`, with the ids of `sorted((a, b))`.
unfoldable pub pair_name : Uuid → Uuid → Result Error Name
pair_name a b =
    if a == b then err self_dm else if ltb b a then ok (pair_key b a) else ok (pair_key a b)

-- The two ids that a DM's name holds.
abbrev pub ids_of : Name → Option (Uuid × Uuid)
ids_of (pair_key low high) = some (low, high)
ids_of (typed _) = none

-- `pair_of(channel)`. A DM's name is a pair key: `open_dm` alone writes one.
unfoldable pub pair_of : Channel → Option (Uuid × Uuid)
pair_of c = if not (is_dm c.kind) then none else ids_of c.name

unfoldable pub partner_of : Channel → Uuid → Option Uuid
unfolding pair_of
partner_of c user = elim (pair_of c) [
  | none ↦ none
  | some (low, high) ↦ some (if low == user then high else low)
]

unfoldable pub check_manageable : Channel → Result Error (Unit {0})
check_manageable c = if is_dm c.kind then err fixed_channel else ok tt

-- A row that the index `ux_channels_dm_pair` holds under this workspace and name.
abbrev pub is_dm_of : Uuid → Name → Channel → Bool
is_dm_of workspace name c = (is_dm c.kind && c.workspace_id == workspace) && same_name c.name name

-- The row that `open_dm` inserts, and the two memberships. `id` is `uuid7()`, a new one.
abbrev pub new_dm : (id workspace user : Uuid) → Name → Time → Channel
new_dm id workspace user name now = record {
  id = id;
  workspace_id = workspace;
  name = name;
  topic = none;
  kind = dm;
  created_by = user;
  updated_at = now;
  archived_at = none;
  version = 0;
}

abbrev pub new_member : (channel user : Uuid) → Role → ChannelMember
new_member channel user role = record { channel_id = channel; user_id = user; role = role }

-- `ON CONFLICT DO NOTHING` inserts exactly if the `SELECT` after it would find no row.
unfoldable pub open_named : (id workspace user other : Uuid) → Name → Time → Action Uuid
open_named id workspace user other name now s = elim (find (is_dm_of workspace name) s.channels) [
  | some c ↦ (ok c.id, s)
  | none ↦ (
    ok id,
    write
        (λ db. record db {
          channels = new_dm id workspace user name now ∷ db.channels;
          members = new_member id user member ∷ (new_member id other member ∷ db.members);
        })
        s,
  )
]

unfoldable pub open_dm : (id workspace user other : Uuid) → Time → Action Uuid
open_dm id workspace user other now s = elim (pair_name user other) [
  | err e ↦ (err e, s)
  | ok name ↦ open_named id workspace user other name now s
]

-- Before a send's insert: will this be the first top-level message of a DM?
unfoldable pub opens_dm : Channel → Option Uuid → Session → Bool
opens_dm c thread_root s =
    if not (is_dm c.kind) || is_some thread_root
    then false
    else not (any (λ m. m.channel_id == c.id && not (is_some m.thread_root_id)) s.messages)
