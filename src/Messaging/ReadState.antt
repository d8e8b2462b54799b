-- ===== src/Messaging/ReadState.antt =====
-- src/services/messaging/messaging/read_state.py: how far a person has read in a channel.
pub mod Forward
use claude_at_work_project.Prelude.{
  ℕ, Bool, true, false, not, ◌&&◌, ◌||◌, Option, none, some, List, ◌∷◌, ltb, ◌==◌, is_some, find,
  update_where, if◌then◌else◌, ok,
}
use claude_at_work_project.Messaging.Models.{Uuid, Time, Message, ChannelRead, is_read_row}
use claude_at_work_project.Messaging.Session.{Session, Action, write}
use claude_at_work_project.Messaging.Channels.{get_visible}
use claude_at_work_project.Messaging.Messages.{get}

-- The marker's row moves to the proposed message.
abbrev pub moved : Uuid → Time → ChannelRead → ChannelRead
moved message now r = record r { last_read_id = message; updated_at = now }

abbrev pub new_read : (channel user message : Uuid) → Time → ChannelRead
new_read channel user message now = record {
  channel_id = channel;
  user_id = user;
  last_read_id = message;
  updated_at = now;
}

-- The upsert: it inserts, or moves the row forward, or touches no row. The result is
-- `rowcount == 1`.
unfoldable pub upsert : (channel user message : Uuid) → Time → Action (Option Bool)
upsert channel user message now s = elim (find (is_read_row channel user) s.reads) [
  | none ↦ (
    ok (some true),
    write (λ db. record db { reads = new_read channel user message now ∷ db.reads }) s,
  )
  | some r ↦
      if ltb r.last_read_id message
      then (
        ok (some true),
        write
            (λ db. record db {
              reads = update_where (is_read_row channel user) (moved message now) db.reads;
            })
            s,
      )
      else (ok (some false), s)
]

-- A message that may be marked: it is in the channel's own history.
abbrev pub in_history : Uuid → Option Message → Bool
in_history channel none = false
in_history channel (some m) = m.channel_id == channel && not (is_some m.thread_root_id)

unfoldable pub mark_read : (workspace user channel message : Uuid) → Time → Action (Option Bool)
mark_read workspace user channel message now s =
    if is_some (get_visible s workspace user channel) && in_history channel (get s message)
    then upsert channel user message now s
    else (ok none, s)
