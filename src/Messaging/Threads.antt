-- ===== src/Messaging/Threads.antt =====
-- src/services/messaging/messaging/threads.py: single-level threads. A reply names its root.
pub mod SingleLevel
pub mod Runs
pub mod Counts
use claude_at_work_project.Prelude.{
  ℕ, Bool, true, false, not, ◌&&◌, ◌||◌, Option, none, some, List, [], ◌∷◌, ltb, ◌==◌, is_some,
  is_some_eq, count, select, if◌then◌else◌, Result, ok, err,
}
use claude_at_work_project.Messaging.Models.{Uuid, Time, Message}
use claude_at_work_project.Messaging.Session.{Session, Error, no_such_thread}
use claude_at_work_project.Messaging.Messages.{get}

unfoldable pub is_reply : Message → Bool
is_reply m = is_some m.thread_root_id

abbrev pub or_itself : Option Uuid → Uuid → Uuid
or_itself none id = id
or_itself (some root) id = root

unfoldable pub root_for : Option Message → (channel : Uuid) → Result Error Uuid
root_for none channel = err no_such_thread
root_for (some m) channel =
    if not (m.channel_id == channel)
    then err no_such_thread
    else ok (or_itself m.thread_root_id m.id)

unfoldable pub resolve_root : Session → (channel candidate : Uuid) → Result Error Uuid
unfolding root_for
resolve_root s channel candidate = root_for (get s candidate) channel

pub record Summary : Type 0 where
  pub reply_count : ℕ
  pub last_reply_at : Option Time

-- The `WHERE` of `summaries_for`, for one root.
abbrev pub is_live_reply : Uuid → Message → Bool
is_live_reply root m = is_some_eq m.thread_root_id root && not (is_some m.deleted_at)

abbrev pub latest : Option Time → Time → Option Time
latest none t = some t
latest (some a) t = if ltb a t then some t else some a

abbrev pub last_of : List Message → Option Time
last_of [] = none
last_of (m ∷ ms) = latest (last_of ms) m.created_at

-- `summary_for`: the grouped query has no row for a root with no live reply, and then it is
-- `NO_REPLIES`, which is what an empty count and an empty maximum say.
unfoldable pub summary_for : Session → Uuid → Summary
summary_for s root = record {
  reply_count = count (is_live_reply root) s.messages;
  last_reply_at = last_of (select (is_live_reply root) s.messages);
}
