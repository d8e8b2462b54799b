-- ===== src/Messaging/Session.antt =====
-- A database transaction, as the domain modules of src/services/messaging use SQLAlchemy's session:
-- the rows as they were committed, and as this transaction sees them. `rollback` goes back to the
-- committed rows; a raise by itself changes nothing.
use claude_at_work_project.Prelude.{List, Exec}
use claude_at_work_project.Messaging.Models.{Channel, ChannelMember, ChannelRead, Message, Reaction}

pub record Db : Type 0 where
  pub channels : List Channel
  pub members : List ChannelMember
  pub reads : List ChannelRead
  pub messages : List Message
  pub reactions : List Reaction

pub record Session : Type 0 where
  pub committed : Db
  pub db : Db
  pub open db use *

-- The exceptions of `channels`, `messages`, `dms`, `threads` and `reactions`.
pub data Error : Type 0 where
  name_required name_too_short name_too_long name_must_start_with_letter name_characters : Error
  unknown_kind duplicate_name version_conflict already_member last_admin : Error
  body_required body_too_long not_author not_deletable already_deleted : Error
  self_dm fixed_channel no_such_thread unknown_emoji : Error

abbrev pub Action : Type 0 → Type 0
Action A = Exec Error Session A

-- `await session.rollback()`
abbrev pub rollback : Session → Session
rollback s = record s { db = s.committed }

-- `await session.commit()`
abbrev pub commit : Session → Session
commit s = record s { committed = s.db }

-- `session.execute` of a write.
abbrev pub write : (Db → Db) → Session → Session
write f s = record s { db = f s.db }
