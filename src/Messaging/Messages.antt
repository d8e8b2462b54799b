-- ===== src/Messaging/Messages.antt =====
-- src/services/messaging/messaging/messages.py: sending, editing, deleting and the history of a
-- channel. The theorems are in the modules below.
pub mod Stored
pub mod Edits
pub mod Deletes
pub mod Opening
use claude_at_work_project.Prelude.{
  ℕ, ◌+◌, Bool, true, false, not, ◌&&◌, Option, none, some, List, [], ◌∷◌, ltb, ◌==◌, is_some,
  length, find, update_where, map_option, if◌then◌else◌, Result, ok, err,
}
use claude_at_work_project.Messaging.Models.{Uuid, Time, Text, Message}
use claude_at_work_project.Messaging.Session.{
  Session, Error, body_required, body_too_long, not_author, not_deletable, already_deleted,
  version_conflict, Action, write,
}
use claude_at_work_project.Messaging.Names.{strip, is_empty}
use claude_at_work_project.Messaging.Channels.{VisibleChannel, get_visible, is_admin}

unfoldable pub validate_body : Text → (max_chars : ℕ) → (allow_empty : Bool) → Result Error Text
validate_body raw max_chars allow_empty =
    if is_empty (strip raw)
    then (if allow_empty then ok [] else err body_required)
    else if ltb max_chars (length raw)
    then err body_too_long
    else ok raw

unfoldable pub check_editable : Message → Uuid → Result Error (Unit {0})
check_editable m user =
    if is_some m.deleted_at
    then err already_deleted
    else if not (m.author_id == user)
    then err not_author
    else ok tt

unfoldable pub check_deletable :
    Message → Uuid → (is_channel_admin : Bool) → Result Error (Unit {0})
check_deletable m user is_channel_admin =
    if not (m.author_id == user) && not is_channel_admin then err not_deletable else ok tt

-- `session.get(Message, message_id)`
unfoldable pub get : Session → Uuid → Option Message
get s message = find (λ m. m.id == message) s.messages

-- `_visible`: the message, if the caller can see the channel that it is in.
unfoldable pub visible : Session → (workspace user message : Uuid) → Option Message
visible s workspace user message = elim (get s message) [
  | none ↦ none
  | some m ↦ if is_some (get_visible s workspace user m.channel_id) then some m else none
]

abbrev pub new_message : (id channel author : Uuid) → Option Uuid → Text → Time → Message
new_message id channel author thread_root body now = record {
  id = id;
  channel_id = channel;
  author_id = author;
  thread_root_id = thread_root;
  body = body;
  created_at = now;
  edited_at = none;
  deleted_at = none;
  version = 0;
}

-- `create`, of a send whose claim returned `attached` attachments; their rows are not kept here.
unfoldable pub create :
    (id channel author : Uuid)
    → Text
    → (max_chars : ℕ) → Option Uuid
    → (attached : Bool) → Time
    → Action Message
create id channel author body max_chars thread_root attached now s =
    elim (validate_body body max_chars attached) [
      | err e ↦ (err e, s)
      | ok text ↦
          let m = new_message id channel author thread_root text now in
          (ok m, write (λ db. record db { messages = m ∷ db.messages }) s)
    ]

abbrev pub is_edition : Uuid → ℕ → Message → Bool
is_edition message expected m = m.id == message && m.version == expected

abbrev pub edited : Text → Time → Message → Message
edited body now m = record m { body = body; edited_at = some now; version = m.version + 1 }

-- The guarded `UPDATE`, and the refreshed row. The row that was loaded has the id; it is the only
-- one that can be found.
unfoldable pub edit_checked : Message → Text → (expected : ℕ) → Time → Action (Option Message)
edit_checked m body expected now s =
    if not (is_edition m.id expected m) then (err version_conflict, s) else (
      ok (some (edited body now m)),
      write
          (λ db. record db {
            messages = update_where (is_edition m.id expected) (edited body now) db.messages;
          })
          s,
    )

-- `edit`: visibility, then state, then authorship, then the body, then the version.
unfoldable pub edit :
    (workspace user message : Uuid)
    → Text
    → (expected max_chars : ℕ) → Time
    → Action (Option Message)
edit workspace user message body expected max_chars now s =
    elim (visible s workspace user message) [
      | none ↦ (ok none, s)
      | some m ↦ elim (check_editable m user) [
        | err e ↦ (err e, s)
        | ok _ ↦ elim (validate_body body max_chars false) [
          | err e ↦ (err e, s)
          | ok text ↦ edit_checked m text expected now s
        ]
      ]
    ]

pub record DeleteResult : Type 0 where
  pub message : Message
  pub deleted_now : Bool

abbrev pub is_live : Uuid → Message → Bool
is_live message m = m.id == message && not (is_some m.deleted_at)

abbrev pub tombstone : Time → Message → Message
tombstone now m = record m { deleted_at = some now; version = m.version + 1 }

unfoldable pub delete_checked : Message → Time → Action (Option DeleteResult)
delete_checked m now s =
    if is_some m.deleted_at then (ok (some (record { message = m; deleted_now = false })), s) else (
      ok (some (record { message = tombstone now m; deleted_now = true })),
      write (λ db. record db { messages = update_where (is_live m.id) (tombstone now) db.messages })
          s,
    )

unfoldable pub delete : (workspace user message : Uuid) → Time → Action (Option DeleteResult)
delete workspace user message now s = elim (visible s workspace user message) [
  | none ↦ (ok none, s)
  | some m ↦
      elim (check_deletable m user (not (m.author_id == user) && is_admin s m.channel_id user)) [
        | err e ↦ (err e, s)
        | ok _ ↦ delete_checked m now s
      ]
]
