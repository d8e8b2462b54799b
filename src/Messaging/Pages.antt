-- ===== src/Messaging/Pages.antt =====
-- src/services/messaging/messaging: the pages of channels.py, messages.py and threads.py. A cursor
-- is read by `page_request_for` of the route. `show` is `str` of a UUID and `read` is `uuid.UUID` of a
-- string, `none` for a ValueError; `collates` is the database's order of names.
pub mod Walks
mod Examples
use claude_at_work_project.Prelude.{
  ℕ, Bool, true, false, not, ◌&&◌, ◌||◌, Option, none, some, List, [], ◌∷◌, ◌++◌, ltb, ◌==◌,
  is_some, is_some_eq, select, any, map,
}
use claude_at_work_project.Shared.Pagination.{
  Text, PageRequest, Page, encode_cursor, page_request_for, build_page,
}
use claude_at_work_project.Shared.Pagination.Walk.{keyset_page}
use claude_at_work_project.Shared.Pagination.Ordered.{order_by}
use claude_at_work_project.Messaging.Models.{
  Uuid, Name, typed, pair_key, is_dm, Channel, ChannelMember, Message,
}
use claude_at_work_project.Messaging.Session.{Session}
use claude_at_work_project.Messaging.Channels.{VisibleChannel, sees, visible_from, with_read_state}

-- `ORDER BY id DESC`, and by an id.
abbrev pub newer : Uuid → Uuid → Bool
newer a b = ltb b a

abbrev pub older : Uuid → Uuid → Bool
older a b = ltb a b

abbrev pub is_in_history : Uuid → Message → Bool
is_in_history channel m = m.channel_id == channel && not (is_some m.thread_root_id)

abbrev pub is_in_thread : Uuid → Message → Bool
is_in_thread root m = is_some_eq m.thread_root_id root

unfoldable pub history : Session → (channel : Uuid) → List Message
history s channel = order_by newer (λ m. m.id) (select (is_in_history channel) s.messages)

unfoldable pub replies : Session → (root : Uuid) → List Message
replies s root = order_by newer (λ m. m.id) (select (is_in_thread root) s.messages)

unfoldable pub members : Session → (channel : Uuid) → List ChannelMember
members s channel =
    order_by older (λ m. m.user_id) (select (λ m. m.channel_id == channel) s.members)

-- The row comparison `(name, id) > (name, id)`.
abbrev pub listed_before : (Name → Name → Bool) → Name × Uuid → Name × Uuid → Bool
listed_before collates a b = collates a.0 b.0 || (not (collates b.0 a.0) && ltb a.1 b.1)

-- A DM with no top-level message is not listed.
abbrev pub is_listed : Session → (workspace user : Uuid) → Channel → Bool
is_listed s workspace user c =
    sees s workspace user c && (not (is_dm c.kind) || any (is_in_history c.id) s.messages)

abbrev pub list_key : VisibleChannel → Name × Uuid
list_key v = (v.channel.name, v.channel.id)

unfoldable pub listed :
    (Name → Name → Bool) → Session → (workspace user : Uuid) → List VisibleChannel
listed collates s workspace user = order_by (listed_before collates) list_key (
    map (λ c. with_read_state s user (visible_from s user c))
      (select (is_listed s workspace user) s.channels))

module _ (encode : Text → Text) (show : Uuid → Text) where
  -- `key=lambda m: (str(m.id),)`
  abbrev pub id_cursor : Uuid → Text
  id_cursor id = encode_cursor encode (show id ∷ [])

  -- A name as it is stored: that of a DM is `dm:{low}:{high}`.
  unfoldable pub name_text : Name → Text
  name_text (typed t) = t
  name_text (pair_key low high) = b'd' ∷ (b'm' ∷ (b':' ∷ (show low ++ (b':' ∷ show high))))

  abbrev pub list_cursor : Name × Uuid → Text
  list_cursor k = encode_cursor encode (name_text k.0 ∷ (show k.1 ∷ []))

  unfoldable pub history_page : Session → (channel : Uuid) → PageRequest Uuid → Page Message
  history_page s channel request =
      keyset_page newer (λ m. m.id) id_cursor (history s channel) request

  unfoldable pub replies_page : Session → (root : Uuid) → PageRequest Uuid → Page Message
  replies_page s root request = keyset_page newer (λ m. m.id) id_cursor (replies s root) request

  unfoldable pub members_page : Session → (channel : Uuid) → PageRequest Uuid → Page ChannelMember
  members_page s channel request =
      keyset_page older (λ m. m.user_id) id_cursor (members s channel) request

  unfoldable pub list_page :
      (Name → Name → Bool)
      → Session
      → (workspace user : Uuid) → PageRequest (Name × Uuid)
      → Page VisibleChannel
  list_page collates s workspace user request =
      keyset_page (listed_before collates) list_key list_cursor (listed collates s workspace user)
        request

-- `(last_id,) = page.cursor`
abbrev pub only : Option (PageRequest (List Uuid)) → Option (PageRequest Uuid)
only none = none
only (some r) = elim r.cursor [
  | none ↦ some (record { limit = r.limit; cursor = none })
  | some ids ↦ elim ids [
    | [] ↦ none
    | id ∷ more ↦ elim more [
      | [] ↦ some (record { limit = r.limit; cursor = some id })
      | other ∷ others ↦ none
    ]
  ]
]

-- HISTORY_CURSOR and MEMBERS_CURSOR: one UUID.
unfoldable pub id_request :
    (Text → Option Text) → (Text → Option Uuid) → ℕ → Option Text → Option (PageRequest Uuid)
id_request decode read limit cursor = only (page_request_for decode (read ∷ []) limit cursor)
