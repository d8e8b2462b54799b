-- ===== src/Messaging/Reactions.antt =====
-- src/services/messaging/messaging/reactions.py: who reacted to a message with what, and the summaries
-- of a page of messages. A dictionary is a function of its key.
pub mod Groups
pub mod Chips
pub mod Order
pub mod Tallies
use claude_at_work_project.Prelude.{
  ℕ, ◌+◌, Bool, true, false, not, ◌&&◌, Option, none, some, List, [], ◌∷◌, ◌==◌, ltb, leb, is_some,
  any, count, select, if◌then◌else◌, Result, ok, err,
}
use claude_at_work_project.Messaging.Models.{
  Uuid, Message, Reaction, Emoji, thumbsup, heart, tada, smile, eyes, check, unlisted,
}
use claude_at_work_project.Messaging.Session.{Db, Session, Error, unknown_emoji, Action, write}

-- `_ORDER`, and after it the texts that are not in it.
abbrev pub order : Emoji → ℕ
order thumbsup = 0
order heart = 1
order tada = 2
order smile = 3
order eyes = 4
order check = 5
order (unlisted n) = n + 6

abbrev pub same_emoji : Emoji → Emoji → Bool
same_emoji a b = order a == order b

unfoldable pub validate : Emoji → Result Error Emoji
validate emoji = if ltb (order emoji) 6 then ok emoji else err unknown_emoji

unfoldable pub may_react : Message → Bool
may_react m = not (is_some m.deleted_at)

-- The primary key of `reactions`.
abbrev pub is_reaction : (message user : Uuid) → Emoji → Reaction → Bool
is_reaction message user emoji r =
    (r.message_id == message && r.user_id == user) && same_emoji r.emoji emoji

abbrev pub same_reaction : Reaction → Reaction → Bool
same_reaction a b = is_reaction a.message_id a.user_id a.emoji b

unfoldable pub add : (message user : Uuid) → Emoji → Session → Session
add message user emoji s =
    if any (is_reaction message user emoji) s.reactions
    then s
    else write
        (λ db. record db {
          reactions =
              (record { message_id = message; user_id = user; emoji = emoji }) ∷ db.reactions;
        })
        s

unfoldable pub remove : (message user : Uuid) → Emoji → Session → Session
remove message user emoji = write (λ db. record db {
  reactions = select (λ r. not (is_reaction message user emoji r)) db.reactions;
})

unfoldable pub clear_for_message : Uuid → Session → Session
clear_for_message message =
    write (λ db. record db { reactions = select (λ r. not (r.message_id == message)) db.reactions })

-- One group of the query of `summaries_for`.
abbrev pub is_group : Uuid → Emoji → Reaction → Bool
is_group message emoji r = r.message_id == message && same_emoji r.emoji emoji

-- A row of that query.
pub record Row : Type 0 where
  pub message_id : Uuid
  pub emoji : Emoji
  pub total : ℕ
  pub reacted : Bool

unfoldable pub group_row : Session → (message user : Uuid) → Emoji → Row
group_row s message user emoji = record {
  message_id = message;
  emoji = emoji;
  total = count (is_group message emoji) s.reactions;
  reacted = any (λ r. is_group message emoji r && r.user_id == user) s.reactions;
}

-- A row for each group of the rows it reads. The database's order is its own; here it is that of the
-- last row of each group.
unfoldable pub group_rows : Session → (user : Uuid) → List Reaction → List Row
unfolding group_row
group_rows s user [] = []
group_rows s user (r ∷ rs) =
    let rest = group_rows s user rs in
    if any (is_group r.message_id r.emoji) rs
    then rest
    else group_row s r.message_id user r.emoji ∷ rest

pub record Summary : Type 0 where
  pub emoji : Emoji
  pub total : ℕ
  pub reacted : Bool

-- `emoji in _ORDER`
abbrev pub is_listed : Emoji → Bool
is_listed emoji = ltb (order emoji) 6

-- The loop of `summarise`, for one message: the dictionary has no entry where the list is empty.
unfoldable pub collect : List Row → Uuid → List Summary
collect [] message = []
collect (row ∷ rows) message =
    let rest = collect rows message in
    if not (is_listed row.emoji)
    then rest
    else if row.message_id == message
    then record { emoji = row.emoji; total = row.total; reacted = row.reacted } ∷ rest
    else rest

-- `list.sort` by `_ORDER`, which is stable.
abbrev pub place : Summary → List Summary → List Summary
place x [] = x ∷ []
place x (y ∷ ys) =
    let rest = place x ys in if leb (order x.emoji) (order y.emoji) then x ∷ y ∷ ys else y ∷ rest

abbrev pub sort : List Summary → List Summary
sort [] = []
sort (x ∷ xs) = place x (sort xs)

unfoldable pub summarise : List Row → Uuid → List Summary
unfolding collect
summarise rows message = sort (collect rows message)

-- `Reaction.message_id.in_(ids)`
abbrev pub is_on_page : List Uuid → Reaction → Bool
is_on_page ids r = any (λ i. i == r.message_id) ids

unfoldable pub summaries_for : Session → List Uuid → (user : Uuid) → Uuid → List Summary
unfolding group_rows summarise
summaries_for s [] user message = []
summaries_for s (id ∷ ids) user message =
    summarise (group_rows s user (select (is_on_page (id ∷ ids)) s.reactions)) message

-- src/services/messaging/messaging/routers/reactions.py: `_state_of`.
abbrev pub state_of : List Summary → Emoji → ℕ × Bool
state_of [] emoji = (0, false)
state_of (x ∷ xs) emoji =
    let rest = state_of xs emoji in if same_emoji x.emoji emoji then (x.total, x.reacted) else rest
