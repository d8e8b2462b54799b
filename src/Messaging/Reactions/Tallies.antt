-- ===== src/Messaging/Reactions/Tallies.antt =====
-- What a reaction does to the summaries of a page of messages.
use claude_at_work_project.Prelude.{
  ℕ, ◌+◌, ◌≡◌, refl, true, false, List, arith, ◌==◌, any, if◌then◌else◌, ok,
}
use claude_at_work_project.Messaging.Models.{Uuid, Emoji, unlisted}
use claude_at_work_project.Messaging.Session.{Session}
use claude_at_work_project.Messaging.Reactions.{
  validate, is_group, is_listed, add, summaries_for, state_of,
}
use claude_at_work_project.Messaging.Reactions.Groups.{add-IsCounted}
use claude_at_work_project.Messaging.Reactions.Chips.{state_of-summaries_for}
use claude_at_work_project.Messaging.Reactions.Order.{Ascending, Ascending-summaries_for}

-- What one person's reaction does to the summaries of a page, as that person and others see them.
pub record IsAdded (s s' : Session) (ids : List Uuid) (message user : Uuid) (emoji : Emoji)
    : Type 0 where
  pub reacted : (state_of (summaries_for s' ids user message) emoji).1 ≡ true
  pub total :
      (state_of (summaries_for s' ids user message) emoji).0
      ≡ (state_of (summaries_for s ids user message) emoji).0
        + (if (state_of (summaries_for s ids user message) emoji).1 then 0 else 1)
  pub other_emoji :
      (m u : Uuid) (e : Emoji)
      → is_group message emoji (record { message_id = m; user_id = u; emoji = e }) ≡ false
      → state_of (summaries_for s' ids u m) e ≡ state_of (summaries_for s ids u m) e
  pub not_listed :
      (m u : Uuid) (n : ℕ) → state_of (summaries_for s' ids u m) (unlisted n) ≡ (0, false)
  pub ascending : (m u : Uuid) → Ascending (summaries_for s' ids u m)

validate-is_listed : (emoji : Emoji) → validate emoji ≡ ok emoji → is_listed emoji ≡ true
unfolding validate
validate-is_listed emoji h = ground arith

-- After a person reacts with an emoji that is accepted, to a message of the page, the page says that
-- they did and counts them once, however often they ask for it. What it says of other messages and of
-- other emoji is as it was; of an emoji that is not in the allowlist it says nothing; and the
-- summaries of each message are in the order of the allowlist, with one at most for an emoji.
pub add-IsAdded :
    (ids : List Uuid) (message user : Uuid) (emoji : Emoji) (s : Session)
    → any (λ i. i == message) ids ≡ true
    → validate emoji ≡ ok emoji
    → IsAdded s (add message user emoji s) ids message user emoji
add-IsAdded ids message user emoji s on_page valid =
    let s' = add message user emoji s in
    let listed = validate-is_listed emoji valid in
    let counted = add-IsCounted message user emoji s in
    let now = state_of-summaries_for s' ids user message emoji in
    let earlier = state_of-summaries_for s ids user message emoji in
    record {
      reacted = rw (now, on_page, listed) counted.reacted;
      total = rw (now, earlier, on_page, listed) counted.total;
      other_emoji = λ m u e ne.
          rw
            (
              state_of-summaries_for s' ids u m e,
              state_of-summaries_for s ids u m e,
              counted.other_emoji m u e ne,
            )
            refl;
      not_listed = λ m u n. rw (state_of-summaries_for s' ids u m (unlisted n)) (ground arith);
      ascending = λ m u. Ascending-summaries_for s' ids u m;
    }
