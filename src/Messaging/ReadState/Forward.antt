-- ===== src/Messaging/ReadState/Forward.antt =====
-- The marker moves forward only, and reading to the end leaves nothing unread.
use claude_at_work_project.Prelude.{
  ◌≤◌, ◌≡◌, refl, inl, inr, Bool, true, false, ◌&&◌, Option, none, some, List, [], ◌∷◌, arith, ◌==◌,
  ==_refl, ltb, is_some, find, find-holds, find-update_where, count, All, ◌⊎◌, ◌≢◌, ◌∙◌,
  if◌then◌else◌, Option-cases, Bool-cases, ok,
}
use claude_at_work_project.Messaging.Models.{Uuid, Time, Message, is_read_row}
use claude_at_work_project.Messaging.Session.{Session}
use claude_at_work_project.Messaging.Channels.{marker, is_unread, unread, get_visible}
use claude_at_work_project.Messaging.Messages.{get}
use claude_at_work_project.Messaging.ReadState.{moved, upsert, in_history, mark_read}

-- `a` is no further on than `b`; no marker is the very start.
abbrev pub NoLater : Option Uuid → Option Uuid → Type 0
NoLater none b = Unit
NoLater (some a) none = ⊥
NoLater (some a) (some b) = a ≤ b

module _ (channel user message : Uuid) (now : Time) (s : Session) where
  -- The marker after an upsert: the later one of the two.
  marker-upsert :
      marker (upsert channel user message now s).1 channel user ≡ elim (marker s channel user) [
        | none ↦ some message
        | some last ↦ if ltb last message then some message else some last
      ]
  unfolding upsert
  marker-upsert = elim (Option-cases (find (is_read_row channel user) s.reads)) [
    | inl e ↦ rw (e, upsert) (ground (arith, ==_refl channel, ==_refl user))
    | inr (r, e) ↦ elim (Bool-cases (ltb r.last_read_id message)) [
      | inl ahead ↦
          rw (e, ahead, upsert)
            (ground (
              arith,
              find-update_where (is_read_row channel user) (is_read_row channel user)
                  (moved message now) s.reads (λ x. refl),
              find-holds (is_read_row channel user) s.reads {x = r} e,
            ))
      | inr behind ↦ rw (e, behind, upsert) (ground arith)
    ]
  ]

  messages-upsert : (upsert channel user message now s).1.messages ≡ s.messages
  unfolding upsert
  messages-upsert = ground arith

-- A later marker makes fewer messages unread.
unread-later :
    (channel user : Uuid) (a b : Option Uuid) (ms : List Message)
    → NoLater a b
    → count (is_unread channel user b) ms ≤ count (is_unread channel user a) ms
unread-later channel user a b [] h = omega arith
unread-later channel user none none (m ∷ ms) h =
    ground (arith, unread-later channel user none none ms h)
unread-later channel user none (some b) (m ∷ ms) h =
    ground (arith, unread-later channel user none (some b) ms h)
unread-later channel user (some a) none (m ∷ ms) h = absurd h
unread-later channel user (some a) (some b) (m ∷ ms) h =
    ground (arith, unread-later channel user (some a) (some b) ms h)

caught_up :
    (channel user message : Uuid) (ms : List Message)
    → All (λ m. ((m.channel_id == channel) ≡ false) ⊎ (m.id ≤ message)) ms
    → count (is_unread channel user (some message)) ms ≡ 0
caught_up channel user message [] h = refl
caught_up channel user message (m ∷ ms) h =
    ground (arith, caught_up channel user message ms h.1, h.0)

-- The markers and the counts before and after, by the answer.
pub record MovesForward (channel user message : Uuid) (s s' : Session) (answer : Option Bool)
    : Type 0 where
  pub no_later : NoLater (marker s channel user) (marker s' channel user)
  pub fewer : unread s' channel user ≤ unread s channel user
  pub moved_to : answer ≡ some true → marker s' channel user ≡ some message
  pub moved_from : answer ≡ some true → marker s channel user ≢ some message
  pub stayed : answer ≢ some true → marker s' channel user ≡ marker s channel user

-- The two markers, and the answer, of an upsert.
abbrev later : Uuid → Option Uuid → Option Uuid
later message none = some message
later message (some last) = if ltb last message then some message else some last

abbrev advances : Uuid → Option Uuid → Bool
advances message none = true
advances message (some last) = ltb last message

NoLater-refl : (a : Option Uuid) → NoLater a a
NoLater-refl none = tt
NoLater-refl (some a) = omega arith

NoLater-later : (message : Uuid) (a : Option Uuid) → NoLater a (later message a)
NoLater-later message none = tt
NoLater-later message (some last) = ground arith

later-advances :
    (message : Uuid) (a : Option Uuid) → advances message a ≡ true → later message a ≡ some message
later-advances message none h = refl
later-advances message (some last) h = ground arith

advances-ne : (message : Uuid) (a : Option Uuid) → advances message a ≡ true → a ≢ some message
advances-ne message none h = λ e. cc
advances-ne message (some last) h = λ e. ground arith

later-stays : (message : Uuid) (a : Option Uuid) → advances message a ≡ false → later message a ≡ a
later-stays message none h = cc
later-stays message (some last) h = ground arith

module _ (channel user message : Uuid) (now : Time) (s : Session) where
  answer-upsert :
      (upsert channel user message now s).0 ≡ ok (some (advances message (marker s channel user)))
  unfolding upsert
  answer-upsert = elim (Option-cases (find (is_read_row channel user) s.reads)) [
    | inl e ↦ rw (e, upsert)
    | inr (r, e) ↦ rw (e, upsert) (ground arith)
  ]

  marker-later :
      marker (upsert channel user message now s).1 channel user
      ≡ later message (marker s channel user)
  marker-later = elim (Option-cases (marker s channel user)) [
    | inl e ↦ marker-upsert channel user message now s ∙ (rw e refl)
    | inr (last, e) ↦ marker-upsert channel user message now s ∙ (rw e refl)
  ]

  upsert-MovesForward :
      (answer : Option Bool)
      → (upsert channel user message now s).0 ≡ ok answer
      → MovesForward channel user message s (upsert channel user message now s).1 answer
  unfolding unread
  upsert-MovesForward answer h =
      let a = marker s channel user in
      let told : answer ≡ some (advances message a) = cc (h, answer-upsert) in
      record {
        no_later = rw marker-later (NoLater-later message a);
        fewer =
            rw (messages-upsert channel user message now s, marker-later)
              (unread-later channel user a (later message a) s.messages (NoLater-later message a));
        moved_to = λ e. marker-later ∙ later-advances message a (ground (arith, told));
        moved_from = λ e. advances-ne message a (ground (arith, told));
        stayed = λ e. marker-later ∙ later-stays message a (ground (arith, told));
      }

-- A call of `mark_read` that raises nothing: the caller's marker in the channel does not go back, and
-- no more messages are unread than before. Where it says `True` the marker is now at the message and
-- was not there before; where it says anything else the marker stays where it was.
pub mark_read-MovesForward :
    (workspace user channel message : Uuid) (now : Time) (s : Session) (answer : Option Bool)
    → (mark_read workspace user channel message now s).0 ≡ ok answer
    → MovesForward channel user message s (mark_read workspace user channel message now s).1 answer
unfolding mark_read
mark_read-MovesForward workspace user channel message now s answer h =
    elim (Bool-cases
      (is_some (get_visible s workspace user channel) && in_history channel (get s message))) [
        | inl e ↦
            rw (e, mark_read)
              (upsert-MovesForward channel user message now s answer (rw (e, mark_read) at h))
        | inr e ↦
            let told : answer ≡ none = cc (rw (e, mark_read) at h) in
            rw (e, mark_read)
              (record {
                no_later = NoLater-refl (marker s channel user);
                fewer = omega arith;
                moved_to = λ x. cc (told, x);
                moved_from = λ x. cc (told, x);
                stayed = λ x. refl;
              })
      ]

messages-mark_read :
    (workspace user channel message : Uuid) (now : Time) (s : Session)
    → (mark_read workspace user channel message now s).1.messages ≡ s.messages
unfolding mark_read upsert
messages-mark_read workspace user channel message now s = ground arith

-- When the marker has moved to a message of the channel that no message of the channel comes after,
-- nothing in the channel is unread.
pub unread-mark_read :
    (workspace user channel message : Uuid) (now : Time) (s : Session)
    → (mark_read workspace user channel message now s).0 ≡ ok (some true)
    → All (λ m. ((m.channel_id == channel) ≡ false) ⊎ (m.id ≤ message)) s.messages
    → unread (mark_read workspace user channel message now s).1 channel user ≡ 0
unfolding unread
unread-mark_read workspace user channel message now s h newest =
    let f = mark_read-MovesForward workspace user channel message now s (some true) h in
    rw (messages-mark_read, f.moved_to refl) (caught_up channel user message s.messages newest)
