-- ===== src/Messaging/Messages/Opening.antt =====
-- The first message of a DM is the one that opens it.
use claude_at_work_project.Prelude.{
  ℕ, ◌≡◌, inl, inr, ap, subst, Bool, false, Option, none, some, ◌∷◌, arith, ==_refl, is_some,
  Result-cases, ok, if◌then◌else◌,
}
use claude_at_work_project.Messaging.Models.{Uuid, Time, Text, Channel, Message}
use claude_at_work_project.Messaging.Session.{Session}
use claude_at_work_project.Messaging.Dms.{opens_dm}
use claude_at_work_project.Messaging.Messages.{validate_body, new_message, create}
use claude_at_work_project.Messaging.Messages.Stored.{with_messages}

opens_dm-insert :
    (c : Channel) (id author : Uuid) (named thread_root : Option Uuid) (text : Text) (now : Time)
    (s : Session)
    → opens_dm c named
        (with_messages (λ ms. new_message id c.id author thread_root text now ∷ ms) s)
      ≡ (if is_some thread_root then opens_dm c named s else false)
unfolding opens_dm
opens_dm-insert c id author named none text now s = ground (arith, ==_refl c.id)
opens_dm-insert c id author named (some root) text now s = ground arith

-- After a message is sent in a channel, no later send of any kind opens it as a DM, if the message
-- was top-level; a reply leaves the answer as it was.
pub opens_dm-create :
    (c : Channel) (id author : Uuid) (body : Text) (max_chars : ℕ) (named thread_root : Option Uuid)
    (attached : Bool) (now : Time) (s s' : Session) (m : Message)
    → create id c.id author body max_chars thread_root attached now s ≡ (ok m, s')
    → opens_dm c named s' ≡ (if is_some thread_root then opens_dm c named s else false)
unfolding create
opens_dm-create c id author body max_chars named thread_root attached now s s' m h =
    elim (Result-cases (validate_body body max_chars attached)) [
      | inl (e, bad) ↦ absurd (cc (rw (bad, create) at h))
      | inr (text, good) ↦
          let sent : with_messages (λ ms. new_message id c.id author thread_root text now ∷ ms) s
              ≡ s' =
            ap (λ r. r.1) (rw (good, create) at h) in
          subst
            (λ t. opens_dm c named t ≡ (if is_some thread_root then opens_dm c named s else false))
            sent (opens_dm-insert c id author named thread_root text now s)
    ]
