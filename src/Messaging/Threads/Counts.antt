-- ===== src/Messaging/Threads/Counts.antt =====
-- What a thread's root shows of its replies after one is sent.
use claude_at_work_project.Prelude.{
  ℕ, ◌+◌, ◌≡◌, ◌≢◌, inl, inr, ap, subst, Bool, some, ◌∷◌, arith, ==_refl, Result-cases, ok,
}
use claude_at_work_project.Messaging.Models.{Uuid, Time, Text, Message}
use claude_at_work_project.Messaging.Session.{Session}
use claude_at_work_project.Messaging.Messages.{validate_body, new_message, create}
use claude_at_work_project.Messaging.Messages.Stored.{with_messages}
use claude_at_work_project.Messaging.Threads.{latest, summary_for}

-- What a send under `root` does to the summaries.
pub record IsCounted (s s' : Session) (root : Uuid) (now : Time) : Type 0 where
  pub one_more : (summary_for s' root).reply_count ≡ (summary_for s root).reply_count + 1
  pub last : (summary_for s' root).last_reply_at ≡ latest (summary_for s root).last_reply_at now
  pub others : (other : Uuid) → other ≢ root → summary_for s' other ≡ summary_for s other

IsCounted-insert :
    (id channel author root : Uuid) (text : Text) (now : Time) (s : Session)
    → IsCounted s
        (with_messages (λ ms. new_message id channel author (some root) text now ∷ ms) s)
        root
        now
unfolding summary_for
IsCounted-insert id channel author root text now s = record {
  one_more = ground (arith, ==_refl root);
  last = ground (arith, ==_refl root);
  others = λ other ne. ground (arith, ne);
}

-- A reply that is sent counts once on its root, whose last reply is then the later one of the two
-- times, and the summaries of all other roots stay as they were.
pub create-IsCounted :
    (id channel author root : Uuid) (body : Text) (max_chars : ℕ) (attached : Bool) (now : Time)
    (s s' : Session) (m : Message)
    → create id channel author body max_chars (some root) attached now s ≡ (ok m, s')
    → IsCounted s s' root now
unfolding create
create-IsCounted id channel author root body max_chars attached now s s' m h =
    elim (Result-cases (validate_body body max_chars attached)) [
      | inl (e, bad) ↦ absurd (cc (rw (bad, create) at h))
      | inr (text, good) ↦
          let sent : with_messages (λ ms. new_message id channel author (some root) text now ∷ ms) s
              ≡ s' =
            ap (λ r. r.1) (rw (good, create) at h) in
          subst (λ t. IsCounted s t root now) sent
            (IsCounted-insert id channel author root text now s)
    ]
