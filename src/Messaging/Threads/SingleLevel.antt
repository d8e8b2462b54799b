-- ===== src/Messaging/Threads/SingleLevel.antt =====
-- Threads have one level: what a reply names is a message of its channel that is itself no reply.
use claude_at_work_project.Prelude.{
  ℕ, ◌≡◌, refl, inl, inr, Bool, Option, none, some, ◌∷◌, arith, ◌==◌, update_where, All, All-find,
  All-map, All-update_where, Option-cases, Result-cases, Bool-cases, subst, if◌then◌else◌, ok,
}
use claude_at_work_project.Messaging.Models.{Uuid, Time, Text, Message}
use claude_at_work_project.Messaging.Session.{Session}
use claude_at_work_project.Messaging.Messages.{validate_body, get, new_message, create}
use claude_at_work_project.Messaging.Messages.Stored.{with_messages, get-update_where, id-get}
use claude_at_work_project.Messaging.Threads.{root_for, resolve_root}

-- `root` is a message of the channel, and no reply.
pub record IsRoot (s : Session) (channel root : Uuid) : Type 0 where
  pub row : Message
  pub found : get s root ≡ some row
  pub top_level : row.thread_root_id ≡ none
  pub same_channel : row.channel_id ≡ channel

abbrev pub Rooted : Session → Uuid → Option Uuid → Type 0
Rooted s channel none = Unit
Rooted s channel (some root) = IsRoot s channel root

pub record SingleLevel (s : Session) : Type 0 where
  pub rooted : All (λ m. Rooted s m.channel_id m.thread_root_id) s.messages

IsRoot-of :
    (s : Session) (channel candidate root : Uuid) (m : Message) (named : Option Uuid)
    → get s candidate ≡ some m
    → m.thread_root_id ≡ named
    → Rooted s m.channel_id named
    → root_for (some m) channel ≡ ok root
    → IsRoot s channel root
unfolding root_for
IsRoot-of s channel candidate root m none found e h r = record {
  row = m;
  found =
      subst (λ i. get s i ≡ some m)
        (let same : candidate ≡ root = ground (arith, id-get s candidate m found) in same) found;
  top_level = e;
  same_channel = ground arith;
}
IsRoot-of s channel candidate root m (some named) found e h r =
    subst (λ (c : Uuid). IsRoot s c root)
      (let place : m.channel_id ≡ channel = ground arith in place)
      (subst (λ (i : Uuid). IsRoot s m.channel_id i)
        (let same : named ≡ root = ground arith in same) h)

-- What `resolve_root` returns is a root of the channel, whichever message of it was named: a reply
-- to a reply is filed under the same root.
pub resolve_root-IsRoot :
    (s : Session) (channel candidate root : Uuid)
    → SingleLevel s
    → resolve_root s channel candidate ≡ ok root
    → IsRoot s channel root
unfolding resolve_root get
resolve_root-IsRoot s channel candidate root single h = elim (Option-cases (get s candidate)) [
  | inl e ↦ absurd (ground arith)
  | inr (m, e) ↦
      IsRoot-of s channel candidate root m m.thread_root_id e refl
        (All-find (λ x. Rooted s x.channel_id x.thread_root_id) (λ x. x.id == candidate) s.messages
          m single.rooted e)
        (rw (e, resolve_root) at h)
]

-- A write that leaves ids, channels and roots alone, as edits and deletes do.
module _ (q : Message → Bool) (f : Message → Message) (same_id : (m : Message) → (f m).id ≡ m.id)
    (same_root : (m : Message) → (f m).thread_root_id ≡ m.thread_root_id)
    (same_channel : (m : Message) → (f m).channel_id ≡ m.channel_id) where
  Rooted-update :
      (s : Session) (channel : Uuid) (named : Option Uuid)
      → Rooted s channel named
      → Rooted (with_messages (update_where q f) s) channel named
  Rooted-update s channel none h = tt
  Rooted-update s channel (some root) h = record {
    row = if q h.row then f h.row else h.row;
    found = rw (get-update_where q f same_id s root, h.found);
    top_level = ground (arith, same_root h.row, h.top_level);
    same_channel = ground (arith, same_channel h.row, h.same_channel);
  }

  pub SingleLevel-update :
      (s : Session) → SingleLevel s → SingleLevel (with_messages (update_where q f) s)
  SingleLevel-update s single = record {
    rooted =
        All-update_where q f s.messages (λ m h. rw (same_channel m, same_root m) h)
          (All-map s.messages (λ m h. Rooted-update s m.channel_id m.thread_root_id h)
            single.rooted);
  }

-- A new message: the others are found as before.
Rooted-insert :
    (s : Session) (m : Message) (channel : Uuid) (named : Option Uuid)
    → get s m.id ≡ none
    → Rooted s channel named
    → Rooted (with_messages (λ ms. m ∷ ms) s) channel named
unfolding get
Rooted-insert s m channel none fresh h = tt
Rooted-insert s m channel (some root) fresh h = record {
  row = h.row;
  found = elim (Bool-cases (m.id == root)) [
    | inl same ↦ absurd (ground (arith, h.found))
    | inr other ↦ rw other h.found
  ];
  top_level = h.top_level;
  same_channel = h.same_channel;
}

-- A send keeps threads at one level: one with a new id that is filed under
-- no root, or under one that `resolve_root` returned.
pub SingleLevel-create :
    (id channel author : Uuid) (body : Text) (max_chars : ℕ) (root : Option Uuid) (attached : Bool)
    (now : Time) (s : Session)
    → get s id ≡ none
    → Rooted s channel root
    → SingleLevel s
    → SingleLevel (create id channel author body max_chars root attached now s).1
unfolding create
SingleLevel-create id channel author body max_chars root attached now s fresh h single =
    elim (Result-cases (validate_body body max_chars attached)) [
      | inl (e, bad) ↦ rw (bad, create) single
      | inr (text, good) ↦
          let m = new_message id channel author root text now in
          rw (good, create)
            (record {
              rooted = (
                Rooted-insert s m channel root fresh h,
                All-map s.messages (λ x r. Rooted-insert s m x.channel_id x.thread_root_id fresh r)
                    single.rooted,
              );
            })
    ]
