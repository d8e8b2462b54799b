-- ===== src/Messaging/Messages/Stored.antt =====
-- What a write to `messages` changes of what is read back.
use claude_at_work_project.Prelude.{
  ◌≡◌, refl, Bool, true, some, List, arith, ◌==◌, is_some, find-holds, find-update_where,
  update_where, map_option, if◌then◌else◌, Option-cases, Bool-cases, inl, inr, sym, ◌∙◌, ◌≢◌,
}
use claude_at_work_project.Messaging.Models.{Uuid, Message}
use claude_at_work_project.Messaging.Session.{Session, write}
use claude_at_work_project.Messaging.Channels.{role_in, is_admin, sees, get_visible}
use claude_at_work_project.Messaging.Messages.{get, visible}

abbrev pub with_messages : (List Message → List Message) → Session → Session
with_messages f s = write (λ db. record db { messages = f db.messages }) s

-- Who sees a channel, and who administers it, does not depend on the messages.
pub get_visible-with_messages :
    (f : List Message → List Message) (s : Session) (workspace user channel : Uuid)
    → get_visible (with_messages f s) workspace user channel ≡ get_visible s workspace user channel
unfolding get_visible sees role_in
get_visible-with_messages f s workspace user channel = refl

pub is_admin-with_messages :
    (f : List Message → List Message) (s : Session) (channel user : Uuid)
    → is_admin (with_messages f s) channel user ≡ is_admin s channel user
unfolding is_admin role_in
is_admin-with_messages f s channel user = refl

pub id-get : (s : Session) (id : Uuid) (m : Message) → get s id ≡ some m → m.id ≡ id
unfolding get
id-get s id m h = ground (arith, find-holds (λ (x : Message). x.id == id) s.messages {x = m} h)

module _ (q : Message → Bool) (f : Message → Message)
    (keeps : (m : Message) → (f m).id ≡ m.id) where
  pub get-update_where :
      (s : Session) (id : Uuid)
      → get (with_messages (update_where q f) s) id
        ≡ map_option (λ m. if q m then f m else m) (get s id)
  unfolding get
  get-update_where s id = find-update_where (λ m. m.id == id) q f s.messages (λ m. rw (keeps m))

  -- A write to the rows of one id leaves the other messages alone.
  pub get-update_ne :
      (s : Session) (id other : Uuid)
      → ((m : Message) → q m ≡ true → m.id ≡ id)
      → other ≢ id
      → get (with_messages (update_where q f) s) other ≡ get s other
  get-update_ne s id other only ne = elim (Option-cases (get s other)) [
    | inl e ↦ rw (get-update_where s other, e)
    | inr (m, e) ↦ elim (Bool-cases (q m)) [
      | inl hit ↦ absurd (ne (sym (id-get s other m e) ∙ only m hit))
      | inr miss ↦ rw (get-update_where s other, e) (rw miss)
    ]
  ]

pub get-visible :
    (s : Session) (workspace user id : Uuid) (m : Message)
    → visible s workspace user id ≡ some m
    → (get s id ≡ some m) × (is_some (get_visible s workspace user m.channel_id) ≡ true)
unfolding visible
get-visible s workspace user id m h = elim (Option-cases (get s id)) [
  | inl e ↦ absurd (cc (rw (e, visible) at h))
  | inr (x, e) ↦ ground arith
]
