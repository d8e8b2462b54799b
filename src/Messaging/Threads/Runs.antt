-- ===== src/Messaging/Threads/Runs.antt =====
-- Whatever is sent, edited and deleted, threads keep one level.
use claude_at_work_project.Prelude.{
  ℕ, ◌≡◌, refl, inl, inr, Bool, false, not, ◌&&◌, none, some, ok, is_some, ◌==◌, Option-cases,
  Result-cases, Bool-cases,
}
use claude_at_work_project.Messaging.Models.{Uuid, Time, Text}
use claude_at_work_project.Messaging.Session.{Session}
use claude_at_work_project.Messaging.Channels.{is_admin}
use claude_at_work_project.Messaging.Messages
use claude_at_work_project.Messaging.Messages.{
  validate_body, check_editable, check_deletable, get, visible, is_edition, edited, edit_checked,
  edit, is_live, tombstone, delete_checked, delete,
}
use claude_at_work_project.Messaging.Threads.{resolve_root}
use claude_at_work_project.Messaging.Threads.SingleLevel.{
  SingleLevel, SingleLevel-update, SingleLevel-create, resolve_root-IsRoot,
}

SingleLevel-edit :
    (workspace user id : Uuid) (body : Text) (expected max_chars : ℕ) (now : Time) (s : Session)
    → SingleLevel s
    → SingleLevel (edit workspace user id body expected max_chars now s).1
unfolding edit edit_checked
SingleLevel-edit workspace user id body expected max_chars now s single =
    elim (Option-cases (visible s workspace user id)) [
      | inl e ↦ rw (e, edit) single
      | inr (m, e) ↦ elim (Result-cases (check_editable m user)) [
        | inl (x, bad) ↦ rw (e, bad, edit) single
        | inr (_, fine) ↦ elim (Result-cases (validate_body body max_chars false)) [
          | inl (x, bad) ↦ rw (e, fine, bad, edit) single
          | inr (text, valid) ↦ elim (Bool-cases (not (is_edition m.id expected m))) [
            | inl stale ↦ rw (e, fine, valid, edit) (rw (stale, edit_checked) single)
            | inr current ↦
                rw (e, fine, valid, edit)
                  (rw (current, edit_checked)
                    (SingleLevel-update (is_edition m.id expected) (edited text now) (λ x. refl)
                      (λ x. refl) (λ x. refl) s single))
          ]
        ]
      ]
    ]

SingleLevel-delete :
    (workspace user id : Uuid) (now : Time) (s : Session)
    → SingleLevel s
    → SingleLevel (delete workspace user id now s).1
unfolding delete delete_checked
SingleLevel-delete workspace user id now s single =
    elim (Option-cases (visible s workspace user id)) [
      | inl e ↦ rw (e, delete) single
      | inr (m, e) ↦
          elim (Result-cases
            (check_deletable m user (not (m.author_id == user) && is_admin s m.channel_id user))) [
              | inl (x, bad) ↦ rw (e, bad, delete) single
              | inr (_, fine) ↦ elim (Bool-cases (is_some m.deleted_at)) [
                | inl dead ↦ rw (e, fine, delete) (rw (dead, delete_checked) single)
                | inr live ↦
                    rw (e, fine, delete)
                      (rw (live, delete_checked)
                        (SingleLevel-update (is_live m.id) (tombstone now) (λ x. refl) (λ x. refl)
                          (λ x. refl) s single))
              ]
            ]
    ]

-- The writes to messages. A reply is filed as the send paths do it: under what `resolve_root`
-- returns for the message that it names. A new message has an id that no message has.
pub data Step (s : Session) : Session → Type 0 where
  send :
      (id channel author : Uuid) (body : Text) (max_chars : ℕ) (attached : Bool) (now : Time)
      → get s id ≡ none
      → Step s (Messages.create id channel author body max_chars none attached now s).1
  reply :
      (id channel author candidate root : Uuid) (body : Text) (max_chars : ℕ) (attached : Bool)
      (now : Time)
      → get s id ≡ none
      → resolve_root s channel candidate ≡ ok root
      → Step s (Messages.create id channel author body max_chars (some root) attached now s).1
  edit_step :
      (workspace user id : Uuid) (body : Text) (expected max_chars : ℕ) (now : Time)
      → Step s (Messages.edit workspace user id body expected max_chars now s).1
  delete_step :
      (workspace user id : Uuid) (now : Time) → Step s (Messages.delete workspace user id now s).1

Step-SingleLevel : {s t : Session} → Step s t → SingleLevel s → SingleLevel t
Step-SingleLevel {s} (Step.send id channel author body max_chars attached now fresh) single =
    SingleLevel-create id channel author body max_chars none attached now s fresh tt single
Step-SingleLevel {s}
      (Step.reply id channel author candidate root body max_chars attached now fresh named) single =
    SingleLevel-create id channel author body max_chars (some root) attached now s fresh
      (resolve_root-IsRoot s channel candidate root single named) single
Step-SingleLevel {s} (Step.edit_step workspace user id body expected max_chars now) single =
    SingleLevel-edit workspace user id body expected max_chars now s single
Step-SingleLevel {s} (Step.delete_step workspace user id now) single =
    SingleLevel-delete workspace user id now s single

pub data Run (s : Session) : Session → Type 0 where
  here : Run s s
  next : {t u : Session} → Run s t → Step t u → Run s u

-- From any rows whose threads have one level, such as none, however messages are sent under new
-- ids, filed as replies under what `resolve_root` returns, edited and deleted: every reply names a
-- message of its own channel that is no reply.
pub Run-SingleLevel : (s t : Session) → SingleLevel s → Run s t → SingleLevel t
Run-SingleLevel s t single here = single
Run-SingleLevel s t single (next {t = u} before step) =
    Step-SingleLevel step (Run-SingleLevel s u single before)
