-- ===== src/Messaging/Messages/Edits.antt =====
-- An edit rewrites one message, for its author, from the version that the author read.
use claude_at_work_project.Prelude.{
  ℕ, ◌+◌, ◌≡◌, ◌≢◌, refl, inl, inr, Bool, true, false, Option, none, some, arith, update_where,
  subst, Option-cases, Result-cases, Result, ok, err, ap,
}
use claude_at_work_project.Messaging.Models.{Uuid, Time, Text, Message}
use claude_at_work_project.Messaging.Session.{Session, Error}
use claude_at_work_project.Messaging.Messages.{
  validate_body, check_editable, get, visible, is_edition, edited, edit_checked, edit,
}
use claude_at_work_project.Messaging.Messages.Stored.{
  with_messages, get-update_where, get-update_ne, id-get, get-visible,
}

-- What a successful edit was allowed by, and what it leaves.
pub record IsEdited (s : Session) (workspace user id : Uuid) (body : Text) (expected : ℕ)
    (now : Time) (m' : Message) (s' : Session) : Type 0 where
  pub before : Message
  pub was_visible : visible s workspace user id ≡ some before
  pub by_author : before.author_id ≡ user
  pub not_deleted : before.deleted_at ≡ none
  pub version_read : before.version ≡ expected
  pub new_body : m'.body ≡ body
  pub new_time : m'.edited_at ≡ some now
  pub next_version : m'.version ≡ expected + 1
  pub same_author : m'.author_id ≡ user
  pub same_channel : m'.channel_id ≡ before.channel_id
  pub same_thread : m'.thread_root_id ≡ before.thread_root_id
  pub same_creation : m'.created_at ≡ before.created_at
  pub still_there : m'.deleted_at ≡ none
  pub stored : get s' id ≡ some m'
  pub others : (other : Uuid) → other ≢ id → get s' other ≡ get s other

-- A body that is not empty is stored as it came.
validate_body_same :
    (raw text : Text) (max_chars : ℕ) → validate_body raw max_chars false ≡ ok text → text ≡ raw
unfolding validate_body
validate_body_same raw text max_chars h = ground arith

module _ (workspace user id : Uuid) (body : Text) (expected max_chars : ℕ) (now : Time) where
  -- Every successful edit goes through the guarded update.
  edit-edit_checked :
      (s s' : Session) (m' : Message)
      → edit workspace user id body expected max_chars now s ≡ (ok (some m'), s')
      → (m : Message) × (visible s workspace user id ≡ some m)
        × (check_editable m user ≡ ok tt)
        × (edit_checked m body expected now s ≡ (ok (some m'), s'))
  unfolding edit
  edit-edit_checked s s' m' h = elim (Option-cases (visible s workspace user id)) [
    | inl e ↦ absurd (ground arith)
    | inr (m, e) ↦ elim (Result-cases (check_editable m user)) [
      | inl (x, bad) ↦ absurd (cc (rw (e, bad, edit) at h))
      | inr (_, fine) ↦ elim (Result-cases (validate_body body max_chars false)) [
        | inl (x, bad) ↦ absurd (cc (rw (e, fine, bad, edit) at h))
        | inr (text, valid) ↦ (
          m,
          e,
          fine,
          rw (← validate_body_same body text max_chars valid) (rw (e, fine, valid, edit) at h),
        )
      ]
    ]
  ]

  -- A successful edit was made by the author of a message that the author sees, that is not
  -- deleted, and that still had the version read; the stored row has the new body, the time
  -- of the edit and the next version, with the author, channel, thread and creation time it had, and
  -- every other message is as it was.
  pub edit_ok :
      (s s' : Session) (m' : Message)
      → edit workspace user id body expected max_chars now s ≡ (ok (some m'), s')
      → IsEdited s workspace user id body expected now m' s'
  unfolding check_editable edit_checked
  edit_ok s s' m' h =
      let (m, seen, fine, done) = edit-edit_checked s s' m' h in
      let found = (get-visible s workspace user id m seen).0 in
      let own : m.id ≡ id = id-get s id m found in
      let q = is_edition m.id expected in
      let written : with_messages (update_where q (edited body now)) s ≡ s' = ground arith in
      record {
        before = m;
        was_visible = seen;
        by_author = ground arith;
        not_deleted = ground arith;
        version_read = ground arith;
        new_body = ground arith;
        new_time = ground arith;
        next_version = ground arith;
        same_author = ground arith;
        same_channel = ground arith;
        same_thread = ground arith;
        same_creation = ground arith;
        still_there = ground arith;
        stored =
            subst (λ t. get t id ≡ some m') written
              (rw (get-update_where q (edited body now) (λ x. refl) s id, found) (ground arith));
        others = λ other ne.
            subst (λ t. get t other ≡ get s other) written
              (get-update_ne q (edited body now) (λ x. refl) s id other (λ x hit. ground arith) ne);
      }

-- Two edits from one version: after the first went through, no edit of that message from that
-- version succeeds, whoever makes it and whatever it would write.
pub edit_again :
    (workspace user user' id : Uuid) (body body' : Text) (expected max_chars : ℕ) (now now' : Time)
    (s s' t : Session) (m' m'' : Message)
    → edit workspace user id body expected max_chars now s ≡ (ok (some m'), s')
    → edit workspace user' id body' expected max_chars now' s' ≢ (ok (some m''), t)
edit_again workspace user user' id body body' expected max_chars now now' s s' t m' m'' h k =
    let first = edit_ok workspace user id body expected max_chars now s s' m' h in
    let second = edit_ok workspace user' id body' expected max_chars now' s' t m'' k in
    let found = (get-visible s' workspace user' id second.before second.was_visible).0 in
    let same : second.before ≡ m' = cc (found, first.stored) in
    absurd (
      omega (
        arith,
        second.version_read,
        first.version_read,
        ap (λ (m : Message). m.version) same,
        first.next_version,
      ))

abbrev pub is_success : Result Error (Option Message) → Bool
is_success (ok (some m)) = true
is_success (ok none) = false
is_success (err e) = false

-- Whatever an edit answers short of a success, it writes nothing.
pub edit_refused :
    (workspace user id : Uuid) (body : Text) (expected max_chars : ℕ) (now : Time) (s : Session)
    → is_success (edit workspace user id body expected max_chars now s).0 ≡ false
    → (edit workspace user id body expected max_chars now s).1 ≡ s
unfolding edit edit_checked
edit_refused workspace user id body expected max_chars now s h = ground arith
