-- ===== src/Messaging/Messages/Deletes.antt =====
-- A delete leaves a tombstone, once.
use claude_at_work_project.Prelude.{
  ◌+◌, ◌≡◌, ◌≢◌, refl, inl, inr, true, false, not, ◌&&◌, some, List, arith, ◌==◌, is_some, ==_refl,
  update_where, subst, sym, ◌∙◌, Option-cases, Result-cases, Bool-cases, ok, ap, ◌⊎◌,
}
use claude_at_work_project.Messaging.Models.{Uuid, Time, Message}
use claude_at_work_project.Messaging.Session.{Session}
use claude_at_work_project.Messaging.Channels.{get_visible, is_admin}
use claude_at_work_project.Messaging.Messages.{
  check_deletable, get, visible, is_live, tombstone, DeleteResult, delete_checked, delete,
}
use claude_at_work_project.Messaging.Messages.Stored.{
  with_messages, get-update_where, get-update_ne, id-get, get-visible, get_visible-with_messages,
  is_admin-with_messages,
}

-- What a delete that was not refused was allowed by, and what it leaves.
pub record IsDeleted (s : Session) (workspace user id : Uuid) (now : Time) (r : DeleteResult)
    (s' : Session) : Type 0 where
  pub before : Message
  pub was_visible : visible s workspace user id ≡ some before
  pub by_author_or_admin : (before.author_id ≡ user) ⊎ (is_admin s before.channel_id user ≡ true)
  pub stored : get s' id ≡ some r.message
  pub dead : is_some r.message.deleted_at ≡ true
  pub body_kept : r.message.body ≡ before.body
  pub first_time : is_some before.deleted_at ≡ not r.deleted_now
  pub one_version : r.deleted_now ≡ true → r.message.version ≡ before.version + 1
  pub repeated : r.deleted_now ≡ false → (r.message ≡ before) × (s' ≡ s)
  pub same_place : r.message.channel_id ≡ before.channel_id
  pub same_author : r.message.author_id ≡ before.author_id
  pub written : (f : List Message → List Message) × (with_messages f s ≡ s')
  pub others : (other : Uuid) → other ≢ id → get s' other ≡ get s other

module _ (workspace user id : Uuid) (now : Time) where
  delete-delete_checked :
      (s s' : Session) (r : DeleteResult)
      → delete workspace user id now s ≡ (ok (some r), s')
      → (m : Message) × (visible s workspace user id ≡ some m)
        × (check_deletable m user (not (m.author_id == user) && is_admin s m.channel_id user)
            ≡ ok tt)
        × (delete_checked m now s ≡ (ok (some r), s'))
  unfolding delete
  delete-delete_checked s s' r h = elim (Option-cases (visible s workspace user id)) [
    | inl e ↦ absurd (ground arith)
    | inr (m, e) ↦
        elim (Result-cases
          (check_deletable m user (not (m.author_id == user) && is_admin s m.channel_id user))) [
            | inl (x, bad) ↦ absurd (cc (rw (e, bad, delete) at h))
            | inr (_, fine) ↦ (m, e, fine, rw (e, fine, delete) at h)
          ]
  ]

  -- A delete that is answered was made by the author or by an admin of the channel, who sees the
  -- message. The stored row is a tombstone that keeps its body. The first delete moves the version
  -- on by one; a repeated one returns the row as it was and writes nothing. Other messages are as
  -- they were.
  pub delete_ok :
      (s s' : Session) (r : DeleteResult)
      → delete workspace user id now s ≡ (ok (some r), s')
      → IsDeleted s workspace user id now r s'
  unfolding check_deletable delete_checked
  delete_ok s s' r h =
      let (m, seen, fine, done) = delete-delete_checked s s' r h in
      let found = (get-visible s workspace user id m seen).0 in
      let own : m.id ≡ id = id-get s id m found in
      elim (Bool-cases (is_some m.deleted_at)) [
        | inl dead ↦
            let same : s ≡ s' = ground arith in
            let row : m ≡ r.message = ground arith in
            record {
              before = m;
              was_visible = seen;
              by_author_or_admin = ground arith;
              stored = subst (λ t. get t id ≡ some r.message) same (found ∙ ap some row);
              dead = ground arith;
              body_kept = ground arith;
              first_time = ground arith;
              one_version = λ e. ground arith;
              repeated = λ e. (sym row, sym same);
              same_place = ground arith;
              same_author = ground arith;
              written = (λ ms. ms, same);
              others = λ other ne. subst (λ t. get t other ≡ get s other) same refl;
            }
        | inr live ↦
            let q = is_live m.id in
            let written : with_messages (update_where q (tombstone now)) s ≡ s' = ground arith in
            record {
              before = m;
              was_visible = seen;
              by_author_or_admin = ground arith;
              stored =
                  subst (λ t. get t id ≡ some r.message) written
                    (rw (get-update_where q (tombstone now) (λ x. refl) s id, found)
                      (ground (arith, ==_refl m.id)));
              dead = ground arith;
              body_kept = ground arith;
              first_time = ground arith;
              one_version = λ e. ground arith;
              repeated = λ e. absurd (ground arith);
              same_place = ground arith;
              same_author = ground arith;
              written = (update_where q (tombstone now), written);
              others = λ other ne.
                  subst (λ t. get t other ≡ get s other) written
                    (get-update_ne q (tombstone now) (λ x. refl) s id other (λ x hit. ground arith)
                      ne);
            }
      ]

visible-with_messages :
    (f : List Message → List Message) (s t : Session) (workspace user id : Uuid) (m : Message)
    → with_messages f s ≡ t
    → get t id ≡ some m
    → is_some (get_visible s workspace user m.channel_id) ≡ true
    → visible t workspace user id ≡ some m
unfolding visible
visible-with_messages f s t workspace user id m e found seen =
    let seen_still : is_some (get_visible t workspace user m.channel_id) ≡ true =
      subst (λ u. is_some (get_visible u workspace user m.channel_id) ≡ true) e
        (rw get_visible-with_messages seen) in
    rw (found, visible) (rw seen_still)

delete_checked_again :
    (workspace user id : Uuid) (now : Time) (s : Session) (m : Message)
    → visible s workspace user id ≡ some m
    → is_some m.deleted_at ≡ true
    → (m.author_id ≡ user) ⊎ (is_admin s m.channel_id user ≡ true)
    → delete workspace user id now s ≡ (ok (some (record { message = m; deleted_now = false })), s)
unfolding delete check_deletable delete_checked
delete_checked_again workspace user id now s m seen dead allowed =
    rw (seen, delete) (ground (arith, ==_refl user))

-- Deleting again answers with the same tombstone, says that it was there, and writes nothing: the
-- version and the time of deletion stay those of the first delete.
pub delete_again :
    (workspace user id : Uuid) (now now' : Time) (s s' : Session) (r : DeleteResult)
    → delete workspace user id now s ≡ (ok (some r), s')
    → delete workspace user id now' s'
      ≡ (ok (some (record { message = r.message; deleted_now = false })), s')
delete_again workspace user id now now' s s' r h =
    let first = delete_ok workspace user id now s s' r h in
    let (f, e) = first.written in
    let place = get-visible s workspace user id first.before first.was_visible in
    delete_checked_again workspace user id now' s' r.message
      (visible-with_messages f s s' workspace user id r.message e first.stored
        (rw first.same_place place.1))
      first.dead
      (elim first.by_author_or_admin [
        | inl author ↦ inl (first.same_author ∙ author)
        | inr admin ↦ inr (
            rw first.same_place (
              subst (λ t. is_admin t first.before.channel_id user ≡ true) e
                (rw is_admin-with_messages admin)))
      ])
