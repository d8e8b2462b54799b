-- ===== src/Messaging/Channels/Versions.antt =====
-- Two people edit the channel that both have read: the second is refused.
use claude_at_work_project.Prelude.{
  ℕ, ◌≡◌, ◌≢◌, refl, inl, inr, Option, none, some, List, [], ◌∷◌, arith, find, update_where,
  Result-cases, ok, err,
}
use claude_at_work_project.Messaging.Models.{Uuid, Time, Text, Channel}
use claude_at_work_project.Messaging.Session.{Session, version_conflict}
use claude_at_work_project.Messaging.Names.{validate_name}
use claude_at_work_project.Messaging.Channels.Writes.{is_version, renamed, rename, rename_checked}

version_gone :
    (channel : Uuid) (expected : ℕ) (name : Option Text) (topic : Option (Option Text)) (now : Time)
    (cs : List Channel)
    → find
        (is_version channel expected)
        (update_where (is_version channel expected) (renamed name topic now) cs)
      ≡ none
version_gone channel expected name topic now [] = refl
version_gone channel expected name topic now (c ∷ cs) =
    ground (arith, version_gone channel expected name topic now cs)

rename_checked_again :
    (channel : Uuid) (expected : ℕ) (name name' : Option Text) (topic topic' : Option (Option Text))
    (now now' : Time) (s s' : Session)
    → rename_checked channel expected name topic now s ≡ (ok tt, s')
    → rename_checked channel expected name' topic' now' s' ≡ (err version_conflict, s')
unfolding rename_checked
rename_checked_again channel expected name name' topic topic' now now' s s' h =
    ground (arith, version_gone channel expected name topic now s.channels)

rename-checked :
    (channel : Uuid) (expected : ℕ) (name : Option Text) (topic : Option (Option Text)) (now : Time)
    (s s' : Session)
    → rename channel expected name topic now s ≡ (ok tt, s')
    → (checked : Option Text) × (rename_checked channel expected checked topic now s ≡ (ok tt, s'))
unfolding rename
rename-checked channel expected none topic now s s' h = (none, h)
rename-checked channel expected (some raw) topic now s s' h =
    elim (Result-cases (validate_name raw)) [
      | inl (e, bad) ↦ absurd (cc (rw (bad, rename) at h))
      | inr (text, good) ↦ (some text, rw (good, rename) at h)
    ]

-- After a rename that went through, another one that was made from the same version is refused,
-- whatever it would write, and changes nothing.
pub rename_again :
    (channel : Uuid) (expected : ℕ) (name name' : Option Text) (topic topic' : Option (Option Text))
    (now now' : Time) (s s' : Session)
    → rename channel expected name topic now s ≡ (ok tt, s')
    → ((rename channel expected name' topic' now' s').0 ≢ ok tt)
      × ((rename channel expected name' topic' now' s').1 ≡ s')
unfolding rename
rename_again channel expected name none topic topic' now now' s s' h =
    let (checked, first) = rename-checked channel expected name topic now s s' h in
    let again =
      rename_checked_again channel expected checked none topic topic' now now' s s' first in
    (λ e. ground arith, ground arith)
rename_again channel expected name (some raw) topic topic' now now' s s' h =
    let (checked, first) = rename-checked channel expected name topic now s s' h in
    elim (Result-cases (validate_name raw)) [
      | inl (e, bad) ↦ rw (bad, rename) (λ e. cc, refl)
      | inr (text, good) ↦
          let again =
            rename_checked_again channel expected checked (some text) topic topic' now now' s s'
              first in
          rw (good, rename) (rw again (λ e. cc, refl))
    ]
