-- ===== src/Messaging/Channels/Admins/Operations.antt =====
-- Each write to channels and members keeps an admin in every channel that can have one.
use claude_at_work_project.Prelude.{
  ℕ, ◌≡◌, refl, inl, inr, Bool, false, not, ◌&&◌, Option, none, some, List, [], ◌∷◌, arith, ◌==◌,
  ==_refl, any, find, update_where, subst, Unique-select, Apart-any, All-map, All-update_where,
  Option-cases, Result-cases, Bool-cases, ok,
}
use claude_at_work_project.Messaging.Models.{
  Uuid, Time, Text, Name, Kind, Role, admin, member, is_admin_role, Channel, ChannelMember,
  same_member,
}
use claude_at_work_project.Messaging.Session.{Db, Session}
use claude_at_work_project.Messaging.Names.{validate_name}
use claude_at_work_project.Messaging.Dms.{pair_name, is_dm_of, new_member, open_named, open_dm}
use claude_at_work_project.Messaging.Channels.{role_in, count_admins}
use claude_at_work_project.Messaging.Channels.Writes.{
  validate_kind, name_clash, insert_channel, insert_member, flush_new, new_channel, create,
  create_checked, is_version, rename, renamed, rename_checked, archive, put_away, add_member,
  remove_member,
}
use claude_at_work_project.Messaging.Channels.Admins.{
  IsGoverned, Governed, HasAdmin-cons, IsGoverned-insert_member, HasAdmin-without,
}

abbrev creator_row : Channel → ChannelMember
creator_row c = record { channel_id = c.id; user_id = c.created_by; role = admin }

IsGoverned-flush_new :
    (c : Channel) (db db' : Db)
    → IsGoverned db
    → flush_new c (creator_row c) db ≡ some db'
    → IsGoverned db'
unfolding flush_new insert_channel insert_member
IsGoverned-flush_new c db db' g h =
    elim (Bool-cases (any (same_member (creator_row c)) db.members)) [
      | inl clash ↦ absurd (ground arith)
      | inr free ↦
          let members = creator_row c ∷ db.members in
          subst IsGoverned
            (let e : record db { channels = c ∷ db.channels; members = members } ≡ db' =
                ground arith in
              e)
            (record {
              one_role = (Apart-any same_member (creator_row c) db.members free, g.one_role);
              administered = (
                inr (ground (arith, ==_refl c.id)),
                All-map db.channels (HasAdmin-cons (creator_row c) db.members) g.administered,
              );
            })
    ]

create_checked-Governed : (c : Channel) (s : Session) → Governed s → Governed (create_checked c s).1
unfolding create_checked
create_checked-Governed c s g = elim (Option-cases (flush_new c (creator_row c) s.db)) [
  | inl e ↦ rw (e, create_checked) (record { before = g.before; now = g.before })
  | inr (db, e) ↦
      rw (e, create_checked)
        (record { before = g.before; now = IsGoverned-flush_new c s.db db g.now e })
]

pub create-Governed :
    (id workspace creator : Uuid) (name : Text) (topic : Option Text) (kind : Kind) (now : Time)
    (s : Session)
    → Governed s
    → Governed (create id workspace creator name topic kind now s).1
unfolding create
create-Governed id workspace creator name topic kind now s g =
    elim (Result-cases (validate_name name)) [
      | inl (e, h) ↦ rw (h, create) g
      | inr (text, h) ↦ elim (Result-cases (validate_kind kind)) [
        | inl (e, k) ↦ rw (h, k, create) g
        | inr (kind', k) ↦
            rw (h, k, create)
              (create_checked-Governed (new_channel id workspace creator text topic kind' now) s g)
      ]
    ]

-- A write to channels that leaves their ids and kinds alone.
IsGoverned-update :
    (q : Channel → Bool) (f : Channel → Channel) (db : Db)
    → ((c : Channel) → (f c).id ≡ c.id)
    → ((c : Channel) → (f c).kind ≡ c.kind)
    → IsGoverned db
    → IsGoverned (record db { channels = update_where q f db.channels })
IsGoverned-update q f db same_id same_kind g = record {
  one_role = g.one_role;
  administered =
      All-update_where q f db.channels (λ c h. rw (same_id c, same_kind c) h) g.administered;
}

rename_checked-Governed :
    (channel : Uuid) (expected : ℕ) (name : Option Text) (topic : Option (Option Text)) (now : Time)
    (s : Session)
    → Governed s
    → Governed (rename_checked channel expected name topic now s).1
unfolding rename_checked
rename_checked-Governed channel expected name topic now s g =
    elim (Option-cases (find (is_version channel expected) s.channels)) [
      | inl e ↦ rw (e, rename_checked) g
      | inr (c, e) ↦
          elim (Bool-cases (
            any (λ d. not (d.id == channel) && name_clash (renamed name topic now c) d)
              s.channels)) [
                | inl clash ↦
                    rw (e, clash, rename_checked) (record { before = g.before; now = g.before })
                | inr free ↦
                    rw (e, free, rename_checked)
                      (record {
                        before = g.before;
                        now =
                            IsGoverned-update (is_version channel expected) (renamed name topic now)
                              s.db (λ c. refl) (λ c. refl) g.now;
                      })
              ]
    ]

pub rename-Governed :
    (channel : Uuid) (expected : ℕ) (name : Option Text) (topic : Option (Option Text)) (now : Time)
    (s : Session)
    → Governed s
    → Governed (rename channel expected name topic now s).1
unfolding rename
rename-Governed channel expected none topic now s g =
    rename_checked-Governed channel expected none topic now s g
rename-Governed channel expected (some raw) topic now s g =
    elim (Result-cases (validate_name raw)) [
      | inl (e, h) ↦ rw (h, rename) g
      | inr (text, h) ↦
          rw (h, rename) (rename_checked-Governed channel expected (some text) topic now s g)
    ]

pub archive-Governed :
    (channel : Uuid) (now : Time) (s : Session) → Governed s → Governed (archive channel now s).1
unfolding archive
archive-Governed channel now s g = record {
  before = g.before;
  now = IsGoverned-update (λ c. c.id == channel) (put_away now) s.db (λ c. refl) (λ c. refl) g.now;
}

pub add_member-Governed :
    (channel user : Uuid) (role : Role) (s : Session)
    → Governed s
    → Governed (add_member channel user role s).1
unfolding add_member
add_member-Governed channel user role s g =
    let m : ChannelMember = record { channel_id = channel; user_id = user; role = role } in
    elim (Option-cases (insert_member m s.db)) [
      | inl e ↦ rw (e, add_member) (record { before = g.before; now = g.before })
      | inr (db, e) ↦
          rw (e, add_member)
            (record { before = g.before; now = IsGoverned-insert_member m s.db db g.now e })
    ]

pub remove_member-Governed :
    (channel user : Uuid) (s : Session) → Governed s → Governed (remove_member channel user s).1
unfolding remove_member
remove_member-Governed channel user s g = elim (Option-cases (role_in s channel user)) [
  | inl e ↦ rw (e, remove_member) g
  | inr (role, e) ↦ elim (Bool-cases (is_admin_role role && count_admins s channel == 1)) [
    | inl last ↦ rw (e, last, remove_member) g
    | inr many ↦
        rw (e, many, remove_member)
          (record {
            before = g.before;
            now = record {
              one_role = Unique-select same_member _ s.members g.now.one_role;
              administered =
                  All-map s.channels
                    (λ c h. HasAdmin-without s channel user role c g.now.one_role e many h)
                    g.now.administered;
            };
          })
  ]
]

-- No row of `channel_members` names the new id.
abbrev pub IsFresh : Session → Uuid → Type 0
IsFresh s id = any (λ m. m.channel_id == id) s.members ≡ false

any-same_member :
    (id user : Uuid) (role : Role) (ms : List ChannelMember)
    → any (λ m. m.channel_id == id) ms ≡ false
    → any (same_member (new_member id user role)) ms ≡ false
any-same_member id user role [] h = refl
any-same_member id user role (m ∷ ms) h = ground (arith, any-same_member id user role ms)

open_named-Governed :
    (id workspace user other : Uuid) (name : Name) (now : Time) (s : Session)
    → (user == other) ≡ false
    → IsFresh s id
    → Governed s
    → Governed (open_named id workspace user other name now s).1
unfolding open_named
open_named-Governed id workspace user other name now s ne fresh g =
    elim (Option-cases (find (is_dm_of workspace name) s.channels)) [
      | inr (c, e) ↦ rw (e, open_named) g
      | inl e ↦
          rw (e, open_named)
            (record {
              before = g.before;
              now = record {
                one_role = (
                  (
                    ground arith,
                    Apart-any same_member (new_member id user member) s.members
                        (any-same_member id user member s.members fresh),
                  ),
                  (
                    Apart-any same_member (new_member id other member) s.members
                        (any-same_member id other member s.members fresh),
                    g.now.one_role,
                  ),
                );
                administered = (
                  inl refl,
                  All-map s.channels
                      (λ c h.
                        HasAdmin-cons (new_member id user member)
                          (new_member id other member ∷ s.members) c
                          (HasAdmin-cons (new_member id other member) s.members c h))
                      g.now.administered,
                );
              };
            })
    ]

pair_name_ne : (a b : Uuid) (name : Name) → pair_name a b ≡ ok name → (a == b) ≡ false
unfolding pair_name
pair_name_ne a b name h = ground arith

pub open_dm-Governed :
    (id workspace user other : Uuid) (now : Time) (s : Session)
    → IsFresh s id
    → Governed s
    → Governed (open_dm id workspace user other now s).1
unfolding open_dm
open_dm-Governed id workspace user other now s fresh g =
    elim (Result-cases (pair_name user other)) [
      | inl (e, h) ↦ rw (h, open_dm) g
      | inr (name, h) ↦
          rw (h, open_dm)
            (open_named-Governed id workspace user other name now s (pair_name_ne user other name h)
              fresh g)
    ]
