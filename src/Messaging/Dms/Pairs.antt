-- ===== src/Messaging/Dms/Pairs.antt =====
-- One DM for two people, whoever opens it.
use claude_at_work_project.Prelude.{
  ◌≡◌, ◌≢◌, true, some, arith, find, Option-cases, Result-cases, ==_refl, inl, inr, ok,
}
use claude_at_work_project.Messaging.Models.{Uuid, Time, Name, same_name, dm, Channel}
use claude_at_work_project.Messaging.Session.{Session}
use claude_at_work_project.Messaging.Dms.{pair_name, partner_of, is_dm_of, open_named, open_dm}

-- The key does not depend on who is named first.
pub pair_name_comm : (a b : Uuid) → pair_name a b ≡ pair_name b a
unfolding pair_name
pair_name_comm a b = ground arith

-- A channel named for two different people is a DM in which each is the other's partner.
pub partner_of-pair_name :
    (a b : Uuid) (c : Channel)
    → a ≢ b
    → c.kind ≡ dm
    → pair_name a b ≡ ok c.name
    → (partner_of c a ≡ some b) × (partner_of c b ≡ some a)
unfolding pair_name partner_of
partner_of-pair_name a b c ne k h = (ground arith, ground arith)

same_name-pair_name :
    (a b : Uuid) (name : Name) → pair_name a b ≡ ok name → same_name name name ≡ true
unfolding pair_name
same_name-pair_name a b name h = ground arith

open_named_again :
    (id id' workspace user other user' other' : Uuid) (name : Name) (now now' : Time)
    (s s' : Session) (channel : Uuid)
    → same_name name name ≡ true
    → open_named id workspace user other name now s ≡ (ok channel, s')
    → open_named id' workspace user' other' name now' s' ≡ (ok channel, s')
unfolding open_named
open_named_again id id' workspace user other user' other' name now now' s s' channel key h =
    elim (Option-cases (find (is_dm_of workspace name) s.channels)) [
      | inr (c, e) ↦ ground arith
      | inl e ↦ ground (arith, ==_refl workspace)
    ]

-- Opening the DM again, from either side, in the same workspace, finds the channel that the first
-- call returned, and writes nothing.
pub open_dm_again :
    (id id' workspace user other : Uuid) (now now' : Time) (s s' : Session) (channel : Uuid)
    → open_dm id workspace user other now s ≡ (ok channel, s')
    → (open_dm id' workspace other user now' s' ≡ (ok channel, s'))
      × (open_dm id' workspace user other now' s' ≡ (ok channel, s'))
unfolding open_dm
open_dm_again id id' workspace user other now now' s s' channel h =
    elim (Result-cases (pair_name user other)) [
      | inl (e, raised) ↦ absurd (cc (rw (raised, open_dm) at h))
      | inr (name, named) ↦
          let first = rw (named, open_dm) at h in
          let key = same_name-pair_name user other name named in
          (
            rw (pair_name_comm other user, named, open_dm)
                (open_named_again id id' workspace user other other user name now now' s s' channel
                  key first),
            rw (named, open_dm)
                (open_named_again id id' workspace user other user other name now now' s s' channel
                  key first),
          )
    ]
