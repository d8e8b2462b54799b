-- ===== src/Messaging/Channels/Visibility.antt =====
-- Who sees a channel: the one rule that every read and write goes through.
use claude_at_work_project.Prelude.{
  ◌≡◌, ◌↔◌, ◌⊎◌, refl, Bool, true, ◌&&◌, none, some, List, [], ◌∷◌, arith, ◌==◌, is_some,
  if◌then◌else◌, find-Unique, find, any, select, map, map_option, Unique,
}
use claude_at_work_project.Messaging.Models.{Uuid, public, Channel}
use claude_at_work_project.Messaging.Session.{Session}
use claude_at_work_project.Messaging.Channels.{
  is_member, sees, visible_from, get_visible, visible_ids,
}

-- What the rule asks of a channel: it is in the caller's workspace, it is not archived, and it is
-- public or the caller has a membership in it.
pub record MaySee (s : Session) (workspace user : Uuid) (c : Channel) : Type 0 where
  pub same_workspace : c.workspace_id ≡ workspace
  pub kept : c.archived_at ≡ none
  pub open_to : (c.kind ≡ public) ⊎ (is_member s c.id user ≡ true)

-- The `WHERE` that reads and writes go through holds of a channel exactly if the caller may see it.
pub sees_iff :
    (s : Session) (workspace user : Uuid) (c : Channel)
    → (sees s workspace user c ≡ true) ↔ MaySee s workspace user c
unfolding sees is_member
sees_iff s workspace user c = (λ h. ground arith, λ h. ground arith)

abbrev pub same_id : Channel → Channel → Bool
same_id a b = a.id == b.id

-- With one row to an id, `get_visible` answers with the row of that id, if the caller sees it, and
-- the same `None` where the caller does not see it as where there is no such row.
pub get_visible_lem :
    (s : Session) (workspace user channel : Uuid)
    → Unique same_id s.channels
    → get_visible s workspace user channel ≡ elim (find (λ c. c.id == channel) s.channels) [
      | none ↦ none
      | some c ↦ if sees s workspace user c then some (visible_from s user c) else none
    ]
unfolding get_visible
get_visible_lem s workspace user channel one =
    let key =
      find-Unique same_id (sees s workspace user) (λ c. c.id == channel) s.channels
        (λ x y h k. ground arith) one in
    rw key (ground arith)

-- The ids that search filters by are the ids of the channels that `get_visible` shows.
pub visible_ids_lem :
    (s : Session) (workspace user channel : Uuid)
    → any (λ id. id == channel) (visible_ids s workspace user)
      ≡ is_some (get_visible s workspace user channel)
unfolding visible_ids get_visible
visible_ids_lem s workspace user channel = go s.channels
  where
    go :
        (cs : List Channel)
        → any (λ id. id == channel) (map (λ c. c.id) (select (sees s workspace user) cs))
          ≡ is_some (
              map_option
                (visible_from s user)
                (find (λ c. sees s workspace user c && c.id == channel) cs))
    go [] = refl
    go (c ∷ cs) = ground (arith, go cs)
