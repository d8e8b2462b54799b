-- ===== src/Auth/Examples.antt =====
-- The theorems about accounts at one workspace of two people, one of whom is signed in.
use claude_at_work_project.Prelude.{
  map, false, Unique, is_some, ◌&&◌, any, ℕ, ◌+◌, ◌≡◌, refl, arith, none, some, List, [], ◌∷◌, ◌==◌,
  find, count, ok,
}
use claude_at_work_project.Auth.Rows.{
  is_member_row, owner, member, User, Workspace, WorkspaceMember, RefreshToken, Db,
}
use claude_at_work_project.Auth.Identities.{find_user, membership, remove_member}
use claude_at_work_project.Auth.Identities.Owners.{IsOwned, Run-IsOwned}
use claude_at_work_project.Auth.Identities.Owners as OwnerRuns
use claude_at_work_project.Auth.Members.{seated_before, find_member}
use claude_at_work_project.Auth.Members.Listing.{find_member_lem}
use claude_at_work_project.Shared.Pagination.Ordered.{order_by}
use claude_at_work_project.Auth.Names.{Text, Unicode, NameRow, name_key, dedupe}
use claude_at_work_project.Auth.Names.Candidates.{KeysDiffer}
use claude_at_work_project.Auth.Names.Suffixes.{candidate-differ}
use claude_at_work_project.Auth.Names.Dedupe.{keys_of, dedupe-Unique}
use claude_at_work_project.Messaging.Models.{same_text}
use claude_at_work_project.Auth.Sessions.{
  get, new_row, retire, is_live_in, revoke_descendants, revoke_workspace_sessions, find_token,
  issue, spend, rotate,
}
use claude_at_work_project.Auth.Sessions.Walk.{link, dead, Chain}
use claude_at_work_project.Auth.Sessions.Swept.{IsRevoked, revoke_descendants-IsRevoked}
use claude_at_work_project.Auth.Sessions.Workspaces.{revoke_workspace_sessions_lem}
use claude_at_work_project.Auth.Routes.{next_membership, refresh}
use claude_at_work_project.Auth.Routes.Runs.{Run, Step, Run-live}
use claude_at_work_project.Auth.Routes.Replay.{IsCut, refresh-IsCut}
use claude_at_work_project.Auth.Routes.Exchange.{IsExchanged, refresh-exchanges}

abbrev digest : ℕ → ℕ
digest token = token + 1000

abbrev ada : User
ada = record { id = 1; email = 11; deleted_at = none }

abbrev ben : User
ben = record { id = 2; email = 12; deleted_at = none }

abbrev studio : Workspace
studio = record { id = 7; name = 70 }

abbrev ada_member : WorkspaceMember
ada_member = record { workspace_id = 7; user_id = 1; role = owner; joined_at = 0 }

abbrev ben_member : WorkspaceMember
ben_member = record { workspace_id = 7; user_id = 2; role = member; joined_at = 5 }

abbrev start : Db
start = record {
  users = ada ∷ (ben ∷ []);
  workspaces = studio ∷ [];
  members = ada_member ∷ (ben_member ∷ []);
  tokens = [];
}

-- Ada's first token, and one that replaced it.
abbrev first : RefreshToken
first = new_row 21 1 7 (digest 31) 100 30

abbrev signed_in : Db
signed_in = record start { tokens = first ∷ [] }

abbrev rotated : List RefreshToken
rotated = new_row 22 1 7 (digest 32) 110 30 ∷ (retire 22 110 first ∷ [])

abbrev refreshed : Db
refreshed = record start { tokens = rotated }

abbrev first_live : ℕ
first_live = 22

sign_in-Run : Run digest 30 start signed_in
unfolding issue
sign_in-Run = Run.next Run.here (Step.sign_in 21 31 1 7 100)

refresh-Run : Run digest 30 start refreshed
unfolding refresh spend find_token issue find_user membership rotate
refresh-Run = Run.next sign_in-Run (Step.refreshes 31 22 32 110)

revoke_descendants-IsRevoked_example :
    (rows : List RefreshToken) × (revoke_descendants 120 (retire 22 110 first) rotated ≡ some rows)
    × IsRevoked 21 rotated rows
unfolding get
revoke_descendants-IsRevoked_example =
    revoke_descendants-IsRevoked 120 rotated (retire 22 110 first) refl

to_new : Chain rotated 21 22
unfolding link get
to_new = Chain.next Chain.here refl

Run-live_example : first_live ≡ 22
unfolding dead get
Run-live_example =
    Run-live digest 30 start refreshed 21 22 22 refl refresh-Run to_new to_new refl refl

refresh-IsCut_example :
    (r : RefreshToken) × (find
        (λ x. x.token_hash == digest 31)
        (refresh digest 30 31 22 32 110 signed_in).1.tokens
      ≡ some r)
    × IsCut r
        (refresh digest 30 31 22 32 110 signed_in).1
        (refresh digest 30 31 23 33 120 (refresh digest 30 31 22 32 110 signed_in).1).0
        (refresh digest 30 31 23 33 120 (refresh digest 30 31 22 32 110 signed_in).1).1
unfolding refresh spend find_token find_user membership rotate
refresh-IsCut_example =
    refresh-IsCut digest 30 31 22 32 110 23 33 120 start signed_in
      (refresh digest 30 31 22 32 110 signed_in).1 refl sign_in-Run refl Run.here

refresh-exchanges_example :
    ((refresh digest 30 31 22 32 110 signed_in).0 ≡ ok tt)
    × IsExchanged digest first 30 31 22 32 7 110 signed_in
        (refresh digest 30 31 22 32 110 signed_in).1
unfolding find_token find_user membership next_membership
refresh-exchanges_example =
    refresh-exchanges digest 30 31 22 32 110 signed_in first ada
      (record { workspace = studio; role = owner }) refl refl refl (omega arith) refl refl refl

revoke_workspace_sessions_lem_example :
    ((revoke_workspace_sessions 1 7 130 refreshed).0 ≡ count (is_live_in 1 7) rotated)
    × (count (is_live_in 1 7) (revoke_workspace_sessions 1 7 130 refreshed).1.tokens ≡ 0)
    × (count (is_live_in 1 8) (revoke_workspace_sessions 1 7 130 refreshed).1.tokens
        ≡ count (is_live_in 1 8) rotated)
revoke_workspace_sessions_lem_example = revoke_workspace_sessions_lem 1 7 1 8 130 refreshed refl

-- Ben is made an owner, and Ada removed.
Run-IsOwned_example : IsOwned 7 (remove_member 7 1 start).1
Run-IsOwned_example =
    Run-IsOwned 7 start (remove_member 7 1 start).1
      (OwnerRuns.Run.next OwnerRuns.Run.here (OwnerRuns.Step.removes 7 1))
      (record { one_role = ((refl, tt), (tt, tt)); owned = omega arith })

find_member_lem_example :
    is_some (find_member start 7 2)
    ≡ (is_some (find_user start 2) && any (is_member_row 2 7) start.members)
find_member_lem_example = find_member_lem start 7 2

-- Names of plain lower-case letters: there is nothing to fold or to compose.
abbrev plain : Unicode
plain = record {
  nfc = λ t. t;
  nfd = λ t. t;
  casefold = λ t. t;
  strip = λ t. t;
  is_refused_category = λ c. false;
}

plain-KeysDiffer : (base : Text) → KeysDiffer plain base
unfolding name_key
plain-KeysDiffer base i j same = candidate-differ base i j same

-- "sam" twice, and a newer "sam 2".
abbrev sams : List NameRow
sams =
    record { id = 1; created_at = 5; display_name = b's' ∷ (b'a' ∷ (b'm' ∷ [])); email = [] }
    ∷ (record { id = 2; created_at = 6; display_name = b's' ∷ (b'a' ∷ (b'm' ∷ [])); email = [] }
        ∷ (record {
          id = 3;
          created_at = 7;
          display_name = b's' ∷ (b'a' ∷ (b'm' ∷ (32 ∷ (b'2' ∷ []))));
          email = [];
        }
            ∷ []))

dedupe-Unique_example :
    (names : List (ℕ × Text)) × (dedupe plain sams ≡ some names)
    × (map (λ n. n.0) names
        ≡ map
            (λ (r : NameRow). r.id)
            (order_by seated_before (λ (r : NameRow). (r.created_at, r.id)) sams))
    × Unique same_text (keys_of plain names)
dedupe-Unique_example = dedupe-Unique plain sams plain-KeysDiffer
