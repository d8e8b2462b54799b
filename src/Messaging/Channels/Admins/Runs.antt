-- ===== src/Messaging/Channels/Admins/Runs.antt =====
-- No sequence of writes leaves a channel without an admin.
use claude_at_work_project.Prelude.{ℕ, Option, []}
use claude_at_work_project.Messaging.Models.{Uuid, Time, Text, Kind, Role}
use claude_at_work_project.Messaging.Session.{Db, Session, commit, rollback}
use claude_at_work_project.Messaging.Dms
use claude_at_work_project.Messaging.Channels.Writes
use claude_at_work_project.Messaging.Channels.Admins.{IsGoverned, Governed}
use claude_at_work_project.Messaging.Channels.Admins.Operations.{
  create-Governed, rename-Governed, archive-Governed, add_member-Governed, remove_member-Governed,
  open_dm-Governed, IsFresh,
}

-- The writes to channels and members, and the two ends of a transaction.
pub data Step (s : Session) : Session → Type 0 where
  create :
      (id workspace creator : Uuid) (name : Text) (topic : Option Text) (kind : Kind) (now : Time)
      → Step s (Writes.create id workspace creator name topic kind now s).1
  rename :
      (channel : Uuid) (expected : ℕ) (name : Option Text) (topic : Option (Option Text))
      (now : Time)
      → Step s (Writes.rename channel expected name topic now s).1
  archive : (channel : Uuid) (now : Time) → Step s (Writes.archive channel now s).1
  add_member :
      (channel user : Uuid) (role : Role) → Step s (Writes.add_member channel user role s).1
  remove_member : (channel user : Uuid) → Step s (Writes.remove_member channel user s).1
  -- The new channel's id is one that no membership has.
  open_dm :
      (id workspace user other : Uuid) (now : Time)
      → IsFresh s id
      → Step s (Dms.open_dm id workspace user other now s).1
  end_commit : Step s (commit s)
  end_rollback : Step s (rollback s)

Step-Governed : {s t : Session} → Step s t → Governed s → Governed t
Step-Governed {s} (create id workspace creator name topic kind now) g =
    create-Governed id workspace creator name topic kind now s g
Step-Governed {s} (rename channel expected name topic now) g =
    rename-Governed channel expected name topic now s g
Step-Governed {s} (archive channel now) g = archive-Governed channel now s g
Step-Governed {s} (add_member channel user role) g = add_member-Governed channel user role s g
Step-Governed {s} (remove_member channel user) g = remove_member-Governed channel user s g
Step-Governed {s} (open_dm id workspace user other now fresh) g =
    open_dm-Governed id workspace user other now s fresh g
Step-Governed end_commit g = record { before = g.now; now = g.now }
Step-Governed end_rollback g = record { before = g.before; now = g.before }

pub data Run (s : Session) : Session → Type 0 where
  here : Run s s
  next : {t u : Session} → Run s t → Step t u → Run s u

Run-Governed_from : {s t : Session} → Run s t → Governed s → Governed t
Run-Governed_from here g = g
Run-Governed_from (next before step) g = Step-Governed step (Run-Governed_from before g)

abbrev pub empty_db : Db
empty_db = record { channels = []; members = []; reads = []; messages = []; reactions = [] }

abbrev pub empty : Session
empty = record { committed = empty_db; db = empty_db }

-- However channels are created, renamed and archived, people added and taken out, DMs opened (a new
-- one under an id that no membership has), and transactions committed or rolled back, from no rows
-- on: no person has two roles in a channel, and every channel that is no DM has an admin.
pub Run-IsGoverned : (t : Session) → Run empty t → IsGoverned t.db
Run-IsGoverned t run =
    (Run-Governed_from run (record {
      before = record { one_role = tt; administered = tt };
      now = record { one_role = tt; administered = tt };
    })).now
