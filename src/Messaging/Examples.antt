-- ===== src/Messaging/Examples.antt =====
-- The theorems about messaging at a workspace of two people with one channel and one message.
use claude_at_work_project.Prelude.{
  ◌≡◌, ◌≢◌, ◌↔◌, inr, arith, refl, true, false, none, some, [], ◌∷◌, ok,
}
use claude_at_work_project.Messaging.Models.{
  Text, heart, tada, unlisted, public, admin, Channel, Message,
}
use claude_at_work_project.Messaging.Session.{Db, Session}
use claude_at_work_project.Messaging.Names.{
  strip, lstrip, rstrip, is_space, check_name, validate_name,
}
use claude_at_work_project.Messaging.Names.Rules.{IsNamed, validate_name_ok}
use claude_at_work_project.Messaging.Dms.{pair_name, open_dm, open_named}
use claude_at_work_project.Messaging.Dms.Pairs.{open_dm_again}
use claude_at_work_project.Messaging.Channels.{role_in, sees, unread, get_visible}
use claude_at_work_project.Messaging.Channels.Writes
use claude_at_work_project.Messaging.Channels.Writes.{new_channel, rename, rename_checked}
use claude_at_work_project.Messaging.Channels.Admins.{IsGoverned}
use claude_at_work_project.Messaging.Channels.Admins.Runs.{empty, Run-IsGoverned}
use claude_at_work_project.Messaging.Channels.Admins.Runs
use claude_at_work_project.Messaging.Channels.Versions.{rename_again}
use claude_at_work_project.Messaging.Messages.{
  get, visible, validate_body, check_editable, check_deletable, new_message, create, edited, edit,
  edit_checked, DeleteResult, tombstone, delete, delete_checked,
}
use claude_at_work_project.Messaging.Messages.Edits.{IsEdited, edit_ok, edit_again}
use claude_at_work_project.Messaging.Messages.Deletes.{IsDeleted, delete_ok, delete_again}
use claude_at_work_project.Messaging.ReadState.{upsert, mark_read}
use claude_at_work_project.Messaging.ReadState.Forward.{
  MovesForward, mark_read-MovesForward, unread-mark_read,
}
use claude_at_work_project.Messaging.Reactions.{
  validate, group_row, group_rows, collect, summarise, summaries_for, add,
}
use claude_at_work_project.Messaging.Reactions.Tallies.{IsAdded, add-IsAdded}
use claude_at_work_project.Messaging.Threads.SingleLevel.{SingleLevel}
use claude_at_work_project.Messaging.Threads.Runs.{Run-SingleLevel}
use claude_at_work_project.Messaging.Threads.Runs as ThreadRuns

-- "plan", and "plan" with a space on each side.
abbrev plan_text : Text
plan_text = b'p' ∷ b'l' ∷ b'a' ∷ b'n' ∷ []

abbrev padded : Text
padded = 32 ∷ b'p' ∷ b'l' ∷ b'a' ∷ b'n' ∷ 32 ∷ []

abbrev channel_row : Channel
channel_row = new_channel 100 1 10 plan_text none public 5

abbrev first : Message
first = new_message 200 100 10 none padded 6

abbrev answer : Message
answer = new_message 201 100 11 (some 200) plan_text 7

abbrev rows : Db
rows = record {
  channels = channel_row ∷ [];
  members = (record { channel_id = 100; user_id = 10; role = admin }) ∷ [];
  reads = [];
  messages = answer ∷ first ∷ [];
  reactions = [];
}

abbrev session : Session
session = record { committed = rows; db = rows }

validate_name_ok_example : (validate_name padded ≡ ok plan_text) ↔ IsNamed padded plan_text
validate_name_ok_example = validate_name_ok padded plan_text

open_dm_again_example :
    (open_dm 102 1 11 10 6 (open_dm 101 1 10 11 5 session).1
      ≡ (ok 101, (open_dm 101 1 10 11 5 session).1))
    × (open_dm 102 1 10 11 6 (open_dm 101 1 10 11 5 session).1
        ≡ (ok 101, (open_dm 101 1 10 11 5 session).1))
open_dm_again_example =
    open_dm_again 101 102 1 10 11 5 6 session (open_dm 101 1 10 11 5 session).1 101
      (unfold open_dm open_named pair_name in refl)

Run-IsGoverned_example : IsGoverned (Writes.create 100 1 10 plan_text none public 5 empty).1.db
Run-IsGoverned_example =
    Run-IsGoverned (Writes.create 100 1 10 plan_text none public 5 empty).1
      (Runs.Run.next Runs.Run.here (Runs.Step.create 100 1 10 plan_text none public 5))

abbrev renamed_once : Session
renamed_once = (rename 100 0 (some plan_text) none 8 session).1

rename_again_example :
    ((rename 100 0 none (some none) 9 renamed_once).0 ≢ ok tt)
    × ((rename 100 0 none (some none) 9 renamed_once).1 ≡ renamed_once)
rename_again_example =
    rename_again 100 0 (some plan_text) none none (some none) 8 9 session renamed_once
      (unfold rename rename_checked validate_name check_name strip lstrip rstrip is_space in refl)

abbrev edited_once : Session
edited_once = (edit 1 10 200 plan_text 0 4000 8 session).1

edited-first :
    edit 1 10 200 plan_text 0 4000 8 session ≡ (ok (some (edited plan_text 8 first)), edited_once)
unfolding edit edit_checked visible get get_visible sees role_in check_editable validate_body strip
    lstrip rstrip is_space
edited-first = refl

edit_ok_example : IsEdited session 1 10 200 plan_text 0 8 (edited plan_text 8 first) edited_once
edit_ok_example =
    edit_ok 1 10 200 plan_text 0 4000 8 session edited_once (edited plan_text 8 first) edited-first

edit_again_example : edit 1 10 200 padded 0 4000 9 edited_once ≢ (ok (some first), edited_once)
edit_again_example =
    edit_again 1 10 10 200 plan_text padded 0 4000 8 9 session edited_once edited_once
      (edited plan_text 8 first) first edited-first

abbrev deleted_first : DeleteResult
deleted_first = record { message = tombstone 8 first; deleted_now = true }

abbrev deleted_once : Session
deleted_once = (delete 1 10 200 8 session).1

deleted_200 : delete 1 10 200 8 session ≡ (ok (some deleted_first), deleted_once)
unfolding delete delete_checked visible get get_visible sees role_in check_deletable
deleted_200 = refl

delete_ok_example : IsDeleted session 1 10 200 8 deleted_first deleted_once
delete_ok_example = delete_ok 1 10 200 8 session deleted_once deleted_first deleted_200

delete_again_example :
    delete 1 10 200 9 deleted_once
    ≡ (ok (some (record { message = tombstone 8 first; deleted_now = false })), deleted_once)
delete_again_example = delete_again 1 10 200 8 9 session deleted_once deleted_first deleted_200

mark_read-MovesForward_example :
    MovesForward 100 11 200 session (mark_read 1 11 100 200 8 session).1 (some true)
mark_read-MovesForward_example =
    mark_read-MovesForward 1 11 100 200 8 session (some true)
      (unfold mark_read upsert get get_visible sees role_in in refl)

-- The channel without the answer.
abbrev short : Session
short = record session { db = record rows { messages = first ∷ [] } }

unread-mark_read_example : unread (mark_read 1 11 100 200 8 short).1 100 11 ≡ 0
unread-mark_read_example =
    unread-mark_read 1 11 100 200 8 short
      (unfold mark_read upsert get get_visible sees role_in in refl) (inr (omega arith), tt)

single : SingleLevel session
unfolding get
single = record {
  rooted = (record { row = first; found = refl; top_level = refl; same_channel = refl }, (tt, tt));
}

Run-SingleLevel_example : SingleLevel (delete 1 10 200 8 session).1
Run-SingleLevel_example =
    Run-SingleLevel session (delete 1 10 200 8 session).1 single
      (ThreadRuns.Run.next ThreadRuns.Run.here (ThreadRuns.Step.delete_step 1 10 200 8))

abbrev replied : Session
replied = (create 202 100 10 plan_text 4000 (some 200) false 9 session).1

abbrev reacted : Session
reacted = record session {
  db = record rows { reactions = (record { message_id = 200; user_id = 11; emoji = heart }) ∷ [] };
}

add-IsAdded_example : IsAdded reacted (add 200 10 heart reacted) (201 ∷ 200 ∷ []) 200 10 heart
unfolding validate
add-IsAdded_example = add-IsAdded (201 ∷ 200 ∷ []) 200 10 heart reacted refl refl

-- Two people and two emoji, whatever the order of the rows; a retired emoji has no summary.
abbrev chips : Session
chips = record session {
  db = record rows {
    reactions =
        record { message_id = 200; user_id = 11; emoji = tada }
        ∷ (record { message_id = 200; user_id = 12; emoji = unlisted 4 })
        ∷ (record { message_id = 200; user_id = 11; emoji = heart })
        ∷ (record { message_id = 200; user_id = 10; emoji = heart })
        ∷ [];
  };
}

chips_summaries :
    summaries_for chips (200 ∷ []) 10 200
    ≡ record { emoji = heart; total = 2; reacted = true }
      ∷ (record { emoji = tada; total = 1; reacted = false })
      ∷ []
unfolding summaries_for summarise collect group_rows group_row
chips_summaries = refl
