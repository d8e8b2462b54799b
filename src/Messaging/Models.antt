-- ===== src/Messaging/Models.antt =====
-- src/services/messaging/messaging/models.py: the rows. A UUID is its 128-bit integer, by which
-- Python and PostgreSQL both compare it; a timestamp is a number. Columns without behaviour here
-- (`topic` aside) are kept.
use claude_at_work_project.Prelude.{ℕ, Bool, true, false, Option, List, [], ◌∷◌, ◌==◌, ◌&&◌}

abbrev pub Uuid : Type 0
Uuid = ℕ

abbrev pub Time : Type 0
Time = ℕ

-- Text that the code walks: its code points.
abbrev pub Text : Type 0
Text = List ℕ

-- `channels.kind`; a request may also name a kind that is none of the three.
pub data Kind : Type 0 where
  public private dm unknown : Kind

pub data Role : Type 0 where
  admin member : Role

abbrev pub is_public : Kind → Bool
is_public public = true
is_public _ = false

abbrev pub is_dm : Kind → Bool
is_dm dm = true
is_dm _ = false

abbrev pub is_admin_role : Role → Bool
is_admin_role admin = true
is_admin_role member = false

-- `channels.name`: a name that a person typed, or the pair key `dm:{low}:{high}` of a DM, which its
-- two ids determine and are read back from.
pub data Name : Type 0 where
  typed : Text → Name
  pair_key : (low high : Uuid) → Name

-- The comparison of two texts, and of two names.
abbrev pub same_text : Text → Text → Bool
same_text [] [] = true
same_text (a ∷ as') (b ∷ bs) = a == b && same_text as' bs
same_text _ _ = false

abbrev pub same_name : Name → Name → Bool
same_name (typed a) (typed b) = same_text a b
same_name (pair_key a b) (pair_key c d) = a == c && b == d
same_name _ _ = false

pub record Channel : Type 0 where
  pub id : Uuid
  pub workspace_id : Uuid
  pub name : Name
  pub topic : Option Text
  pub kind : Kind
  pub created_by : Uuid
  pub updated_at : Time
  pub archived_at : Option Time
  pub version : ℕ

pub record ChannelMember : Type 0 where
  pub channel_id : Uuid
  pub user_id : Uuid
  pub role : Role

pub record ChannelRead : Type 0 where
  pub channel_id : Uuid
  pub user_id : Uuid
  pub last_read_id : Uuid
  pub updated_at : Time

pub record Message : Type 0 where
  pub id : Uuid
  pub channel_id : Uuid
  pub author_id : Uuid
  pub thread_root_id : Option Uuid
  pub body : Text
  pub created_at : Time
  pub edited_at : Option Time
  pub deleted_at : Option Time
  pub version : ℕ

-- `reactions.emoji`: one of `REACTION_EMOJI`, or a text that is none of them.
pub data Emoji : Type 0 where
  thumbsup heart tada smile eyes check : Emoji
  unlisted : ℕ → Emoji

pub record Reaction : Type 0 where
  pub message_id : Uuid
  pub user_id : Uuid
  pub emoji : Emoji

-- The primary key of `channel_members` and of `channel_reads`.
abbrev pub is_member_row : (channel user : Uuid) → ChannelMember → Bool
is_member_row channel user m = m.channel_id == channel && m.user_id == user

abbrev pub same_member : ChannelMember → ChannelMember → Bool
same_member a b = is_member_row a.channel_id a.user_id b

abbrev pub is_read_row : (channel user : Uuid) → ChannelRead → Bool
is_read_row channel user r = r.channel_id == channel && r.user_id == user
