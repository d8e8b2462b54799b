-- ===== src/Messaging/Attachments.antt =====
-- src/services/messaging/messaging/attachments.py: the attachments of a message. `ClaimAnswer` is how
-- `AssetClient.claim` ends. A Problem's words are its constructor.
pub mod Claims
use claude_at_work_project.Prelude.{
  ℕ, suc, ◌+◌, Bool, true, false, not, Option, none, some, String, List, [], ◌∷◌, ◌++◌, ltb, ◌==◌,
  is_some, any, find, length, select, map, map_option, if◌then◌else◌, Result, ok, err,
}
use claude_at_work_project.Shared.Pagination.Ordered.{order_by}
use claude_at_work_project.Messaging.Models.{Uuid, Message}
use claude_at_work_project.Asset.Rules.{Refusal}

pub record AttachmentMeta : Type 0 where
  pub asset_id : Uuid
  pub file_name : List ℕ
  pub content_type : String
  pub size_bytes : ℕ

pub record MessageAttachment : Type 0 where
  pub message_id : Uuid
  pub position : ℕ
  pub meta : AttachmentMeta

-- The two exceptions of the rules, and the Problems of a claim.
pub data Error : Type 0 where
  too_many_attachments duplicate_attachment : Error
  conflict : Option Refusal → Error
  service_unavailable : Error

-- `set(ids)`
unfoldable pub set_of : List Uuid → List Uuid
set_of [] = []
set_of (id ∷ ids) = let rest = set_of ids in if any (λ x. x == id) ids then rest else id ∷ rest

unfoldable pub check_attachment_ids : List Uuid → (max_attachments : ℕ) → Result Error (Unit {0})
unfolding set_of
check_attachment_ids ids max_attachments =
    if ltb max_attachments (length ids)
    then err too_many_attachments
    else if not (length (set_of ids) == length ids)
    then err duplicate_attachment
    else ok tt

abbrev pub first_reason : List (Uuid × Refusal) → Option Refusal
first_reason [] = none
first_reason (r ∷ rs) = some r.1

-- The reason that the sentence is for; `none`, where there is none at all, raises StopIteration.
unfoldable pub refusal_detail : List (Uuid × Refusal) → List Uuid → Option Refusal
refusal_detail refusals [] = first_reason refusals
refusal_detail refusals (id ∷ order) =
    let rest = refusal_detail refusals order in
    elim (find (λ r. r.0 == id) refusals) [ none ↦ rest | some r ↦ some r.1 ]

unfoldable pub visible : {A : Type 0} → Message → List A → List A
visible m attachments = if is_some m.deleted_at then [] else attachments

unfoldable pub find_on :
    Message → List MessageAttachment → (asset_id : Uuid) → Option MessageAttachment
find_on m attachments asset_id =
    if is_some m.deleted_at then none else find (λ a. a.meta.asset_id == asset_id) attachments

-- `.order_by(message_id, position)`, of the rows of one message.
abbrev pub earlier : ℕ → ℕ → Bool
earlier a b = ltb a b

-- `for_messages`, as the entry of one of the messages asked for; one that has none is absent.
unfoldable pub of_message : List MessageAttachment → (message : Uuid) → List MessageAttachment
of_message rows message =
    order_by earlier (λ a. a.position) (select (λ a. a.message_id == message) rows)

abbrev pub numbered : (message position : ℕ) → List AttachmentMeta → List MessageAttachment
numbered message position [] = []
numbered message position (meta ∷ metas) =
    record { message_id = message; position = position; meta = meta }
    ∷ numbered message (suc position) metas

-- `add`: the rows after it.
unfoldable pub add :
    (message_id : Uuid) → List AttachmentMeta → List MessageAttachment → List MessageAttachment
add message_id metas rows = rows ++ numbered message_id 0 metas

pub data ClaimAnswer : Type 0 where
  items : List AttachmentMeta → ClaimAnswer
  refused : List (Uuid × Refusal) → ClaimAnswer
  unavailable : ClaimAnswer

unfoldable pub claim_for_send : ClaimAnswer → List Uuid → Result Error (List AttachmentMeta)
claim_for_send answer [] = ok []
claim_for_send (items metas) (id ∷ ids) = ok metas
claim_for_send (refused refusals) (id ∷ ids) = err (conflict (refusal_detail refusals (id ∷ ids)))
claim_for_send unavailable (id ∷ ids) = err service_unavailable
