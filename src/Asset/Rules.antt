-- ===== src/Asset/Rules.antt =====
-- src/services/asset/asset/rules.py and the row of models.py. A UUID and a time are numbers; a size
-- is a natural number, so a negative one, which the rules refuse as empty, is not written.
use text.Mathlib.Text.{◌==◌ as str_eq, starts_with}
use claude_at_work_project.Prelude.{
  ℕ, Bool, true, false, not, ◌||◌, Option, none, some, String, List, [], ◌∷◌, ltb, ◌==◌, any,
  length, if◌then◌else◌, Result, ok, err,
}

abbrev pub Uuid : Type 0
Uuid = ℕ

pub data Status : Type 0 where
  pending ready failed : Status

abbrev pub is_ready : Status → Bool
is_ready ready = true
is_ready _ = false

abbrev pub is_pending : Status → Bool
is_pending pending = true
is_pending _ = false

pub record Asset : Type 0 where
  pub id : Uuid
  pub workspace_id : Uuid
  pub owner_id : Uuid
  pub file_name : List ℕ
  pub content_type : String
  pub size_bytes : ℕ
  pub object_key : Uuid × Uuid
  pub status : Status
  pub failure_reason : Option String
  pub message_id : Option Uuid
  pub confirmed_at : Option ℕ
  pub claimed_at : Option ℕ
  pub deleted_at : Option ℕ

abbrev pub attachment_content_types : List String
attachment_content_types =
    "image/png" ∷ "image/jpeg" ∷ "image/gif" ∷ "image/webp" ∷ "application/pdf" ∷ []

abbrev pub max_file_name_chars : ℕ
max_file_name_chars = 255

-- The field that `UploadRuleError` is against.
pub data Field : Type 0 where
  purpose content_type size_bytes file_name : Field

unfoldable pub check_upload :
    (file_name : List ℕ) (content_type : String) (size_bytes : ℕ) (purpose : String) (max_bytes : ℕ)
    → Result Field (Unit {0})
check_upload name kind size use_for max_bytes =
    if not (str_eq use_for "attachment")
    then err Field.purpose
    else if not (any (λ t. str_eq kind t) attachment_content_types)
    then err Field.content_type
    else if ltb size 1
    then err Field.size_bytes
    else if ltb max_bytes size
    then err Field.size_bytes
    else if ltb (length name) 1 || ltb max_file_name_chars (length name)
    then err Field.file_name
    else ok tt

-- `{workspace_id}/attachment/{asset_id}`: the two ids, and nothing that a user chose.
abbrev pub object_key : (workspace asset : Uuid) → Uuid × Uuid
object_key workspace asset = (workspace, asset)

unfoldable pub confirm_outcome :
    (declared : ℕ) (stored : Option ℕ) (max_bytes : ℕ) → Status × Option String
confirm_outcome declared none max_bytes = (failed, some "The upload did not arrive.")
confirm_outcome declared (some stored) max_bytes =
    if not (stored == declared)
    then (failed, some "The file stored is not the size it was declared to be.")
    else if ltb max_bytes stored
    then (failed, some "Files must be 50 MB or smaller.")
    else (ready, none)

-- `ClaimRefusal`
pub data Refusal : Type 0 where
  not_found not_yours not_ready already_attached : Refusal

abbrev pub on_another : Option Uuid → Uuid → Bool
on_another none message = false
on_another (some m) message = not (m == message)

unfoldable pub claim_refusal : Option Asset → (workspace user message : Uuid) → Option Refusal
claim_refusal none workspace user message = some not_found
claim_refusal (some a) workspace user message =
    if not (a.workspace_id == workspace)
    then some not_found
    else if not (a.owner_id == user)
    then some not_yours
    else if not (is_ready a.status)
    then some not_ready
    else if on_another a.message_id message
    then some already_attached
    else none

-- `content_disposition`, without the percent-encoded name: inline or not.
unfoldable pub opens_inline : String → Bool
opens_inline kind = starts_with kind "image/"
