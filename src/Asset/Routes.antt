-- ===== src/Asset/Routes.antt =====
-- src/services/asset/asset/routers: what each route does to the rows. The object store is outside:
-- `stored` is what its `head` answered, and signed URLs are not modelled.
use claude_at_work_project.Prelude.{
  ℕ, Bool, not, ◌&&◌, Option, none, some, String, List, [], ◌∷◌, ◌==◌, is_some, is_some_eq, any,
  find, map, update_where, if◌then◌else◌, ok, err, Exec,
}
use claude_at_work_project.Asset.Rules.{
  Uuid, Status, pending, is_pending, is_ready, Asset, Field, check_upload, object_key,
  confirm_outcome, Refusal, claim_refusal,
}

-- The rows of `assets`.
abbrev pub Store : Type 0
Store = List Asset

-- The Problems that the routes raise.
pub data Problem : Type 0 where
  validation_error : Field → Problem
  not_found : Problem
  service_unavailable : Problem
  conflict : List (Uuid × Refusal) → Problem

abbrev pub Action : Type 0 → Type 0
Action A = Exec Problem Store A

abbrev pub new_asset :
    (id workspace owner : Uuid) (file_name : List ℕ) (content_type : String) (size_bytes : ℕ)
    → Asset
new_asset id workspace owner file_name content_type size_bytes = record {
  id = id;
  workspace_id = workspace;
  owner_id = owner;
  file_name = file_name;
  content_type = content_type;
  size_bytes = size_bytes;
  object_key = object_key workspace id;
  status = pending;
  failure_reason = none;
  message_id = none;
  confirmed_at = none;
  claimed_at = none;
  deleted_at = none;
}

-- `request_upload_url`: the row that is reserved.
unfoldable pub request_upload_url :
    (id workspace owner : Uuid) (file_name : List ℕ) (content_type : String) (size_bytes : ℕ)
    (purpose : String) (max_bytes : ℕ)
    → Action Asset
request_upload_url id workspace owner file_name content_type size_bytes purpose max_bytes s =
    elim (check_upload file_name content_type size_bytes purpose max_bytes) [
      | err field ↦ (err (validation_error field), s)
      | ok _ ↦
          let a = new_asset id workspace owner file_name content_type size_bytes in (ok a, a ∷ s)
    ]

-- What `head` of the object store answers: unreachable, or the size that is there, if any.
pub data Head : Type 0 where
  unreachable : Head
  holds : Option ℕ → Head

abbrev pub is_own : (id workspace user : Uuid) → Asset → Bool
is_own id workspace user a =
    (a.id == id && a.workspace_id == workspace)
    && (a.owner_id == user && not (is_some a.deleted_at))

-- The `UPDATE` guarded on `pending`.
abbrev pub is_pending_row : Uuid → Asset → Bool
is_pending_row id a = a.id == id && is_pending a.status

abbrev pub confirmed : Status × Option String → ℕ → Asset → Asset
confirmed outcome now a = record a {
  status = outcome.0;
  failure_reason = outcome.1;
  confirmed_at = some now;
}

abbrev pub settle : Asset → Head → (max_bytes now : ℕ) → Action Asset
settle a unreachable max_bytes now s = (err service_unavailable, s)
settle a (holds stored) max_bytes now s =
    let write = confirmed (confirm_outcome a.size_bytes stored max_bytes) now in
    (ok (write a), update_where (is_pending_row a.id) write s)

unfoldable pub confirm_upload :
    (id workspace user : Uuid) → Head → (max_bytes now : ℕ) → Action Asset
confirm_upload id workspace user head max_bytes now s = elim (find (is_own id workspace user) s) [
  | none ↦ (err not_found, s)
  | some a ↦ if not (is_pending a.status) then (ok a, s) else settle a head max_bytes now s
]

-- `by_id.get(asset_id)`: the row, unless it is deleted.
unfoldable pub row : Store → Uuid → Option Asset
row s id = find (λ a. a.id == id && not (is_some a.deleted_at)) s

-- The loop over the ids that collects the refusals. The ids are `dict.fromkeys`: a repeat of an id
-- says the same again, so the repeats are left in.
unfoldable pub refusals :
    Store → (workspace user message : Uuid) → List Uuid → List (Uuid × Refusal)
refusals s workspace user message [] = []
refusals s workspace user message (id ∷ ids) =
    let rest = refusals s workspace user message ids in
    elim (claim_refusal (row s id) workspace user message) [ none ↦ rest | some r ↦ (id, r) ∷ rest ]

abbrev pub is_claimable : List Uuid → Asset → Bool
is_claimable ids a = any (λ id. id == a.id) ids && not (is_some a.message_id)

abbrev pub claimed : (message now : ℕ) → Asset → Asset
claimed message now a = record a { message_id = some message; claimed_at = some now }

abbrev pub settle_claim :
    (message now : ℕ) → List Uuid → List (Uuid × Refusal) → Action (List (Option Asset))
settle_claim message now ids [] s =
    (ok (map (row s) ids), update_where (is_claimable ids) (claimed message now) s)
settle_claim message now ids (r ∷ rs) s = (err (conflict (r ∷ rs)), s)

-- `claim_assets`: the rows are locked for the whole of it, so it is one step.
unfoldable pub claim_assets :
    (workspace user message now : ℕ) → List Uuid → Action (List (Option Asset))
claim_assets workspace user message now ids s =
    settle_claim message now ids (refusals s workspace user message ids) s

abbrev pub is_downloadable : (id workspace message : Uuid) → Asset → Bool
is_downloadable id workspace message a =
    (a.id == id && a.workspace_id == workspace)
    && ((is_some_eq a.message_id message && is_ready a.status) && not (is_some a.deleted_at))

-- `download_url`: the row that a URL is signed for.
unfoldable pub download_url : (id workspace message : Uuid) → Action Asset
download_url id workspace message s = elim (find (is_downloadable id workspace message) s) [
  | none ↦ (err not_found, s)
  | some a ↦ (ok a, s)
]
