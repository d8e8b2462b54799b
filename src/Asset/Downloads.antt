-- ===== src/Asset/Downloads.antt =====
-- What is claimed for a message can be downloaded from that message.
use claude_at_work_project.Prelude.{
  ◌≡◌, inl, inr, not, ◌&&◌, Option, some, List, [], ◌∷◌, arith, ◌==◌, ==_refl, is_some, find, All,
  All-map, Bool-cases, ok,
}
use claude_at_work_project.Asset.Rules.{Uuid, ready, Asset}
use claude_at_work_project.Asset.Routes.{Store, row, is_downloadable, claim_assets, download_url}
use claude_at_work_project.Asset.Claims.{IsOn, claim_assets_ok}

-- The row that an id finds is the one that is downloadable, if it is ready and on the message.
find-downloadable :
    (s : Store) (workspace message id : Uuid) (a : Asset)
    → row s id ≡ some a
    → a.workspace_id ≡ workspace
    → a.message_id ≡ some message
    → a.status ≡ ready
    → find (is_downloadable id workspace message) s ≡ some a
unfolding row
find-downloadable [] workspace message id a h w m r = ground arith
find-downloadable (x ∷ s) workspace message id a h w m r =
    elim (Bool-cases (x.id == id && not (is_some x.deleted_at))) [
      | inl hit ↦
          let same : x ≡ a = ground arith in
          let place : x.workspace_id ≡ workspace = rw same w in
          let attached : x.message_id ≡ some message = rw same m in
          let complete : x.status ≡ ready = rw same r in
          ground (arith, ==_refl workspace, ==_refl message)
      | inr miss ↦ ground (arith, find-downloadable s workspace message id a)
    ]

-- A row that a URL is signed for.
pub record IsSigned (s : Store) (workspace message id : Uuid) : Type 0 where
  pub asset : Asset
  pub signed : download_url id workspace message s ≡ (ok asset, s)

IsSigned-IsOn :
    (s : Store) (workspace message id : Uuid)
    → IsOn s workspace message id
    → IsSigned s workspace message id
unfolding download_url
IsSigned-IsOn s workspace message id on = record {
  asset = on.asset;
  signed = rw (
    find-downloadable s workspace message id on.asset on.found on.in_workspace on.attached
        on.complete,
    download_url,
  );
}

-- After a claim that went through, each asset of it can be downloaded from the message that it was
-- claimed for, in its workspace.
pub download-claim_assets :
    (workspace user message now : Uuid) (ids : List Uuid) (s s' : Store)
    (rows : List (Option Asset))
    → claim_assets workspace user message now ids s ≡ (ok rows, s')
    → All (IsSigned s' workspace message) ids
download-claim_assets workspace user message now ids s s' rows h =
    All-map ids (IsSigned-IsOn s' workspace message)
      (claim_assets_ok workspace user message now ids s s' rows h).1
