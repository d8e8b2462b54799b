-- ===== src/Asset/Examples.antt =====
-- The theorems about the asset service at one uploaded file.
use claude_at_work_project.Messaging.Attachments.{AttachmentMeta, conflict, claim_for_send}
use claude_at_work_project.Messaging.Attachments.Claims.{
  read_answer, first_refusal, claim_for_send-claim_assets,
}
use claude_at_work_project.Prelude.{
  ◌≡◌, ◌≢◌, ◌⊎◌, arith, refl, false, none, some, List, [], ◌∷◌, All, find, map, ok, err,
}
use claude_at_work_project.Asset.Rules.{Asset, ready, is_pending, claim_refusal, confirm_outcome}
use claude_at_work_project.Asset.Routes.{
  request_upload_url, Store, holds, row, refusals, is_own, claimed, claim_assets, new_asset,
  confirm_upload,
}
use claude_at_work_project.Asset.Claims.{MayClaim, IsOn, claim_assets_ok, claim_assets_other}
use claude_at_work_project.Asset.Lifecycle.{IsOrderly, Step, Run, Run-IsOrderly}
use claude_at_work_project.Asset.Downloads.{IsSigned, download-claim_assets}
use claude_at_work_project.Asset.Confirms.{confirm_upload_again}

abbrev reserved : Asset
reserved = new_asset 1 7 10 (b'a' ∷ []) "image/png" 5

abbrev uploaded : Asset
uploaded = record reserved { status = ready; confirmed_at = some 3 }

abbrev store : Store
store = uploaded ∷ []

abbrev claimed_store : Store
claimed_store = claimed 90 4 uploaded ∷ []

claim : claim_assets 7 10 90 4 (1 ∷ []) store ≡ (ok (some uploaded ∷ []), claimed_store)
unfolding claim_assets refusals claim_refusal row
claim = refl

claim_assets_ok_example :
    All (MayClaim store 7 10 90) (1 ∷ []) × All (IsOn claimed_store 7 90) (1 ∷ [])
claim_assets_ok_example =
    claim_assets_ok 7 10 90 4 (1 ∷ []) store claimed_store (some uploaded ∷ []) claim

-- Two uploads, claimed together for one message.
abbrev second_upload : Asset
second_upload = record uploaded { id = 2 }

abbrev pair_store : Store
pair_store = uploaded ∷ second_upload ∷ []

abbrev claimed_pair : Store
claimed_pair = claimed 90 4 uploaded ∷ claimed 90 4 second_upload ∷ []

claim_pair :
    claim_assets 7 10 90 4 (1 ∷ 2 ∷ []) pair_store
    ≡ (ok (some uploaded ∷ some second_upload ∷ []), claimed_pair)
unfolding claim_assets refusals claim_refusal row
claim_pair = refl

claim_assets_other_example :
    claim_assets 7 10 91 5 (2 ∷ []) claimed_pair ≢ (ok (some second_upload ∷ []), claimed_pair)
claim_assets_other_example =
    claim_assets_other 7 10 90 4 2 (1 ∷ 2 ∷ []) pair_store claimed_pair claimed_pair
      (some uploaded ∷ some second_upload ∷ []) (some second_upload ∷ []) 7 10 91 5 (2 ∷ [])
      (omega arith) refl refl claim_pair

confirm_upload_again_example :
    (find (is_own 1 7 10) store ≡ some uploaded)
    × (is_pending uploaded.status ≡ false)
    × (confirm_upload 1 7 10 (holds none) 50 9 store ≡ (ok uploaded, store))
confirm_upload_again_example =
    confirm_upload_again 1 7 10 50 3 9 (holds (some 5)) (holds none) (reserved ∷ []) store uploaded
      (unfold confirm_upload confirm_outcome in refl)

Run-IsOrderly_example :
    IsOrderly (request_upload_url 1 7 10 (b'a' ∷ []) "image/png" 5 "attachment" 50 []).1
Run-IsOrderly_example =
    Run-IsOrderly (request_upload_url 1 7 10 (b'a' ∷ []) "image/png" 5 "attachment" 50 []).1
      (Run.next Run.here (Step.request 1 7 10 (b'a' ∷ []) "image/png" 5 "attachment" 50 refl))

download-claim_assets_example : All (IsSigned claimed_store 7 90) (1 ∷ [])
download-claim_assets_example =
    download-claim_assets 7 10 90 4 (1 ∷ []) store claimed_store (some uploaded ∷ []) claim

-- Asset 1 can be attached, and there is no asset 2.
claim_for_send-claim_assets_example :
    ((metas : List AttachmentMeta) × (claim_for_send
          (read_answer (claim_assets 7 10 90 4 (1 ∷ (2 ∷ [])) store).0)
          (1 ∷ (2 ∷ []))
        ≡ ok metas)
      × (map (λ (m : AttachmentMeta). m.asset_id) metas ≡ 1 ∷ (2 ∷ []))
      × All (IsOn (claim_assets 7 10 90 4 (1 ∷ (2 ∷ [])) store).1 7 90) (1 ∷ (2 ∷ [])))
    ⊎ ((claim_for_send (read_answer (claim_assets 7 10 90 4 (1 ∷ (2 ∷ [])) store).0) (1 ∷ (2 ∷ []))
          ≡ err (conflict (first_refusal store 7 10 90 (1 ∷ (2 ∷ [])))))
        × ((claim_assets 7 10 90 4 (1 ∷ (2 ∷ [])) store).1 ≡ store))
claim_for_send-claim_assets_example = claim_for_send-claim_assets store 7 10 90 4 1 (2 ∷ [])
