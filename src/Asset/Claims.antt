-- ===== src/Asset/Claims.antt =====
-- A claim puts every asset on the message or changes nothing, and an asset goes on one message.
use claude_at_work_project.Prelude.{
  ◌≡◌, ◌≢◌, ◌⊎◌, refl, inl, inr, ap, true, false, not, ◌&&◌, Option, none, some, List, [], ◌∷◌,
  arith, ◌==◌, ==_refl, ==_iff, Bool-cases, is_some, any, find-holds, find-update_where,
  update_where, map_option, All, Option-cases, if◌then◌else◌, ok, err, subst,
}
use claude_at_work_project.Asset.Rules.{Uuid, ready, Asset, Refusal, claim_refusal, on_another}
use claude_at_work_project.Asset.Routes.{
  Store, Problem, row, refusals, is_claimable, claimed, settle_claim, claim_assets,
}

-- Nothing speaks against the claim of this asset.
pub record MayClaim (s : Store) (workspace user message id : Uuid) : Type 0 where
  pub asset : Asset
  pub found : row s id ≡ some asset
  pub same_workspace : asset.workspace_id ≡ workspace
  pub own : asset.owner_id ≡ user
  pub uploaded : asset.status ≡ ready
  pub free : on_another asset.message_id message ≡ false

claim_refusal-none :
    (s : Store) (workspace user message id : Uuid)
    → claim_refusal (row s id) workspace user message ≡ none
    → MayClaim s workspace user message id
unfolding claim_refusal
claim_refusal-none s workspace user message id h = elim (Option-cases (row s id)) [
  | inl e ↦ absurd (cc (rw (e, claim_refusal) at h))
  | inr (a, e) ↦ record {
    asset = a;
    found = e;
    same_workspace = ground (arith, (rw e at h));
    own = ground (arith, (rw e at h));
    uploaded = ground (arith, (rw e at h));
    free = ground (arith, (rw e at h));
  }
]

pub refusals_none :
    (s : Store) (workspace user message : Uuid) (ids : List Uuid)
    → refusals s workspace user message ids ≡ []
    → All (MayClaim s workspace user message) ids
unfolding refusals
refusals_none s workspace user message [] h = tt
refusals_none s workspace user message (id ∷ ids) h =
    elim (Option-cases (claim_refusal (row s id) workspace user message)) [
      | inl e ↦ (
        claim_refusal-none s workspace user message id e,
        refusals_none s workspace user message ids (ground arith),
      )
      | inr (r, e) ↦ absurd (ground arith)
    ]

-- The row after the update of a claim.
row-claimed :
    (s : Store) (message now : Uuid) (ids : List Uuid) (id : Uuid)
    → row (update_where (is_claimable ids) (claimed message now) s) id
      ≡ map_option (λ a. if is_claimable ids a then claimed message now a else a) (row s id)
unfolding row
row-claimed s message now ids id =
    find-update_where (λ a. a.id == id && not (is_some a.deleted_at)) (is_claimable ids)
      (claimed message now) s (λ a. refl)

pub id-row : (s : Store) (id : Uuid) (a : Asset) → row s id ≡ some a → a.id ≡ id
unfolding row
id-row s id a h =
    let held = find-holds (λ a. a.id == id && not (is_some a.deleted_at)) s h in ground arith

-- An asset that is on the message.
pub record IsOn (s : Store) (workspace message id : Uuid) : Type 0 where
  pub asset : Asset
  pub found : row s id ≡ some asset
  pub attached : asset.message_id ≡ some message
  pub in_workspace : asset.workspace_id ≡ workspace
  pub complete : asset.status ≡ ready

free_or_on :
    (m : Option Uuid) (message : Uuid)
    → on_another m message ≡ false
    → (m ≡ none) ⊎ (m ≡ some message)
free_or_on none message h = inl refl
free_or_on (some m) message h = inr (ground arith)

IsOn-claimed :
    (s : Store) (workspace user message now : Uuid) (ids : List Uuid) (id : Uuid)
    → any (λ i. i == id) ids ≡ true
    → MayClaim s workspace user message id
    → IsOn (update_where (is_claimable ids) (claimed message now) s) workspace message id
IsOn-claimed s workspace user message now ids id listed may =
    let own_id = id-row s id may.asset may.found in
    record {
      asset = if is_claimable ids may.asset then claimed message now may.asset else may.asset;
      found = rw (row-claimed s message now ids id, may.found);
      attached = elim (free_or_on may.asset.message_id message may.free) [
        | inl e ↦ rw (own_id, listed, e)
        | inr e ↦ rw (own_id, listed, e)
      ];
      in_workspace = ground (arith, may.same_workspace);
      complete = ground (arith, may.uploaded);
    }

-- Each of some ids is on the list that holds them.
All-listed :
    (P Q : Uuid → Type 0) (all_ids ids : List Uuid)
    → ((id : Uuid) → any (λ i. i == id) all_ids ≡ true → P id → Q id)
    → ((id : Uuid) → any (λ i. i == id) ids ≡ true → any (λ i. i == id) all_ids ≡ true)
    → All P ids
    → All Q ids
All-listed P Q all_ids [] f sub h = tt
All-listed P Q all_ids (id ∷ ids) f sub h = (
  f id (sub id (ground (arith, ==_refl id))) h.0,
  All-listed P Q all_ids ids f (λ i e. sub i (ground arith)) h.1,
)

claim_assets-refusals :
    (workspace user message now : Uuid) (ids : List Uuid) (s s' : Store)
    (rows : List (Option Asset))
    → claim_assets workspace user message now ids s ≡ (ok rows, s')
    → (refusals s workspace user message ids ≡ [])
      × (update_where (is_claimable ids) (claimed message now) s ≡ s')
unfolding claim_assets
claim_assets-refusals workspace user message now ids s s' rows h =
    go (refusals s workspace user message ids) h
  where
    go :
        (rs : List (Uuid × Refusal))
        → settle_claim message now ids rs s ≡ (ok rows, s')
        → (rs ≡ []) × (update_where (is_claimable ids) (claimed message now) s ≡ s')
    go [] h = (refl, ground arith)
    go (r ∷ rs) h = absurd (ground arith)

-- A claim that goes through was allowed for every asset of it: there, in the workspace, the
-- caller's own, uploaded, and on no other message; and it leaves every one of them on the message.
pub claim_assets_ok :
    (workspace user message now : Uuid) (ids : List Uuid) (s s' : Store)
    (rows : List (Option Asset))
    → claim_assets workspace user message now ids s ≡ (ok rows, s')
    → All (MayClaim s workspace user message) ids × All (IsOn s' workspace message) ids
claim_assets_ok workspace user message now ids s s' rows h =
    let (free, written) = claim_assets-refusals workspace user message now ids s s' rows h in
    let may = refusals_none s workspace user message ids free in
    (
      may,
      subst (λ t. All (IsOn t workspace message) ids) written
          (All-listed (MayClaim s workspace user message)
            (IsOn (update_where (is_claimable ids) (claimed message now) s) workspace message) ids
            ids (IsOn-claimed s workspace user message now ids) (λ id e. e) may),
    )

-- A claim that is refused for one asset writes nothing for any.
pub claim_assets_refused :
    (workspace user message now : Uuid) (ids : List Uuid) (s : Store) (problem : Problem)
    → (claim_assets workspace user message now ids s).0 ≡ err problem
    → (claim_assets workspace user message now ids s).1 ≡ s
unfolding claim_assets
claim_assets_refused workspace user message now ids s problem h =
    go (refusals s workspace user message ids) h
  where
    go :
        (rs : List (Uuid × Refusal))
        → (settle_claim message now ids rs s).0 ≡ err problem
        → (settle_claim message now ids rs s).1 ≡ s
    go [] h = absurd (ground arith)
    go (r ∷ rs) h = refl

-- What holds of each id of a list holds of one that is on it.
All-any :
    (P : Uuid → Type 0) (id : Uuid) (ids : List Uuid)
    → All P ids
    → any (λ i. i == id) ids ≡ true
    → P id
All-any P id [] h e = absurd (ground arith)
All-any P id (i ∷ ids) h e = elim (Bool-cases (i == id)) [
  | inl same ↦ subst P ((==_iff i id).0 same) h.0
  | inr other ↦ All-any P id ids h.1 (rw other at e)
]

-- What is on one message cannot be claimed for another: after a claim that went through, a claim for
-- another message of any list that shares an asset with it, wherever it stands in the two lists, is
-- refused.
pub claim_assets_other :
    (workspace user message now : Uuid) (id : Uuid) (ids : List Uuid) (s s' t : Store)
    (rows rows' : List (Option Asset)) (workspace' user' message' now' : Uuid) (ids' : List Uuid)
    → message ≢ message'
    → any (λ i. i == id) ids ≡ true
    → any (λ i. i == id) ids' ≡ true
    → claim_assets workspace user message now ids s ≡ (ok rows, s')
    → claim_assets workspace' user' message' now' ids' s' ≢ (ok rows', t)
claim_assets_other workspace user message now id ids s s' t rows rows' workspace' user' message'
      now' ids' ne first second h k =
    let all_on = (claim_assets_ok workspace user message now ids s s' rows h).1 in
    let all_may = (claim_assets_ok workspace' user' message' now' ids' s' t rows' k).0 in
    let on = All-any (IsOn s' workspace message) id ids all_on first in
    let may = All-any (MayClaim s' workspace' user' message') id ids' all_may second in
    let same : may.asset ≡ on.asset = cc (may.found, on.found) in
    absurd (ground (arith, may.free, on.attached, ap (λ (a : Asset). a.message_id) same))
