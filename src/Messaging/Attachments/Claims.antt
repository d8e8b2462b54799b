-- ===== src/Messaging/Attachments/Claims.antt =====
-- A send's claim, answered by the asset service: what the sender is told, and what is on the message.
use claude_at_work_project.Prelude.{
  ◌≡◌, ◌⊎◌, map, update_where, refl, subst, sym, ◌∙◌, ap, inl, inr, true, false, Option, none, some,
  List, [], ◌∷◌, arith, ◌==◌, ==_refl, any, find, All, All-map, Option-cases, Bool-cases, Result,
  ok, err,
}
use claude_at_work_project.Asset.Rules.{Refusal, Asset, claim_refusal}
use claude_at_work_project.Asset.Routes.{
  Store, Problem, row, refusals, is_claimable, claimed, claim_assets,
}
use claude_at_work_project.Asset.Claims.{MayClaim, IsOn, id-row, claim_assets_ok}
use claude_at_work_project.Messaging.Models.{Uuid}
use claude_at_work_project.Messaging.Attachments.{
  AttachmentMeta, conflict, ClaimAnswer, items, refused, unavailable, first_reason, refusal_detail,
  claim_for_send,
}

-- What the response of `claim_assets` keeps of a row.
abbrev pub meta_of : Asset → AttachmentMeta
meta_of a = record {
  asset_id = a.id;
  file_name = a.file_name;
  content_type = a.content_type;
  size_bytes = a.size_bytes;
}

abbrev pub metas_of : List (Option Asset) → List AttachmentMeta
metas_of [] = []
metas_of (none ∷ rows) = metas_of rows
metas_of (some a ∷ rows) = meta_of a ∷ metas_of rows

-- How the client reads an answer of the route.
abbrev pub read_answer : Result Problem (List (Option Asset)) → ClaimAnswer
read_answer (ok rows) = items (metas_of rows)
read_answer (err (Problem.conflict rs)) = refused rs
read_answer (err e) = unavailable

-- The first asset in attach order that cannot be claimed.
unfoldable pub first_refusal : Store → (workspace user message : Uuid) → List Uuid → Option Refusal
first_refusal s workspace user message [] = none
first_refusal s workspace user message (id ∷ ids) =
    let rest = first_refusal s workspace user message ids in
    elim (claim_refusal (row s id) workspace user message) [ none ↦ rest | some r ↦ some r ]

listed : (ids : List Uuid) → All (λ id. any (λ x. x == id) ids ≡ true) ids
listed [] = tt
listed (id ∷ ids) = (rw (==_refl id) refl, All-map ids (λ x e. ground (arith, e)) (listed ids))

module _ (s : Store) (workspace user message : Uuid) where
  abbrev reason : Uuid → Option Refusal
  reason id = claim_refusal (row s id) workspace user message

  find_claimable :
      (id : Uuid) (ids : List Uuid)
      → reason id ≡ none
      → find (λ r. r.0 == id) (refusals s workspace user message ids) ≡ none
  unfolding refusals
  find_claimable id [] free = refl
  find_claimable id (x ∷ xs) free = elim (Option-cases (reason x)) [
    | inl e ↦ rw (e, find) (find_claimable id xs free)
    | inr (r, e) ↦
        let other : (x == id) ≡ false = elim (Bool-cases (x == id)) [
          | inr f ↦ f
          | inl f ↦
              let same : x ≡ id = ground (arith, f) in absurd (cc (sym e ∙ ap reason same ∙ free))
        ] in
        rw (e, find) (rw other (find_claimable id xs free))
  ]

  find_refused :
      (id : Uuid) (ids : List Uuid) (r : Refusal)
      → reason id ≡ some r
      → any (λ x. x == id) ids ≡ true
      → find (λ r. r.0 == id) (refusals s workspace user message ids) ≡ some (id, r)
  unfolding refusals
  find_refused id [] r why there = absurd (cc)
  find_refused id (x ∷ xs) r why there = elim (Bool-cases (x == id)) [
    | inl f ↦
        let same : x ≡ id = ground (arith, f) in
        let e : reason x ≡ some r = ap reason same ∙ why in
        rw (e, find) (rw f (ap (λ y. some (y, r)) same))
    | inr f ↦
        let rest = find_refused id xs r why (ground (arith, there, f)) in
        elim (Option-cases (reason x)) [
          | inl e ↦ rw (e, find) rest
          | inr (r', e) ↦ rw (e, find) (rw f rest)
        ]
  ]

  refusal_detail-order :
      (ids order : List Uuid)
      → All (λ id. any (λ x. x == id) ids ≡ true) order
      → refusal_detail (refusals s workspace user message ids) order
        ≡ elim (first_refusal s workspace user message order) [
          | none ↦ first_reason (refusals s workspace user message ids)
          | some r ↦ some r
        ]
  unfolding refusal_detail first_refusal
  refusal_detail-order ids [] there = refl
  refusal_detail-order ids (id ∷ order) there = elim (Option-cases (reason id)) [
    | inl e ↦
        rw (e, find_claimable id ids e, refusal_detail) (refusal_detail-order ids order there.1)
    | inr (r, e) ↦ rw (e, find_refused id ids r e there.0, refusal_detail) refl
  ]

  first_refusal-none :
      (ids : List Uuid)
      → first_refusal s workspace user message ids ≡ none
      → refusals s workspace user message ids ≡ []
  unfolding first_refusal refusals
  first_refusal-none [] e = refl
  first_refusal-none (id ∷ ids) e = elim (Option-cases (reason id)) [
    | inl f ↦ rw (f, refusals) (first_refusal-none ids (rw (f, first_refusal) at e))
    | inr (r, f) ↦ absurd (cc (rw (f, first_refusal) at e))
  ]

  refusal_detail_first :
      (ids : List Uuid)
      → refusal_detail (refusals s workspace user message ids) ids
        ≡ first_refusal s workspace user message ids
  refusal_detail_first ids =
      refusal_detail-order ids ids (listed ids)
      ∙ (elim (Option-cases (first_refusal s workspace user message ids)) [
        | inl e ↦ rw (e, first_refusal-none ids e) refl
        | inr (r, e) ↦ rw e refl
      ])

  metas-ids :
      (ids : List Uuid)
      → All (MayClaim s workspace user message) ids
      → map (λ (m : AttachmentMeta). m.asset_id) (metas_of (map (row s) ids)) ≡ ids
  metas-ids [] may = refl
  metas-ids (id ∷ ids) may =
      let a = may.0.asset in
      let found = may.0.found in
      rw (found, id-row s id a found) (ap (λ xs. id ∷ xs) (metas-ids ids may.1))

list_cases :
    (rs : List (Uuid × Refusal))
    → (rs ≡ []) ⊎ ((r : Uuid × Refusal) × (rest : List (Uuid × Refusal)) × (rs ≡ r ∷ rest))
list_cases [] = inl refl
list_cases (r ∷ rest) = inr (r, rest, refl)

-- A send with attachments whose claim the asset service answers is told one of two things. Either
-- every asset is now on the message, and the rows to store are in the order of the ids; or the claim
-- conflicts, for the reason of the first asset in that order that cannot be claimed, and the asset
-- service has written nothing.
pub claim_for_send-claim_assets :
    (s : Store) (workspace user message now id : Uuid) (ids : List Uuid)
    → ((metas : List AttachmentMeta) × (claim_for_send
            (read_answer (claim_assets workspace user message now (id ∷ ids) s).0)
            (id ∷ ids)
          ≡ ok metas)
        × (map (λ (m : AttachmentMeta). m.asset_id) metas ≡ id ∷ ids)
        × All
            (IsOn (claim_assets workspace user message now (id ∷ ids) s).1 workspace message)
            (id ∷ ids))
      ⊎ ((claim_for_send
              (read_answer (claim_assets workspace user message now (id ∷ ids) s).0)
              (id ∷ ids)
            ≡ err (conflict (first_refusal s workspace user message (id ∷ ids))))
          × ((claim_assets workspace user message now (id ∷ ids) s).1 ≡ s))
unfolding claim_assets claim_for_send
claim_for_send-claim_assets s workspace user message now id ids =
    let all_ids = id ∷ ids in
    elim (list_cases (refusals s workspace user message all_ids)) [
      | inl free ↦
          let s' = update_where (is_claimable all_ids) (claimed message now) s in
          let fine : claim_assets workspace user message now all_ids s
              ≡ (ok (map (row s) all_ids), s') =
            rw free refl in
          let (may, on) =
            claim_assets_ok workspace user message now all_ids s s' (map (row s) all_ids) fine in
          inl (
            metas_of (map (row s) all_ids),
            rw free refl,
            metas-ids s workspace user message all_ids may,
            subst (λ (t : Store). All (IsOn t workspace message) all_ids) (sym (ap (λ p. p.1) fine))
                on,
          )
      | inr (r, rest, some_refused) ↦
          let why = refusal_detail_first s workspace user message all_ids in
          inr (
            rw some_refused (ap (λ d. err (conflict d)) (rw some_refused at why)),
            rw some_refused refl,
          )
    ]
