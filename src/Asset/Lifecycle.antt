-- ===== src/Asset/Lifecycle.antt =====
-- The life of an asset over any sequence of requests: what is on a message is ready.
use claude_at_work_project.Prelude.{
  Unique-update_where, All-update, ℕ, ◌≡◌, ◌⊎◌, refl, inl, inr, subst, Bool, true, false, not, ◌&&◌,
  Option, none, some, String, List, [], ◌∷◌, arith, ◌==◌, ==_refl, is_some, any, find, All, Unique,
  Apart, find-holds, All-find, Bool-cases, Option-cases, Result-cases, if◌then◌else◌,
}
use claude_at_work_project.Asset.Rules.{
  Uuid, Refusal, Status, ready, is_pending, Asset, check_upload, confirm_outcome,
}
use claude_at_work_project.Asset.Routes.{
  Store, Head, unreachable, holds, row, is_own, is_pending_row, confirmed, settle, new_asset,
  refusals, is_claimable, claimed, settle_claim, request_upload_url, confirm_upload, claim_assets,
}
use claude_at_work_project.Asset.Claims.{MayClaim, refusals_none}

abbrev pub same_id : Asset → Asset → Bool
same_id a b = a.id == b.id

-- An asset on a message is ready.
abbrev pub ReadyIfClaimed : Asset → Type 0
ReadyIfClaimed a = (a.message_id ≡ none) ⊎ (a.status ≡ ready)

-- One row to an id, and what is on a message is ready.
pub record IsOrderly (s : Store) : Type 0 where
  pub one_row : Unique same_id s
  pub claimed_ready : All ReadyIfClaimed s

-- A row is the one that its id finds.
abbrev IsFound : Store → Asset → Type 0
IsFound s a = find (λ b. b.id == a.id) s ≡ some a

All-IsFound_cons :
    (x : Asset) (s t : Store) → Apart same_id x t → All (IsFound s) t → All (IsFound (x ∷ s)) t
All-IsFound_cons x s [] h g = tt
All-IsFound_cons x s (y ∷ t) h g = (ground (arith, h.0, g.0), All-IsFound_cons x s t h.1 g.1)

All-IsFound : (s : Store) → Unique same_id s → All (IsFound s) s
All-IsFound [] h = tt
All-IsFound (x ∷ s) h =
    (ground (arith, ==_refl x.id), All-IsFound_cons x s s h.0 (All-IsFound s h.1))

All-both : (P Q : Asset → Type 0) (s : Store) → All P s → All Q s → All (λ a. P a × Q a) s
All-both P Q [] h g = tt
All-both P Q (x ∷ s) h g = ((h.0, g.0), All-both P Q s h.1 g.1)

-- The row that an id finds among those that are not deleted is the row of that id.
row-same : (s : Store) (a b : Asset) → Unique same_id s → IsFound s a → row s a.id ≡ some b → b ≡ a
unfolding row
row-same s a b one found h =
    let own : IsFound s b =
      All-find (IsFound s) (λ c. c.id == a.id && not (is_some c.deleted_at)) s b (All-IsFound s one)
        h in
    let held = find-holds (λ c. c.id == a.id && not (is_some c.deleted_at)) s h in
    let same : b.id ≡ a.id = ground arith in
    let again : find (λ c. c.id == a.id) s ≡ some b =
      subst (λ (i : Uuid). find (λ c. c.id == i) s ≡ some b) same own in
    ground (arith, again, found)

Apart-new : (x : Asset) (s : Store) → any (λ a. a.id == x.id) s ≡ false → Apart same_id x s
Apart-new x [] h = tt
Apart-new x (y ∷ s) h = (ground arith, Apart-new x s (ground arith))

ReadyIfClaimed-confirmed :
    (id : Uuid) (outcome : Status × Option String) (now : ℕ) (x : Asset)
    → ReadyIfClaimed x
    → ReadyIfClaimed (if is_pending_row id x then confirmed outcome now x else x)
ReadyIfClaimed-confirmed id outcome now x h = elim (Bool-cases (is_pending_row id x)) [
  | inr other ↦ rw other h
  | inl hit ↦ elim h [ inl free ↦ rw hit (inl free) | inr done ↦ absurd (ground (arith, done)) ]
]

MayClaim-any :
    (s : Store) (workspace user message id : Uuid) (ids : List Uuid)
    → All (MayClaim s workspace user message) ids
    → any (λ i. i == id) ids ≡ true
    → MayClaim s workspace user message id
MayClaim-any s workspace user message id [] h e = absurd (ground arith)
MayClaim-any s workspace user message id (i ∷ ids) h e = elim (Bool-cases (i == id)) [
  | inl hit ↦
      subst (MayClaim s workspace user message) (let same : i ≡ id = ground arith in same) h.0
  | inr miss ↦ MayClaim-any s workspace user message id ids h.1 (ground arith)
]

-- Reserving an asset under a new id.
IsOrderly-request :
    (id workspace owner : Uuid) (name : List ℕ) (kind : String) (size : ℕ) (purpose : String)
    (max_bytes : ℕ) (s : Store)
    → any (λ a. a.id == id) s ≡ false
    → IsOrderly s
    → IsOrderly (request_upload_url id workspace owner name kind size purpose max_bytes s).1
unfolding request_upload_url
IsOrderly-request id workspace owner name kind size purpose max_bytes s fresh g =
    elim (Result-cases (check_upload name kind size purpose max_bytes)) [
      | inl (e, bad) ↦ rw (bad, request_upload_url) g
      | inr (_, fine) ↦
          rw (fine, request_upload_url)
            (record {
              one_row =
                  (Apart-new (new_asset id workspace owner name kind size) s fresh, g.one_row);
              claimed_ready = (inl refl, g.claimed_ready);
            })
    ]

IsOrderly-settle :
    (a : Asset) (head : Head) (max_bytes now : ℕ) (s : Store)
    → IsOrderly s
    → IsOrderly (settle a head max_bytes now s).1
IsOrderly-settle a unreachable max_bytes now s g = g
IsOrderly-settle a (holds stored) max_bytes now s g =
    let write = confirmed (confirm_outcome a.size_bytes stored max_bytes) now in
    record {
      one_row =
          Unique-update_where same_id (is_pending_row a.id) write s (λ x y. refl) (λ x y. refl)
            g.one_row;
      claimed_ready =
          All-update (is_pending_row a.id) write ReadyIfClaimed ReadyIfClaimed s
            (λ x h.
              ReadyIfClaimed-confirmed a.id (confirm_outcome a.size_bytes stored max_bytes) now x h)
            g.claimed_ready;
    }

IsOrderly-confirm :
    (id workspace user : Uuid) (head : Head) (max_bytes now : ℕ) (s : Store)
    → IsOrderly s
    → IsOrderly (confirm_upload id workspace user head max_bytes now s).1
unfolding confirm_upload
IsOrderly-confirm id workspace user head max_bytes now s g =
    elim (Option-cases (find (is_own id workspace user) s)) [
      | inl e ↦ rw (e, confirm_upload) g
      | inr (a, e) ↦ elim (Bool-cases (is_pending a.status)) [
        | inl p ↦ rw (e, p, confirm_upload) (IsOrderly-settle a head max_bytes now s g)
        | inr p ↦ rw (e, p, confirm_upload) g
      ]
    ]

-- A row that a claim writes was judged, and so is ready.
ReadyIfClaimed-claimed :
    (s : Store) (workspace user message now : Uuid) (ids : List Uuid) (a : Asset)
    → Unique same_id s
    → All (MayClaim s workspace user message) ids
    → IsFound s a
    → ReadyIfClaimed a
    → ReadyIfClaimed (if is_claimable ids a then claimed message now a else a)
ReadyIfClaimed-claimed s workspace user message now ids a one may found h =
    elim (Bool-cases (is_claimable ids a)) [
      | inr other ↦ rw other h
      | inl hit ↦
          let here : any (λ id. id == a.id) ids ≡ true = ground arith in
          let judged = MayClaim-any s workspace user message a.id ids may here in
          let same = row-same s a judged.asset one found judged.found in
          rw hit (inr (subst (λ (x : Asset). x.status ≡ ready) same judged.uploaded))
    ]

IsOrderly-claim :
    (workspace user message now : Uuid) (ids : List Uuid) (s : Store)
    → IsOrderly s
    → IsOrderly (claim_assets workspace user message now ids s).1
unfolding claim_assets
IsOrderly-claim workspace user message now ids s g =
    go (refusals s workspace user message ids) (refusals_none s workspace user message ids)
  where
    go :
        (rs : List (Uuid × Refusal))
        → (rs ≡ [] → All (MayClaim s workspace user message) ids)
        → IsOrderly (settle_claim message now ids rs s).1
    go [] may = record {
      one_row =
          Unique-update_where same_id (is_claimable ids) (claimed message now) s (λ x y. refl)
            (λ x y. refl) g.one_row;
      claimed_ready =
          All-update (is_claimable ids) (claimed message now) (λ a. IsFound s a × ReadyIfClaimed a)
            ReadyIfClaimed s
            (λ a h.
              ReadyIfClaimed-claimed s workspace user message now ids a g.one_row (may refl) h.0
                h.1)
            (All-both (IsFound s) ReadyIfClaimed s (All-IsFound s g.one_row) g.claimed_ready);
    }
    go (r ∷ rs) may = g

-- The requests that write. A new asset's id is one that no row has.
pub data Step (s : Store) : Store → Type 0 where
  request :
      (id workspace owner : Uuid) (name : List ℕ) (kind : String) (size : ℕ) (purpose : String)
      (max_bytes : ℕ)
      → any (λ a. a.id == id) s ≡ false
      → Step s (request_upload_url id workspace owner name kind size purpose max_bytes s).1
  confirm :
      (id workspace user : Uuid) (head : Head) (max_bytes now : ℕ)
      → Step s (confirm_upload id workspace user head max_bytes now s).1
  claim :
      (workspace user message now : Uuid) (ids : List Uuid)
      → Step s (claim_assets workspace user message now ids s).1

Step-IsOrderly : {s t : Store} → Step s t → IsOrderly s → IsOrderly t
Step-IsOrderly {s} (request id workspace owner name kind size purpose max_bytes fresh) g =
    IsOrderly-request id workspace owner name kind size purpose max_bytes s fresh g
Step-IsOrderly {s} (confirm id workspace user head max_bytes now) g =
    IsOrderly-confirm id workspace user head max_bytes now s g
Step-IsOrderly {s} (claim workspace user message now ids) g =
    IsOrderly-claim workspace user message now ids s g

pub data Run (s : Store) : Store → Type 0 where
  here : Run s s
  next : {t u : Store} → Run s t → Step t u → Run s u

-- From no rows on, however assets are reserved under new ids, confirmed and claimed: an id has one row, and an
-- asset that is on a message is ready.
pub Run-IsOrderly : (t : Store) → Run [] t → IsOrderly t
Run-IsOrderly t here = record { one_row = tt; claimed_ready = tt }
Run-IsOrderly t (next {t = u} before step) = Step-IsOrderly step (Run-IsOrderly u before)
