-- ===== src/Auth/Sessions/Walk.antt =====
-- The walk along a rotation chain ends, and revokes exactly the rows of the chain.
use claude_at_work_project.Prelude.{
  ℕ, ◌≤◌, ◌<◌, ◌≡◌, refl, sym, ◌∙◌, inl, inr, Bool, true, false, not, ◌||◌, Option, none, some,
  List, [], ◌∷◌, arith, ◌==◌, is_some, find-holds, find-update_where, count, map_option,
  Option-cases, Bool-cases, if◌then◌else◌,
}
use claude_at_work_project.Auth.Rows.{Uuid, Time, RefreshToken}
use claude_at_work_project.Auth.Sessions.{get, revoke, is_live, revoke_row, is_seen}

-- What the rows say of an id: whether there is a row, the row that replaced it, and whether it can
-- no longer be used (a row that is not there cannot).
abbrev pub has : List RefreshToken → Uuid → Bool
has rows id = is_some (get rows id)

abbrev pub link_of : Option RefreshToken → Option Uuid
link_of none = none
link_of (some r) = r.rotated_to

unfoldable pub link : List RefreshToken → Uuid → Option Uuid
link rows id = link_of (get rows id)

abbrev pub dead_of : Option RefreshToken → Bool
dead_of none = true
dead_of (some r) = is_some r.revoked_at

unfoldable pub dead : List RefreshToken → Uuid → Bool
dead rows id = dead_of (get rows id)

-- The rows that come after `a` in its rotation chain, `a` included.
pub data Chain (rows : List RefreshToken) (a : Uuid) : Uuid → Type 0 where
  here : Chain rows a a
  next : {b c : Uuid} → Chain rows a b → link rows b ≡ some c → Chain rows a c

pub Chain-cons :
    (rows : List RefreshToken) (a b : Uuid) {c : Uuid}
    → link rows a ≡ some b
    → Chain rows b c
    → Chain rows a c
Chain-cons rows a b e Chain.here = Chain.next Chain.here e
Chain-cons rows a b e (Chain.next before f) = Chain.next (Chain-cons rows a b e before) f

pub Chain-links :
    (rows rows' : List RefreshToken) (a : Uuid) {b : Uuid}
    → ((x : Uuid) → link rows' x ≡ link rows x)
    → Chain rows' a b
    → Chain rows a b
Chain-links rows rows' a same Chain.here = Chain.here
Chain-links rows rows' a same (Chain.next {b = b} before f) =
    Chain.next (Chain-links rows rows' a same before) (sym (same b) ∙ f)

pub id-get :
    (rows : List RefreshToken) (id : Uuid) (r : RefreshToken) → get rows id ≡ some r → r.id ≡ id
unfolding get
id-get rows id r h = let held = find-holds (λ x. x.id == id) rows h in ground arith

-- Revoking one row.
module _ (now : Time) (id : Uuid) (rows : List RefreshToken) where
  pub get-revoke_row :
      (x : Uuid)
      → get (revoke_row now id rows) x
        ≡ map_option (λ r. if is_live id r then revoke now r else r) (get rows x)
  unfolding get
  get-revoke_row x = find-update_where (λ r. r.id == x) (is_live id) (revoke now) rows (λ r. refl)

  pub link-revoke_row : (x : Uuid) → link (revoke_row now id rows) x ≡ link rows x
  unfolding link
  link-revoke_row x =
      rw (get-revoke_row x)
        (elim (Option-cases (get rows x)) [ inl e ↦ rw e refl | inr (r, e) ↦ rw e (ground arith) ])

  pub has-revoke_row : (x : Uuid) → has (revoke_row now id rows) x ≡ has rows x
  has-revoke_row x =
      rw (get-revoke_row x)
        (elim (Option-cases (get rows x)) [ inl e ↦ rw e refl | inr (r, e) ↦ rw e refl ])

  pub dead-revoke_row : (x : Uuid) → dead (revoke_row now id rows) x ≡ ((id == x) || dead rows x)
  unfolding dead
  dead-revoke_row x = rw (get-revoke_row x) (elim (Option-cases (get rows x)) [
    | inl e ↦ rw e (ground arith)
    | inr (r, e) ↦ rw e (ground (arith, id-get rows x r e))
  ])

-- The rows that the walk has not been to.
abbrev pub unseen : List Uuid → List RefreshToken → ℕ
unseen seen rows = count (λ r. not (is_seen r.id seen)) rows

pub unseen-revoke_row :
    (now : Time) (id : Uuid) (seen : List Uuid) (rows : List RefreshToken)
    → unseen seen (revoke_row now id rows) ≡ unseen seen rows
unseen-revoke_row now id seen [] = refl
unseen-revoke_row now id seen (r ∷ rows) = ground (arith, unseen-revoke_row now id seen rows)

unseen-le :
    (id : Uuid) (seen : List Uuid) (rows : List RefreshToken)
    → unseen (id ∷ seen) rows ≤ unseen seen rows
unseen-le id seen [] = omega arith
unseen-le id seen (r ∷ rows) = ground (arith, unseen-le id seen rows)

pub unseen-lt :
    (id : Uuid) (seen : List Uuid) (rows : List RefreshToken) (r : RefreshToken)
    → get rows id ≡ some r
    → is_seen id seen ≡ false
    → unseen (id ∷ seen) rows < unseen seen rows
unfolding get
unseen-lt id seen [] r h new = cc
unseen-lt id seen (x ∷ rows) r h new = elim (Bool-cases (x.id == id)) [
  | inl hit ↦ let same : x.id ≡ id = ground arith in ground (arith, unseen-le id seen rows, same)
  | inr miss ↦ ground (arith, unseen-lt id seen rows r)
]
