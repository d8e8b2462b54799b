-- ===== src/Auth/Sessions/Sound.antt =====
-- What holds of the rows whatever writes them: an id and a hash name one row, and a token that was
-- exchanged is revoked.
use claude_at_work_project.Prelude.{
  ℕ, zero, suc, ◌+◌, ap, length, ◌≡◌, refl, sym, ◌∙◌, subst, inl, inr, ◌⊎◌, Bool, true, false,
  Option, none, some, List, [], ◌∷◌, arith, ◌==◌, is_some, any, update_where, All, All-find,
  All-update, Unique, Apart-any, Unique-update_where, Option-cases, Bool-cases, if◌then◌else◌,
}
use claude_at_work_project.Auth.Rows.{Uuid, Time, RefreshToken}
use claude_at_work_project.Auth.Sessions.{
  get, revoke, retire, revoke_row, is_live, is_seen, successor, walk, revoke_descendants, clash,
}
use claude_at_work_project.Auth.Sessions.Walk.{link, dead, Chain}

-- A property of the rows that each kind of write keeps: one that revokes, one that points a row at
-- the row that replaces it, and the insert of a new row.
pub record IsKept (P : List RefreshToken → Type 0) : Type 0 where
  pub revoking :
      (q : RefreshToken → Bool) (now : Time) (rows : List RefreshToken)
      → P rows
      → P (update_where q (revoke now) rows)
  pub retiring :
      (id next : Uuid) (now : Time) (rows : List RefreshToken)
      → P rows
      → P (update_where (λ r. r.id == id) (retire next now) rows)
  pub inserting :
      (r : RefreshToken) (rows : List RefreshToken)
      → any (clash r) rows ≡ false
      → r.rotated_to ≡ none
      → P rows
      → P (r ∷ rows)

walk-IsKept :
    (P : List RefreshToken → Type 0) (k : IsKept P) (fuel : ℕ) (now : Time) (seen : List Uuid)
    (current : Option RefreshToken) (rows rows' : List RefreshToken)
    → P rows
    → walk fuel now seen current rows ≡ some rows'
    → P rows'
unfolding walk
walk-IsKept P k zero now seen none rows rows' h e =
    subst P (let same : rows ≡ rows' = ground arith in same) h
walk-IsKept P k (suc fuel) now seen none rows rows' h e =
    subst P (let same : rows ≡ rows' = ground arith in same) h
walk-IsKept P k zero now seen (some r) rows rows' h e = absurd (cc)
walk-IsKept P k (suc fuel) now seen (some r) rows rows' h e =
    elim (Bool-cases (is_seen r.id seen)) [
      | inl old ↦ subst P (let same : rows ≡ rows' = ground arith in same) h
      | inr new ↦
          walk-IsKept P k fuel now (r.id ∷ seen) (successor (revoke_row now r.id rows) r)
            (revoke_row now r.id rows) rows' (k.revoking (is_live r.id) now rows h) (rw new at e)
    ]

pub revoke_descendants-IsKept :
    (P : List RefreshToken → Type 0) (k : IsKept P) (now : Time) (r : RefreshToken)
    (rows rows' : List RefreshToken)
    → P rows
    → revoke_descendants now r rows ≡ some rows'
    → P rows'
unfolding revoke_descendants
revoke_descendants-IsKept P k now r rows rows' h e =
    walk-IsKept P k (length rows + 1) now [] (some r) rows rows' h e

-- A row that has been replaced is revoked.
abbrev pub RevokedIfSpent : RefreshToken → Type 0
RevokedIfSpent r = (r.rotated_to ≡ none) ⊎ (is_some r.revoked_at ≡ true)

pub record IsSound (rows : List RefreshToken) : Type 0 where
  pub one_row : Unique clash rows
  pub spent_revoked : All RevokedIfSpent rows

RevokedIfSpent-revoke :
    (q : RefreshToken → Bool) (now : Time) (r : RefreshToken)
    → RevokedIfSpent r
    → RevokedIfSpent (if q r then revoke now r else r)
RevokedIfSpent-revoke q now r h = elim (Bool-cases (q r)) [
  | inl e ↦ rw e (inr refl)
  | inr e ↦ rw e h
]

RevokedIfSpent-retire :
    (id next : Uuid) (now : Time) (r : RefreshToken)
    → RevokedIfSpent r
    → RevokedIfSpent (if r.id == id then retire next now r else r)
RevokedIfSpent-retire id next now r h = elim (Bool-cases (r.id == id)) [
  | inl e ↦ rw e (inr refl)
  | inr e ↦ rw e h
]

pub IsSound-IsKept : IsKept IsSound
IsSound-IsKept = record {
  revoking = λ q now rows h. record {
    one_row = Unique-update_where clash q (revoke now) rows (λ x y. refl) (λ x y. refl) h.one_row;
    spent_revoked =
        All-update q (revoke now) RevokedIfSpent RevokedIfSpent rows (RevokedIfSpent-revoke q now)
          h.spent_revoked;
  };
  retiring = λ id next now rows h. record {
    one_row =
        Unique-update_where clash (λ r. r.id == id) (retire next now) rows (λ x y. refl)
          (λ x y. refl) h.one_row;
    spent_revoked =
        All-update (λ r. r.id == id) (retire next now) RevokedIfSpent RevokedIfSpent rows
          (RevokedIfSpent-retire id next now) h.spent_revoked;
  };
  inserting = λ r rows new free h. record {
    one_row = (Apart-any clash r rows new, h.one_row);
    spent_revoked = (inl free, h.spent_revoked);
  };
}

-- A row that comes after `b` is `b`, or comes after what `b` leads to.
Chain-past :
    (rows : List RefreshToken) (b c : Uuid) {x : Uuid}
    → link rows b ≡ some c
    → Chain rows b x
    → Chain rows c x ⊎ (x ≡ b)
Chain-past rows b c e Chain.here = inr refl
Chain-past rows b c e (Chain.next {b = m} {c = x} before f) = elim (Chain-past rows b c e before) [
  | inl on ↦ inl (Chain.next on f)
  | inr same ↦
      let last : c ≡ x = ground (arith, sym e ∙ ap (link rows) (sym same) ∙ f) in
      inl (subst (Chain rows c) last Chain.here)
]

-- Of two rows in one rotation chain, one comes after the other.
Chain-linear :
    (rows : List RefreshToken) (a : Uuid) {x y : Uuid}
    → Chain rows a x
    → Chain rows a y
    → Chain rows x y ⊎ Chain rows y x
Chain-linear rows a Chain.here there = inl there
Chain-linear rows a (Chain.next {b = b} {c = c} before e) there =
    elim (Chain-linear rows a before there) [
      | inl on ↦ elim (Chain-past rows b c e on) [
        | inl past ↦ inl past
        | inr same ↦ inr (subst (λ (y : Uuid). Chain rows y c) (sym same) (Chain.next Chain.here e))
      ]
      | inr back ↦ inr (Chain.next back e)
    ]

-- A chain from a row that leads nowhere has that row alone.
Chain-end :
    (rows : List RefreshToken) (x : Uuid) {y : Uuid} → link rows x ≡ none → Chain rows x y → y ≡ x
Chain-end rows x stop Chain.here = refl
Chain-end rows x stop (Chain.next {b = b} before e) =
    absurd (cc (ap (link rows) (Chain-end rows x stop before)))

link-live :
    (rows : List RefreshToken) (x : Uuid) → IsSound rows → dead rows x ≡ false → link rows x ≡ none
unfolding link dead get
link-live rows x s live = elim (Option-cases (get rows x)) [
  | inl e ↦ absurd (cc (rw e at live))
  | inr (r, e) ↦
      let spent = All-find RevokedIfSpent (λ t. t.id == x) rows r s.spent_revoked e in
      elim spent [ inl free ↦ rw e free | inr gone ↦ absurd (cc (rw e at live)) ]
]

-- Where every row that has been replaced is revoked, a rotation chain has one row at most that can
-- still be used.
pub Chain-live :
    (rows : List RefreshToken) (a x y : Uuid)
    → IsSound rows
    → Chain rows a x
    → Chain rows a y
    → dead rows x ≡ false
    → dead rows y ≡ false
    → x ≡ y
Chain-live rows a x y s to_x to_y live_x live_y = elim (Chain-linear rows a to_x to_y) [
  | inl on ↦ sym (Chain-end rows x (link-live rows x s live_x) on)
  | inr back ↦ Chain-end rows y (link-live rows y s live_y) back
]
