-- ===== src/Auth/Sessions/Swept.antt =====
-- What the walk along a rotation chain leaves.
use claude_at_work_project.Prelude.{
  ℕ, zero, suc, ◌+◌, ◌<◌, ◌≡◌, refl, sym, ◌∙◌, inl, inr, ◌⊎◌, ◌↔◌, true, none, some, List, [], ◌∷◌,
  arith, length, Option-cases, Bool-cases,
}
use claude_at_work_project.Auth.Rows.{Uuid, Time, RefreshToken}
use claude_at_work_project.Auth.Sessions.{get, is_seen, walk, revoke_descendants}
use claude_at_work_project.Auth.Sessions.Walk.{
  has, link, dead, Chain, has-revoke_row, unseen, unseen-revoke_row, unseen-lt,
}
use claude_at_work_project.Auth.Sessions.Steps.{
  after, IsSwept, IsOnWay, IsSwept-stop, IsSwept-last, IsOnWay-next, IsSwept-step, successor-cases,
}

walk-none :
    (fuel : ℕ) (now : Time) (seen : List Uuid) (rows : List RefreshToken)
    → walk fuel now seen none rows ≡ some rows
unfolding walk
walk-none zero now seen rows = refl
walk-none (suc fuel) now seen rows = refl

walk-IsSwept :
    (fuel : ℕ) (now : Time) (seen : List Uuid) (rows : List RefreshToken) (r : RefreshToken)
    → get rows r.id ≡ some r
    → IsOnWay seen r.id rows
    → unseen seen rows < fuel
    → (rows' : List RefreshToken) × (walk fuel now seen (some r) rows ≡ some rows')
      × IsSwept seen r.id rows rows'
unfolding walk
walk-IsSwept zero now seen rows r found way enough = absurd (omega arith)
walk-IsSwept (suc fuel) now seen rows r found way enough = elim (Bool-cases (is_seen r.id seen)) [
  | inl old ↦ (rows, rw old, IsSwept-stop seen r.id rows old way)
  | inr new ↦
      let rows1 = after now seen rows r found way in
      elim (successor-cases rows1 r) [
        | inl (stop, last) ↦ (
          rows1,
          rw (new, stop, walk-none fuel now (r.id ∷ seen) rows1),
          IsSwept-last now seen rows r found way
              (λ b e. sym (has-revoke_row now r.id rows b) ∙ last b e),
        )
        | inr (n, go, e, there) ↦
            let (rows', ends, swept) =
              walk-IsSwept fuel now (r.id ∷ seen) rows1 n there
                (IsOnWay-next now seen rows r found way n.id e)
                (omega (
                  arith,
                  unseen-revoke_row now r.id (r.id ∷ seen) rows,
                  unseen-lt r.id seen rows r found new,
                )) in
            (rows', rw (new, go) ends, IsSwept-step now seen rows r found way n.id rows' e swept)
      ]
]

unseen-nil : (rows : List RefreshToken) → unseen [] rows ≡ length rows
unseen-nil [] = refl
unseen-nil (r ∷ rows) = omega (arith, unseen-nil rows)

-- What a replay of the row `id` leaves: the walk ends, and a row can no longer be used exactly if
-- it is in the rotation chain of `id`, or could not be used before; and no row is linked otherwise.
pub record IsRevoked (id : Uuid) (rows rows' : List RefreshToken) : Type 0 where
  pub exactly :
      (x : Uuid)
      → has rows x ≡ true
      → (dead rows' x ≡ true) ↔ (Chain rows id x ⊎ (dead rows x ≡ true))
  pub links : (x : Uuid) → link rows' x ≡ link rows x
  pub present : (x : Uuid) → has rows' x ≡ has rows x

-- A row that has a successor is there.
has-link : (rows : List RefreshToken) (x b : Uuid) → link rows x ≡ some b → has rows x ≡ true
unfolding link
has-link rows x b e = elim (Option-cases (get rows x)) [
  | inl missing ↦ absurd (cc (rw missing at e))
  | inr (r, there) ↦ rw there refl
]

-- Every row of a chain is visited, since the visited rows are closed.
Chain-visited :
    (id : Uuid) (rows rows' : List RefreshToken) (s : IsSwept [] id rows rows') {x : Uuid}
    → Chain rows id x
    → has rows x ≡ true
    → is_seen x s.visited ≡ true
Chain-visited id rows rows' s Chain.here there = s.start
Chain-visited id rows rows' s (Chain.next {b = b} {c = c} before e) there =
    s.closed b c (Chain-visited id rows rows' s before (has-link rows b c e)) e there

-- The walk from a row that is there always ends, without running out of rounds, and then a row can no
-- longer be used exactly if it is in the rotation chain of that row, or could not be used before; and
-- no row is linked otherwise than it was.
pub revoke_descendants-IsRevoked :
    (now : Time) (rows : List RefreshToken) (r : RefreshToken)
    → get rows r.id ≡ some r
    → (rows' : List RefreshToken) × (revoke_descendants now r rows ≡ some rows')
      × IsRevoked r.id rows rows'
unfolding revoke_descendants
revoke_descendants-IsRevoked now rows r found =
    let (rows', ends, s) =
      walk-IsSwept (length rows + 1) now [] rows r found
        (record { done = λ x h. cc; leads = λ x b h. cc }) (omega (arith, unseen-nil rows)) in
    (
      rows',
      ends,
      record {
        exactly = λ x there. (
          λ h. elim (Bool-cases (is_seen x s.visited)) [
            | inl e ↦ elim (s.only x e) [ inl never ↦ absurd (cc) | inr chain ↦ inl chain ]
            | inr e ↦ inr (ground (arith, s.revoked x))
          ],
          λ h. elim h [
            | inl chain ↦ s.revoked x ∙ ground (arith, Chain-visited r.id rows rows' s chain there)
            | inr old ↦ s.revoked x ∙ ground arith
          ],
        );
        links = s.links;
        present = s.present;
      },
    )
