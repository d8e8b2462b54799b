-- ===== src/Asset/Confirms.antt =====
-- An upload is confirmed once: whatever a later confirmation is told, it answers as the first did.
use claude_at_work_project.Prelude.{
  ℕ, ◌≡◌, refl, inl, inr, ap, true, false, Option, none, some, arith, ==_refl, find,
  find-update_where, update_where, Option-cases, Bool-cases, ok, subst,
}
use claude_at_work_project.Asset.Rules.{is_pending, Asset, confirm_outcome}
use claude_at_work_project.Asset.Routes.{
  Store, Head, unreachable, holds, is_own, is_pending_row, confirmed, settle, confirm_upload,
}

-- An outcome is final.
confirm_outcome-final :
    (declared max_bytes : ℕ) (stored : Option ℕ)
    → is_pending (confirm_outcome declared stored max_bytes).0 ≡ false
unfolding confirm_outcome
confirm_outcome-final declared max_bytes none = refl
confirm_outcome-final declared max_bytes (some n) = ground arith

confirm_final :
    (id workspace user max_bytes now : ℕ) (head : Head) (s : Store) (a : Asset)
    → find (is_own id workspace user) s ≡ some a
    → is_pending a.status ≡ false
    → confirm_upload id workspace user head max_bytes now s ≡ (ok a, s)
unfolding confirm_upload
confirm_final id workspace user max_bytes now head s a found final =
    rw (found, confirm_upload) (rw final)

settle-final :
    (id workspace user max_bytes now : ℕ) (head : Head) (s s' : Store) (a a' : Asset)
    → find (is_own id workspace user) s ≡ some a
    → is_pending a.status ≡ true
    → settle a head max_bytes now s ≡ (ok a', s')
    → (find (is_own id workspace user) s' ≡ some a') × (is_pending a'.status ≡ false)
settle-final id workspace user max_bytes now unreachable s s' a a' found open_ h =
    absurd (ground arith)
settle-final id workspace user max_bytes now (holds stored) s s' a a' found open_ h =
    let write = confirmed (confirm_outcome a.size_bytes stored max_bytes) now in
    let written : update_where (is_pending_row a.id) write s ≡ s' = ground arith in
    let row : write a ≡ a' = ground arith in
    (
      subst (λ t. find (is_own id workspace user) t ≡ some a') written
          (rw
            (
              find-update_where (is_own id workspace user) (is_pending_row a.id) write s
                  (λ x. refl),
              found,
            )
            (rw (==_refl a.id, open_) (ap some row))),
      subst (λ (x : Asset). is_pending x.status ≡ false) row
          (confirm_outcome-final a.size_bytes max_bytes stored),
    )

-- A confirmation that is answered leaves the caller's asset ready or failed, as it says, and any
-- later confirmation by the same person, whatever the object store then holds, answers the same
-- and writes nothing.
pub confirm_upload_again :
    (id workspace user max_bytes now now' : ℕ) (head head' : Head) (s s' : Store) (a : Asset)
    → confirm_upload id workspace user head max_bytes now s ≡ (ok a, s')
    → (find (is_own id workspace user) s' ≡ some a)
      × (is_pending a.status ≡ false)
      × (confirm_upload id workspace user head' max_bytes now' s' ≡ (ok a, s'))
unfolding confirm_upload
confirm_upload_again id workspace user max_bytes now now' head head' s s' a h =
    elim (Option-cases (find (is_own id workspace user) s)) [
      | inl e ↦ absurd (cc (rw (e, confirm_upload) at h))
      | inr (b, e) ↦ elim (Bool-cases (is_pending b.status)) [
        | inl p ↦
            let (found, final) =
              settle-final id workspace user max_bytes now head s s' b a e p
                (rw (e, p, confirm_upload) at h) in
            (found, final, confirm_final id workspace user max_bytes now' head' s' a found final)
        | inr p ↦
            let same : (b ≡ a) × (s ≡ s') = ground arith in
            let found : find (is_own id workspace user) s' ≡ some a =
              subst (λ t. find (is_own id workspace user) t ≡ some a) same.1
                (rw e (ap some same.0)) in
            let final : is_pending a.status ≡ false =
              subst (λ (x : Asset). is_pending x.status ≡ false) same.0 p in
            (found, final, confirm_final id workspace user max_bytes now' head' s' a found final)
      ]
    ]
