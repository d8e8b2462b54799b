-- ===== src/Messaging/Names/Strip.antt =====
-- What `strip` takes off a text: the space at its two ends.
use claude_at_work_project.Prelude.{
  ℕ, ◌≡◌, refl, inl, inr, ◌∙◌, true, false, ◌&&◌, [], ◌∷◌, ◌++◌, All, all, arith, Bool-cases, ap,
}
use claude_at_work_project.Messaging.Models.{Text}
use claude_at_work_project.Messaging.Names.{is_space, is_empty, lstrip, rstrip, is_name_char}

-- A name character is no space.
pub name_char-is_space : (c : ℕ) → is_name_char c ≡ true → is_space c ≡ false
unfolding is_space
name_char-is_space c h = ground arith

abbrev pub IsBlank : Text → Type 0
IsBlank cs = All (λ c. is_space c ≡ true) cs

pub lstrip-split : (cs : Text) → (before : Text) × IsBlank before × (cs ≡ before ++ lstrip cs)
unfolding lstrip
lstrip-split [] = ([], tt, refl)
lstrip-split (c ∷ cs) = elim (Bool-cases (is_space c)) [
  | inl e ↦
      let (before, blank, whole) = lstrip-split cs in
      (c ∷ before, (e, blank), rw e (ap (λ (t : Text). c ∷ t) whole))
  | inr e ↦ ([], tt, rw e refl)
]

pub rstrip-split : (cs : Text) → (after : Text) × IsBlank after × (cs ≡ rstrip cs ++ after)
unfolding rstrip
rstrip-split [] = ([], tt, refl)
rstrip-split (c ∷ cs) =
    let (after, blank, whole) = rstrip-split cs in
    elim (Bool-cases (is_space c && is_empty (rstrip cs))) [
      | inl e ↦ (
        c ∷ after,
        (ground arith, blank),
        rw e (ap (λ (t : Text). c ∷ t) (whole ∙ rw (empty_nil (rstrip cs) (ground arith)) refl)),
      )
      | inr e ↦ (after, blank, rw e (ap (λ (t : Text). c ∷ t) whole))
    ]
  where
    empty_nil : (t : Text) → is_empty t ≡ true → t ≡ []
    empty_nil [] h = refl
    empty_nil (x ∷ t) h = ground arith

pub lstrip-blank :
    (before : Text) (c : ℕ) (cs : Text)
    → IsBlank before
    → is_space c ≡ false
    → lstrip (before ++ (c ∷ cs)) ≡ c ∷ cs
unfolding lstrip
lstrip-blank [] c cs blank e = rw e refl
lstrip-blank (b ∷ before) c cs blank e = rw blank.0 (lstrip-blank before c cs blank.1 e)

rstrip-blank : (after : Text) → IsBlank after → rstrip after ≡ []
unfolding rstrip
rstrip-blank [] blank = refl
rstrip-blank (c ∷ after) blank = rw (blank.0, rstrip-blank after blank.1) refl

pub rstrip-append :
    (name after : Text)
    → all is_name_char name ≡ true
    → IsBlank after
    → rstrip (name ++ after) ≡ name
unfolding rstrip
rstrip-append [] after h blank = rstrip-blank after blank
rstrip-append (c ∷ name) after h blank =
    let shown : is_name_char c ≡ true = ground arith in
    rw (name_char-is_space c shown)
      (ap (λ (t : Text). c ∷ t) (rstrip-append name after (ground arith) blank))

pub rstrip-all : (cs : Text) → all is_name_char cs ≡ true → rstrip cs ≡ cs
unfolding rstrip
rstrip-all [] h = refl
rstrip-all (c ∷ cs) h = elim (Bool-cases (is_name_char c)) [
  | inl e ↦
      let tail : all is_name_char cs ≡ true = rw e at h in
      rw (name_char-is_space c e) (ap (λ (t : Text). c ∷ t) (rstrip-all cs tail))
  | inr e ↦ absurd (cc (rw e at h))
]
