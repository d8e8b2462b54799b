-- ===== src/Prelude/Tables.antt =====
-- Tables as lists: the rows that a query finds, counts, writes and deletes.
use Prim.Native.Nat.{ℕ, suc, ◌+◌, ◌≤◌}
use mathlib.Core.Path.{◌≡◌, refl, subst}
use mathlib.Core.Logic.{inl, inr}
use mathlib.Core.Bool.{Bool, true, false, not, ◌&&◌}
use mathlib.Core.List.{List, [], ◌∷◌}
use mathlib.Core.Option.{Option, none, some}
use native.Mathlib.Omega.{arith}
use claude_at_work_project.Prelude.Tests.{if◌then◌else◌, Bool-cases}
use claude_at_work_project.Prelude.Lists.{select, find, any, length, update_where}

-- `None` stays `None`.
abbrev pub map_option {ℓ κ} : {A : Type ℓ} {B : Type κ} → (A → B) → Option A → Option B
map_option f none = none
map_option f (some a) = some (f a)

module _ {ℓ} {A : Type ℓ} where
  -- `SELECT count(*) … WHERE p`
  abbrev pub count : (A → Bool) → List A → ℕ
  count p [] = 0
  count p (x ∷ xs) = let rest = count p xs in if p x then suc rest else rest

  -- No two rows have the same key: `same x y` says that they do.
  abbrev pub Apart : (A → A → Bool) → A → List A → Type 0
  Apart same x [] = Unit
  Apart same x (y ∷ ys) = (same x y ≡ false) × Apart same x ys

  abbrev pub Unique : (A → A → Bool) → List A → Type 0
  Unique same [] = Unit
  Unique same (x ∷ xs) = Apart same x xs × Unique same xs

  pub find-holds : (p : A → Bool) (xs : List A) {x : A} → find p xs ≡ some x → p x ≡ true
  find-holds p [] h = ground arith
  find-holds p (y ∷ ys) {x} h = ground (arith, find-holds p ys {x = x})

  -- A write that leaves the tested columns alone is seen in the row that is found.
  pub find-update_where :
      (p q : A → Bool) (f : A → A) (xs : List A)
      → ((x : A) → p (f x) ≡ p x)
      → find p (update_where q f xs) ≡ map_option (λ x. if q x then f x else x) (find p xs)
  find-update_where p q f [] keep = refl
  find-update_where p q f (x ∷ xs) keep = ground (arith, keep x, find-update_where p q f xs keep)

  pub count-select :
      (p q : A → Bool) (xs : List A)
      → count p (select q xs) + count (λ x. p x && not (q x)) xs ≡ count p xs
  count-select p q [] = omega arith
  count-select p q (x ∷ xs) = ground (arith, count-select p q xs)

  pub count-select_and :
      (p q : A → Bool) (xs : List A) → count p (select q xs) ≡ count (λ x. p x && q x) xs
  count-select_and p q [] = refl
  count-select_and p q (x ∷ xs) = ground (arith, count-select_and p q xs)

  pub length-select : (q : A → Bool) (xs : List A) → length (select q xs) ≤ length xs
  length-select q [] = omega arith
  length-select q (x ∷ xs) = ground (arith, length-select q xs)

  pub count-without :
      (p k : A → Bool) (xs : List A)
      → count p (select (λ x. not (k x)) xs) + count (λ x. p x && k x) xs ≡ count p xs
  count-without p k [] = omega arith
  count-without p k (x ∷ xs) = ground (arith, count-without p k xs)

  -- Rows with one key, counted: at most one.
  pub count-Apart :
      (same : A → A → Bool) (p : A → Bool) (x : A) (xs : List A)
      → ((y : A) → p y ≡ true → same x y ≡ true)
      → Apart same x xs
      → count p xs ≡ 0
  count-Apart same p x [] key h = refl
  count-Apart same p x (y ∷ ys) key h = ground (arith, key y, count-Apart same p x ys key h.1)

  pub Apart-select :
      (same : A → A → Bool) (q : A → Bool) (x : A) (xs : List A)
      → Apart same x xs
      → Apart same x (select q xs)
  Apart-select same q x [] h = tt
  Apart-select same q x (y ∷ ys) h = elim (Bool-cases (q y)) [
    | inl e ↦ rw e (h.0, Apart-select same q x ys h.1)
    | inr e ↦ rw e (Apart-select same q x ys h.1)
  ]

  pub Unique-select :
      (same : A → A → Bool) (q : A → Bool) (xs : List A)
      → Unique same xs
      → Unique same (select q xs)
  Unique-select same q [] h = tt
  Unique-select same q (x ∷ xs) h = elim (Bool-cases (q x)) [
    | inl e ↦ rw e (Apart-select same q x xs h.0, Unique-select same q xs h.1)
    | inr e ↦ rw e (Unique-select same q xs h.1)
  ]

  -- An insert that the key's index lets through.
  pub Apart-any :
      (same : A → A → Bool) (x : A) (xs : List A) → any (same x) xs ≡ false → Apart same x xs
  Apart-any same x [] h = tt
  Apart-any same x (y ∷ ys) h = (ground arith, Apart-any same x ys (ground arith))

  -- A query by a key and a condition reads the one row that has the key.
  pub find-none-Apart :
      (same : A → A → Bool) (p k : A → Bool) (x : A) (xs : List A)
      → ((y : A) → k y ≡ true → same x y ≡ true)
      → Apart same x xs
      → find (λ y. p y && k y) xs ≡ none
  find-none-Apart same p k x [] key h = refl
  find-none-Apart same p k x (y ∷ ys) key h =
      ground (arith, key y, find-none-Apart same p k x ys key h.1)

  pub find-Unique :
      (same : A → A → Bool) (p k : A → Bool) (xs : List A)
      → ((x y : A) → k x ≡ true → k y ≡ true → same x y ≡ true)
      → Unique same xs
      → find (λ x. p x && k x) xs
        ≡ elim (find k xs) [ none ↦ none | some x ↦ if p x then some x else none ]
  find-Unique same p k [] key h = refl
  find-Unique same p k (x ∷ xs) key h = elim (Bool-cases (k x)) [
    | inr e ↦ ground (arith, find-Unique same p k xs key h.1)
    | inl e ↦ ground (arith, find-none-Apart same p k x xs (λ y. key x y e) h.0)
  ]

  -- The row that a key finds decides how many rows of the key pass a test.
  pub count-none_Apart :
      (same : A → A → Bool) (p k : A → Bool) (x : A) (xs : List A)
      → ((y : A) → k y ≡ true → same x y ≡ true)
      → Apart same x xs
      → count (λ y. p y && k y) xs ≡ 0
  count-none_Apart same p k x [] key h = refl
  count-none_Apart same p k x (y ∷ ys) key h =
      ground (arith, key y, count-none_Apart same p k x ys key h.1)

  pub count-find :
      (same : A → A → Bool) (p k : A → Bool) (xs : List A) (x : A)
      → ((x y : A) → k x ≡ true → k y ≡ true → same x y ≡ true)
      → Unique same xs
      → find k xs ≡ some x
      → count (λ y. p y && k y) xs ≡ (if p x then 1 else 0)
  count-find same p k [] x key h e = cc
  count-find same p k (y ∷ ys) x key h e = elim (Bool-cases (k y)) [
    | inl yes_k ↦ ground (arith, count-none_Apart same p k y ys (λ z. key y z yes_k) h.0)
    | inr no_k ↦ ground (arith, count-find same p k ys x key h.1)
  ]

  -- A property of every row.
  abbrev pub All {κ} : (A → Type κ) → List A → Type κ
  All P [] = Unit
  All P (x ∷ xs) = P x × All P xs

  pub All-map {κ} : {P Q : A → Type κ} (xs : List A) → ((x : A) → P x → Q x) → All P xs → All Q xs
  All-map [] f h = tt
  All-map (x ∷ xs) f h = (f x h.0, All-map xs f h.1)

  pub All-update_where {κ} :
      {P : A → Type κ} (q : A → Bool) (f : A → A) (xs : List A)
      → ((x : A) → P x → P (f x))
      → All P xs
      → All P (update_where q f xs)
  All-update_where q f [] keep h = tt
  All-update_where q f (x ∷ xs) keep h = elim (Bool-cases (q x)) [
    | inl e ↦ rw e (keep x h.0, All-update_where q f xs keep h.1)
    | inr e ↦ rw e (h.0, All-update_where q f xs keep h.1)
  ]

  -- A row that is found is one of the rows.
  pub All-find {κ} :
      (P : A → Type κ) (p : A → Bool) (xs : List A) (x : A) → All P xs → find p xs ≡ some x → P x
  All-find P p [] x h e = cc
  All-find P p (y ∷ ys) x h e = elim (Bool-cases (p y)) [
    | inl hit ↦ subst P (let same : y ≡ x = ground arith in same) h.0
    | inr miss ↦ All-find P p ys x h.1 (ground arith)
  ]

  -- A write that leaves the keys alone keeps them apart.
  pub Apart-update_where :
      (same : A → A → Bool) (q : A → Bool) (f : A → A) (x : A) (xs : List A)
      → ((y z : A) → same (f y) z ≡ same y z)
      → ((y z : A) → same y (f z) ≡ same y z)
      → Apart same x xs
      → Apart same (if q x then f x else x) (update_where q f xs)
  Apart-update_where same q f x [] left right h = tt
  Apart-update_where same q f x (y ∷ ys) left right h = (
    ground (arith, left x y, right x y, left x (f y), h.0),
    Apart-update_where same q f x ys left right h.1,
  )

  pub Unique-update_where :
      (same : A → A → Bool) (q : A → Bool) (f : A → A) (xs : List A)
      → ((y z : A) → same (f y) z ≡ same y z)
      → ((y z : A) → same y (f z) ≡ same y z)
      → Unique same xs
      → Unique same (update_where q f xs)
  Unique-update_where same q f [] left right h = tt
  Unique-update_where same q f (x ∷ xs) left right h = (
    Apart-update_where same q f x xs left right h.0,
    Unique-update_where same q f xs left right h.1,
  )

  -- A property of the rows after an update, from one of the rows before.
  pub All-update {κ} :
      (q : A → Bool) (f : A → A) (P Q : A → Type κ) (xs : List A)
      → ((x : A) → P x → Q (if q x then f x else x))
      → All P xs
      → All Q (update_where q f xs)
  All-update q f P Q [] g h = tt
  All-update q f P Q (x ∷ xs) g h = (g x h.0, All-update q f P Q xs g h.1)

  -- What no row passes, the row that is found does not pass.
  pub any-find :
      (p q : A → Bool) (xs : List A) (x : A) → any p xs ≡ false → find q xs ≡ some x → p x ≡ false
  any-find p q [] x h e = cc
  any-find p q (y ∷ ys) x h e = elim (Bool-cases (q y)) [
    | inl hit ↦
        subst (λ (z : A). p z ≡ false) (let same : y ≡ x = ground arith in same) (ground arith)
    | inr miss ↦ any-find p q ys x (ground arith) (ground arith)
  ]

  pub Apart-find :
      (same : A → A → Bool) (q : A → Bool) (y : A) (xs : List A) (x : A)
      → Apart same y xs
      → find q xs ≡ some x
      → same y x ≡ false
  Apart-find same q y [] x h e = cc
  Apart-find same q y (z ∷ zs) x h e = elim (Bool-cases (q z)) [
    | inl hit ↦ subst (λ (w : A). same y w ≡ false) (let eq : z ≡ x = ground arith in eq) h.0
    | inr miss ↦ Apart-find same q y zs x h.1 (ground arith)
  ]

  -- Where a key has one row, a row that is found otherwise is the one that its key finds.
  pub find-key :
      (same : A → A → Bool) (q k : A → Bool) (xs : List A) (x : A)
      → ((y : A) → k y ≡ true → same y x ≡ true)
      → k x ≡ true
      → Unique same xs
      → find q xs ≡ some x
      → find k xs ≡ some x
  find-key same q k [] x key own one e = cc
  find-key same q k (y ∷ ys) x key own one e = elim (Bool-cases (q y)) [
    | inl hit ↦ let eq : y ≡ x = ground arith in rw eq (rw own)
    | inr miss ↦ elim (Bool-cases (k y)) [
      | inl clash ↦ absurd (cc (key y clash, Apart-find same q y ys x one.0 (ground arith)))
      | inr other ↦ rw other (find-key same q k ys x key own one.1 (ground arith))
    ]
  ]
