-- ===== src/Auth/Names/Candidates.antt =====
-- A free name is always found.
use claude_at_work_project.Prelude.{
  ℕ, zero, suc, ◌+◌, ◌≤◌, ◌<◌, ◌≡◌, refl, sym, ◌∙◌, ap, subst, inl, inr, true, false, none, some,
  List, [], ◌∷◌, arith, ==_refl, count, length, Apart, Unique, Bool-cases, Option-cases,
}
use claude_at_work_project.Messaging.Models.{same_text}
use claude_at_work_project.Auth.Names.{
  Text, Unicode, name_key, candidate, is_taken_by, search, first_free,
}

pub same_text_refl : (a : Text) → same_text a a ≡ true
same_text_refl [] = refl
same_text_refl (c ∷ cs) = rw (==_refl c) (same_text_refl cs)

pub same_text_sound : (a b : Text) → same_text a b ≡ true → a ≡ b
same_text_sound [] [] h = refl
same_text_sound [] (d ∷ ds) h = absurd (cc)
same_text_sound (c ∷ cs) [] h = absurd (cc)
same_text_sound (c ∷ cs) (d ∷ ds) h =
    let head : c ≡ d = ground (arith, h) in
    let tail : cs ≡ ds = same_text_sound cs ds (ground (arith, h)) in rw (head, tail) refl

count_others :
    (t x : Text) (xs : List Text)
    → same_text x t ≡ true
    → Apart same_text x xs
    → count (λ y. same_text y t) xs ≡ 0
count_others t x [] e h = refl
count_others t x (y ∷ ys) e h = elim (Bool-cases (same_text y t)) [
  | inr other ↦ rw other (count_others t x ys e h.1)
  | inl again ↦
      let same : x ≡ y = same_text_sound x t e ∙ sym (same_text_sound y t again) in
      let hit : same_text x y ≡ true =
        subst (λ (z : Text). same_text x z ≡ true) same (same_text_refl x) in
      absurd (cc (hit, h.0))
]

-- Of different texts at most one is a given text.
count-Unique : (t : Text) (xs : List Text) → Unique same_text xs → count (λ x. same_text x t) xs ≤ 1
count-Unique t [] h = omega arith
count-Unique t (x ∷ xs) h = elim (Bool-cases (same_text x t)) [
  | inr e ↦ rw e (count-Unique t xs h.1)
  | inl e ↦ rw e (omega (arith, count_others t x xs e h.0))
]

count_taken :
    (t : Text) (ts xs : List Text)
    → count (λ x. is_taken_by x (t ∷ ts)) xs
      ≤ count (λ x. same_text x t) xs + count (λ x. is_taken_by x ts) xs
count_taken t ts [] = omega arith
count_taken t ts (x ∷ xs) = ground (arith, count_taken t ts xs)

count_untaken : (xs : List Text) → count (λ x. is_taken_by x []) xs ≡ 0
count_untaken [] = refl
count_untaken (x ∷ xs) = count_untaken xs

-- Of different texts at most as many are in a list as it is long.
count-is_taken_by :
    (taken xs : List Text)
    → Unique same_text xs
    → count (λ x. is_taken_by x taken) xs ≤ length taken
count-is_taken_by [] xs h = omega (arith, count_untaken xs)
count-is_taken_by (t ∷ ts) xs h =
    omega (arith, count-Unique t xs h, count-is_taken_by ts xs h, count_taken t ts xs)

module _ (u : Unicode) (base : Text) where
  -- The keys of the numbered candidates differ. The first candidate can be one of them over again:
  -- a name of `max_length` characters that ends in " 2".
  abbrev pub KeysDiffer : Type 0
  KeysDiffer =
      (i j : ℕ) → name_key u (candidate base (suc i)) ≡ name_key u (candidate base (suc j)) → i ≡ j

  abbrev keys : (fuel k : ℕ) → List Text
  keys zero k = []
  keys (suc fuel) k = name_key u (candidate base k) ∷ keys fuel (suc k)

  Apart-keys :
      (differ : KeysDiffer) (fuel i k : ℕ)
      → i < k
      → Apart same_text (name_key u (candidate base (suc i))) (keys fuel (suc k))
  Apart-keys differ zero i k less = tt
  Apart-keys differ (suc fuel) i k less = (
    elim (Bool-cases
        (same_text (name_key u (candidate base (suc i))) (name_key u (candidate base (suc k))))) [
          | inr e ↦ e
          | inl e ↦ absurd (omega (arith, less, differ i k (same_text_sound _ _ e)))
        ],
    Apart-keys differ fuel i (suc k) (omega (arith, less)),
  )

  Unique-keys : (differ : KeysDiffer) (fuel k : ℕ) → Unique same_text (keys fuel (suc k))
  Unique-keys differ zero k = tt
  Unique-keys differ (suc fuel) k =
      (Apart-keys differ fuel k (suc k) (omega arith), Unique-keys differ fuel (suc k))

  -- A name that the search gives is free.
  pub search-free :
      (fuel k : ℕ) (taken : List Text) (name : Text)
      → search u fuel k base taken ≡ some name
      → is_taken_by (name_key u name) taken ≡ false
  unfolding search
  search-free zero k taken name e = absurd (cc)
  search-free (suc fuel) k taken name e =
      elim (Bool-cases (is_taken_by (name_key u (candidate base k)) taken)) [
        | inl used ↦ search-free fuel (suc k) taken name (rw used at e)
        | inr free ↦
            let same : candidate base k ≡ name = ground (arith, rw free at e) in
            subst (λ (n : Text). is_taken_by (name_key u n) taken ≡ false) same free
      ]

  search_ends :
      (fuel k : ℕ) (taken : List Text)
      → (search u fuel k base taken ≡ none)
      → count (λ x. is_taken_by x taken) (keys fuel k) ≡ fuel
  unfolding search
  search_ends zero k taken e = refl
  search_ends (suc fuel) k taken e =
      elim (Bool-cases (is_taken_by (name_key u (candidate base k)) taken)) [
        | inr free ↦ absurd (cc (rw free at e))
        | inl used ↦ rw used (ap (λ n. suc n) (search_ends fuel (suc k) taken (rw used at e)))
      ]

  pub first_free_lem :
      (differ : KeysDiffer) (taken : List Text)
      → (name : Text) × (first_free u base taken ≡ some name)
        × (is_taken_by (name_key u name) taken ≡ false)
  unfolding first_free
  first_free_lem differ taken =
      let two : length taken + 2 ≡ suc (length taken + 1) = omega arith in
      elim (Option-cases (search u (length taken + 2) 0 base taken)) [
        | inl e ↦
            let many = search_ends (suc (length taken + 1)) 0 taken (rw two at e) in
            let few =
              count-is_taken_by taken (keys (length taken + 1) 1)
                (Unique-keys differ (length taken + 1) 0) in
            absurd (ground (arith, many, few))
        | inr (name, e) ↦ (name, e, search-free (length taken + 2) 0 taken name e)
      ]
