-- ===== src/Auth/Names/Suffixes.antt =====
-- The numbered candidates of a name differ: the number can be read back.
use claude_at_work_project.Prelude.{
  ℕ, zero, suc, ◌+◌, ◌-◌, ◌*◌, ◌/◌, ◌%◌, ◌≤◌, ◌<◌, ◌≡◌, refl, sym, ◌∙◌, ap, inl, inr, Bool, true,
  false, ◌||◌, [], ◌∷◌, ◌++◌, arith, ltb, ◌==◌, any, length, Bool-cases, if◌then◌else◌,
}
use claude_at_work_project.Shared.Pagination.{take}
use claude_at_work_project.Auth.Names.{Text, max_length, digits, decimal, candidate}

value : (so_far : ℕ) → Text → ℕ
value so_far [] = so_far
value so_far (c ∷ cs) = value (so_far * 10 + (c - 48)) cs

value-++ :
    (so_far : ℕ) (t : Text) (c : ℕ) → value so_far (t ++ (c ∷ [])) ≡ value so_far t * 10 + (c - 48)
unfolding value
value-++ so_far [] c = refl
value-++ so_far (x ∷ xs) c = value-++ (so_far * 10 + (x - 48)) xs c

value-digits : (fuel n : ℕ) → n < fuel → value 0 (digits fuel n) ≡ n
unfolding value
value-digits zero n h = absurd (omega (arith, h))
value-digits (suc fuel) n h = elim (Bool-cases (ltb n 10)) [
  | inl one ↦ rw one (omega arith)
  | inr more ↦
      let large : 10 ≤ n = ground (arith, more) in
      let front = value-digits fuel (n / 10) (omega (arith, h, large)) in
      rw more (
        value-++ 0 (digits fuel (n / 10)) (48 + n % 10)
        ∙ ap (λ v. v * 10 + (48 + n % 10 - 48)) front
        ∙ omega arith)
]

abbrev has_space : Text → Bool
has_space t = any (λ c. c == 32) t

any-++ : (xs ys : Text) → has_space (xs ++ ys) ≡ (has_space xs || has_space ys)
any-++ [] ys = refl
any-++ (x ∷ xs) ys = ground (arith, any-++ xs ys)

has_space-digits : (fuel n : ℕ) → has_space (digits fuel n) ≡ false
has_space-digits zero n = refl
has_space-digits (suc fuel) n = elim (Bool-cases (ltb n 10)) [
  | inl one ↦ rw one (ground arith)
  | inr more ↦ rw more (
      any-++ (digits fuel (n / 10)) ((48 + n % 10) ∷ [])
      ∙ rw (has_space-digits fuel (n / 10)) (ground arith))
]

-- What follows the last space.
after_space : Text → Text
after_space [] = []
after_space (c ∷ cs) = let rest = after_space cs in if has_space cs then rest else cs

after_space-++ : (base ds : Text) → has_space ds ≡ false → after_space (base ++ (32 ∷ ds)) ≡ ds
unfolding after_space
after_space-++ [] ds h = rw h refl
after_space-++ (x ∷ xs) ds h =
    let there : has_space (xs ++ (32 ∷ ds)) ≡ true = any-++ xs (32 ∷ ds) ∙ ground arith in
    rw there (after_space-++ xs ds h)

-- Two numbered candidates of one name that are the same have the same number.
pub candidate-differ :
    (base : Text) (i j : ℕ) → candidate base (suc i) ≡ candidate base (suc j) → i ≡ j
unfolding candidate
candidate-differ base i j same =
    let read : (k : ℕ) → value 0 (after_space (candidate base (suc k))) ≡ k + 2 = λ k.
      ap (value 0) (
        after_space-++ (take (max_length - length (32 ∷ decimal (k + 2))) base) (decimal (k + 2))
          (has_space-digits (k + 2 + 1) (k + 2)))
      ∙ value-digits (k + 2 + 1) (k + 2) (omega arith) in
    let numbers : i + 2 ≡ j + 2 = sym (read i) ∙ ap (λ t. value 0 (after_space t)) same ∙ read j in
    omega (arith, numbers)
