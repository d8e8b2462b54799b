-- ===== src/Shared/Pagination/Cuts.antt =====
-- Lists cut at a page: lemmas on `take`, `last` and the rows that a test selects.
use claude_at_work_project.Prelude.{
  ℕ, zero, suc, ◌≤◌, ◌<◌, ◌≡◌, refl, ap, Bool, true, some, List, [], ◌∷◌, ◌++◌, arith, ltb, select,
  length, All,
}
use claude_at_work_project.Shared.Pagination.{take, last}

module _ {T : Type 0} where
  pub select-All : (p : T → Bool) (xs : List T) → All (λ x. p x ≡ true) xs → select p xs ≡ xs
  select-All p [] h = refl
  select-All p (x ∷ xs) h = rw (h.0, select-All p xs h.1) refl

  pub take_all : (n : ℕ) (xs : List T) → length xs ≤ n → take n xs ≡ xs
  unfolding take
  take_all zero [] h = refl
  take_all zero (x ∷ xs) h = absurd (omega (arith, h))
  take_all (suc n) [] h = refl
  take_all (suc n) (x ∷ xs) h = ap (λ ys. x ∷ ys) (take_all n xs (omega (arith, h)))

  -- Rows that do not fit the page: those that do, the last of them, and the rest.
  pub record IsCut (n : ℕ) (xs : List T) : Type 0 where
    pub before : List T
    pub end : T
    pub after : List T
    pub whole : xs ≡ before ++ (end ∷ after)
    pub page : take (suc n) xs ≡ before ++ (end ∷ [])
    pub last_one : last (take (suc n) xs) ≡ some end
    pub shorter : length after < length xs

  pub cut : (n : ℕ) (xs : List T) → suc n ≤ length xs → IsCut n xs
  unfolding take last
  cut n [] h = absurd (omega (arith, h))
  cut zero (x ∷ xs) h = record {
    before = [];
    end = x;
    after = xs;
    whole = refl;
    page = refl;
    last_one = refl;
    shorter = omega arith;
  }
  cut (suc n) (x ∷ []) h = absurd (omega (arith, h))
  cut (suc n) (x ∷ (y ∷ ys)) h =
      let c = cut n (y ∷ ys) (omega (arith, h)) in
      record {
        before = x ∷ c.before;
        end = c.end;
        after = c.after;
        whole = ap (λ zs. x ∷ zs) c.whole;
        page = ap (λ zs. x ∷ zs) c.page;
        last_one = c.last_one;
        shorter = omega (arith, c.shorter);
      }

  -- A page that was asked for with one row more.
  pub take-take : (n : ℕ) (xs : List T) → take n (take (suc n) xs) ≡ take n xs
  unfolding take
  take-take zero xs = refl
  take-take (suc n) [] = refl
  take-take (suc n) (x ∷ xs) = ap (λ ys. x ∷ ys) (take-take n xs)

  pub has_more : (n : ℕ) (xs : List T) → ltb n (length (take (suc n) xs)) ≡ ltb n (length xs)
  unfolding take
  has_more n [] = refl
  has_more zero (x ∷ xs) = ground arith
  has_more (suc n) (x ∷ xs) = ground (arith, has_more n xs)

  pub All-middle :
      (P : T → Type 0) (xs : List T) (x : T) (ys : List T) → All P (xs ++ (x ∷ ys)) → P x
  All-middle P [] x ys h = h.0
  All-middle P (w ∷ xs) x ys h = All-middle P xs x ys h.1

  pub All-true : (xs : List T) → All (λ x. true ≡ true) xs
  All-true [] = tt
  All-true (x ∷ xs) = (refl, All-true xs)

  pub ++-assoc : (xs ys zs : List T) → (xs ++ ys) ++ zs ≡ xs ++ (ys ++ zs)
  ++-assoc [] ys zs = refl
  ++-assoc (x ∷ xs) ys zs = ap (λ ws. x ∷ ws) (++-assoc xs ys zs)
