-- ===== src/Shared/Pagination/Ordered.antt =====
-- `ORDER BY` a key, by insertion, and what it gives where no two rows have one key.
use claude_at_work_project.Prelude.{
  ◌≡◌, refl, ◌∙◌, inl, inr, Bool, true, ◌||◌, List, [], ◌∷◌, arith, length, suc, ap, count, All,
  All-map, Bool-cases, if◌then◌else◌,
}
use claude_at_work_project.Shared.Pagination.Walk.{Sorted}

module _ {T C : Type 0} (lt : C → C → Bool) (key : T → C) where
  unfoldable pub insert : T → List T → List T
  insert x [] = x ∷ []
  insert x (y ∷ ys) =
      let rest = insert x ys in if lt (key x) (key y) then x ∷ (y ∷ ys) else y ∷ rest

  unfoldable pub order_by : List T → List T
  unfolding insert
  order_by [] = []
  order_by (x ∷ xs) = insert x (order_by xs)

  -- One of two keys is before the other.
  abbrev pub Differs : T → List T → Type 0
  Differs x ys = All (λ y. lt (key x) (key y) || lt (key y) (key x) ≡ true) ys

  abbrev pub AllDiffer : List T → Type 0
  AllDiffer [] = Unit
  AllDiffer (x ∷ xs) = Differs x xs × AllDiffer xs

  pub count-insert : (p : T → Bool) (x : T) (ys : List T) → count p (insert x ys) ≡ count p (x ∷ ys)
  unfolding insert
  count-insert p x [] = refl
  count-insert p x (y ∷ ys) = ground (arith, count-insert p x ys)

  -- The rows are the same.
  pub count-order_by : (p : T → Bool) (xs : List T) → count p (order_by xs) ≡ count p xs
  unfolding order_by
  count-order_by p [] = refl
  count-order_by p (x ∷ xs) =
      let front = count-insert p x (order_by xs) in ground (arith, front, count-order_by p xs)

  length-insert : (x : T) (ys : List T) → length (insert x ys) ≡ suc (length ys)
  unfolding insert
  length-insert x [] = refl
  length-insert x (y ∷ ys) = ground (arith, length-insert x ys)

  pub length-order_by : (xs : List T) → length (order_by xs) ≡ length xs
  unfolding order_by
  length-order_by [] = refl
  length-order_by (x ∷ xs) = length-insert x (order_by xs) ∙ ap (λ n. suc n) (length-order_by xs)

  All-insert : (P : T → Type 0) (x : T) (ys : List T) → P x → All P ys → All P (insert x ys)
  unfolding insert
  All-insert P x [] h hs = (h, tt)
  All-insert P x (y ∷ ys) h hs = elim (Bool-cases (lt (key x) (key y))) [
    | inl e ↦ rw e (h, hs)
    | inr e ↦ rw e (hs.0, All-insert P x ys h hs.1)
  ]

  All-order_by : (P : T → Type 0) (xs : List T) → All P xs → All P (order_by xs)
  unfolding order_by
  All-order_by P [] h = tt
  All-order_by P (x ∷ xs) h = All-insert P x (order_by xs) h.0 (All-order_by P xs h.1)

  module _ (transitive : (a b c : C) → lt a b ≡ true → lt b c ≡ true → lt a c ≡ true) where
    insert-Sorted :
        (x : T) (ys : List T) → Differs x ys → Sorted lt key ys → Sorted lt key (insert x ys)
    unfolding insert
    insert-Sorted x [] d s = (tt, tt)
    insert-Sorted x (y ∷ ys) d s = elim (Bool-cases (lt (key x) (key y))) [
      | inl e ↦ rw e (((e, All-map ys (λ z h. transitive (key x) (key y) (key z) e h) s.0), s))
      | inr e ↦
          let back : lt (key y) (key x) ≡ true = rw e at d.0 in
          rw e
            (All-insert (λ z. lt (key y) (key z) ≡ true) x ys back s.0, insert-Sorted x ys d.1 s.1)
    ]

    -- Rows with different keys come out in their strict order.
    pub order_by-Sorted : (xs : List T) → AllDiffer xs → Sorted lt key (order_by xs)
    unfolding order_by
    order_by-Sorted [] d = tt
    order_by-Sorted (x ∷ xs) d =
        insert-Sorted x (order_by xs)
          (All-order_by (λ y. lt (key x) (key y) || lt (key y) (key x) ≡ true) xs d.0)
          (order_by-Sorted xs d.1)
