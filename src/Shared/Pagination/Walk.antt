-- ===== src/Shared/Pagination/Walk.antt =====
-- A keyset query, page by page: from the first page on, following each cursor, until there is none.
use claude_at_work_project.Prelude.{
  ℕ, zero, suc, ◌+◌, ◌≤◌, ◌<◌, ◌≡◌, refl, sym, ◌∙◌, ap, subst, Bool, true, false, Option, none,
  some, List, [], ◌∷◌, ◌++◌, arith, ltb, select, length, map_option, if◌then◌else◌, Bool-cases, inl,
  inr, All,
}
use claude_at_work_project.Shared.Pagination.{
  Text, PageRequest, fetch_limit, Page, take, last, build_page,
}
use claude_at_work_project.Shared.Pagination.Cuts.{
  select-All, take_all, cut, take-take, has_more, All-middle, ++-assoc, All-true,
}

-- `WHERE key > cursor`, or no condition, of rows in the order of the key.
abbrev pub is_after : {T C : Type 0} → (C → C → Bool) → (T → C) → Option C → T → Bool
is_after lt key none x = true
is_after lt key (some c) x = lt c (key x)

-- … with `LIMIT page.fetch_limit`, as a page.
abbrev pub keyset_page :
    {T C : Type 0} → (C → C → Bool) → (T → C) → (C → Text) → List T → PageRequest C → Page T
keyset_page lt key text table request =
    build_page (λ x. text (key x))
      (take (fetch_limit request) (select (is_after lt key request.cursor) table)) request

-- The items of a page and of those after it, if it gives a cursor.
abbrev pub followed : {T : Type 0} → Page T → Option (List T) → Option (List T)
followed p rest = elim p.next_cursor [
  | none ↦ some p.items
  | some c ↦ map_option (λ xs. p.items ++ xs) rest
]

-- What a client does: `request` is the route's reading of the limit and the cursor, and `page` the
-- route. `none` means that a cursor was refused, or that the fuel ran out.
unfoldable pub walk :
    {T C : Type 0}
    → (ℕ → Option Text → Option (PageRequest C))
    → (PageRequest C → Page T)
    → (limit fuel : ℕ) → Option Text
    → Option (List T)
walk request page limit zero cursor = none
walk request page limit (suc fuel) cursor = elim (request limit cursor) [
  | none ↦ none
  | some r ↦ followed (page r) (walk request page limit fuel (page r).next_cursor)
]

-- Each row is before every row after it.
abbrev pub Sorted : {T C : Type 0} → (C → C → Bool) → (T → C) → List T → Type 0
Sorted lt key [] = Unit
Sorted lt key (x ∷ xs) = All (λ y. lt (key x) (key y) ≡ true) xs × Sorted lt key xs

pub record IsOrder {C : Type 0} (lt : C → C → Bool) : Type 0 where
  pub irreflexive : (a : C) → lt a a ≡ false
  pub asymmetric : (a b : C) → lt a b ≡ true → lt b a ≡ false

-- The route's reading of a cursor undoes its writing.
pub record IsRead {C : Type 0} (text : C → Text)
    (request : ℕ → Option Text → Option (PageRequest C)) (limit : ℕ) : Type 0 where
  pub first : request limit none ≡ some (record { limit = limit; cursor = none })
  pub later :
      (c : C) → request limit (some (text c)) ≡ some (record { limit = limit; cursor = some c })

module _ {T C : Type 0} (lt : C → C → Bool) (key : T → C) (text : C → Text)
    (request : ℕ → Option Text → Option (PageRequest C)) (size : ℕ) (order : IsOrder lt)
    (reads : IsRead text request (suc size)) (table : List T) (sorted : Sorted lt key table) where
  -- The rows after one of a sorted table.
  rows_after :
      (xs : List T) (x : T) (ys : List T)
      → Sorted lt key (xs ++ (x ∷ ys))
      → select (is_after lt key (some (key x))) (xs ++ (x ∷ ys)) ≡ ys
  rows_after [] x ys s =
      rw (order.irreflexive (key x)) (select-All (is_after lt key (some (key x))) ys s.0)
  rows_after (w ∷ xs) x ys s =
      let early =
        order.asymmetric (key w) (key x)
          (All-middle (λ y. lt (key w) (key y) ≡ true) xs x ys s.0) in
      rw (early, rows_after xs x ys s.1) refl

  -- The page of a request, by the rows that its cursor leaves.
  page_items :
      (c : Option C) (rest : List T)
      → select (is_after lt key c) table ≡ rest
      → keyset_page lt key text table (record { limit = suc size; cursor = c }) ≡ (record {
        items = take (suc size) rest;
        next_cursor =
            if ltb (suc size) (length rest)
            then map_option (λ x. text (key x)) (last (take (suc size) rest))
            else none;
      })
  unfolding build_page
  page_items c rest left =
      let more : suc size + 1 ≡ suc (suc size) = omega arith in
      rw (left, more, take-take (suc size) rest, has_more (suc size) rest) refl

  request_of :
      (c : Option C)
      → request (suc size) (map_option text c) ≡ some (record { limit = suc size; cursor = c })
  request_of none = reads.first
  request_of (some c) = reads.later c

  walk_step :
      (fuel : ℕ) (c : Option C) (p : Page T)
      → keyset_page lt key text table (record { limit = suc size; cursor = c }) ≡ p
      → walk request (keyset_page lt key text table) (suc size) (suc fuel) (map_option text c)
        ≡ followed p (walk request (keyset_page lt key text table) (suc size) fuel p.next_cursor)
  unfolding walk
  walk_step fuel c p e =
      rw (request_of c, walk)
        (ap
          (λ p.
            followed p (walk request (keyset_page lt key text table) (suc size) fuel p.next_cursor))
          e)

  walk_rest :
      (fuel : ℕ) (done rest : List T) (c : Option C)
      → table ≡ done ++ rest
      → select (is_after lt key c) table ≡ rest
      → length rest < fuel
      → walk request (keyset_page lt key text table) (suc size) fuel (map_option text c) ≡ some rest
  unfolding walk
  walk_rest zero done rest c split left enough = absurd (omega (arith, enough))
  walk_rest (suc fuel) done rest c split left enough =
      let page = page_items c rest left in
      elim (Bool-cases (ltb (suc size) (length rest))) [
        | inr fits ↦
            walk_step fuel c (record { items = take (suc size) rest; next_cursor = none })
              (page ∙ rw fits refl)
            ∙ ap some (take_all (suc size) rest (ground (arith, fits)))
        | inl over ↦
            let k = cut size rest (ground (arith, over)) in
            let split' : table ≡ (done ++ k.before) ++ (k.end ∷ k.after) =
              split
              ∙ ap (λ xs. done ++ xs) k.whole
              ∙ sym (++-assoc done k.before (k.end ∷ k.after)) in
            let left' : select (is_after lt key (some (key k.end))) table ≡ k.after =
              subst
                (λ (t : List T).
                  Sorted lt key t → select (is_after lt key (some (key k.end))) t ≡ k.after)
                (sym split') (rows_after (done ++ k.before) k.end k.after) sorted in
            let later =
              walk_rest fuel ((done ++ k.before) ++ (k.end ∷ [])) k.after (some (key k.end))
                (split' ∙ sym (++-assoc (done ++ k.before) (k.end ∷ []) k.after)) left'
                (omega (arith, enough, k.shorter)) in
            walk_step fuel c
              (record { items = k.before ++ (k.end ∷ []); next_cursor = some (text (key k.end)) })
              (page ∙ rw (over, k.last_one, k.page) refl)
            ∙ rw later (ap some (++-assoc k.before (k.end ∷ []) k.after ∙ sym k.whole))
      ]

-- Take rows in the strict order of their keys, a limit of at least one, and a route that reads back
-- the cursors it writes. A client that starts without a cursor and follows each next cursor gets
-- every row exactly once and in order, in at most one more round than there are rows.
pub walk-table :
    {T C : Type 0} (lt : C → C → Bool) (key : T → C) (text : C → Text)
    (request : ℕ → Option Text → Option (PageRequest C)) (limit fuel : ℕ) (table : List T)
    → IsOrder lt
    → 1 ≤ limit
    → IsRead text request limit
    → Sorted lt key table
    → length table < fuel
    → walk request (keyset_page lt key text table) limit fuel none ≡ some table
walk-table lt key text request zero fuel table order some_rows reads sorted enough =
    absurd (omega (arith, some_rows))
walk-table lt key text request (suc size) fuel table order some_rows reads sorted enough =
    walk_rest lt key text request size order reads table sorted fuel [] table none refl
      (select-All (λ x. true) table (All-true table)) enough
