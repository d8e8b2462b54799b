-- ===== src/Messaging/Reactions/Groups.antt =====
-- A reaction counts once for each person in the group of its message and emoji.
use claude_at_work_project.Prelude.{
  ◌+◌, ◌≡◌, ◌≢◌, refl, inl, inr, sym, ◌∙◌, Bool, true, false, not, ◌&&◌, none, some, List, [], ◌∷◌,
  arith, ◌==◌, ==_refl, any, find, find-holds, select, count-without, count-find, Unique,
  Unique-select, Apart-any, Option-cases, Bool-cases, if◌then◌else◌,
}
use claude_at_work_project.Messaging.Models.{Uuid, Emoji, Reaction}
use claude_at_work_project.Messaging.Session.{Session}
use claude_at_work_project.Messaging.Reactions.{
  order, is_reaction, same_reaction, is_group, add, remove, clear_for_message, group_row,
}

any_user :
    (message user : Uuid) (emoji : Emoji) (rs : List Reaction)
    → any (λ r. is_group message emoji r && r.user_id == user) rs
      ≡ any (is_reaction message user emoji) rs
any_user message user emoji [] = refl
any_user message user emoji (r ∷ rs) = ground (arith, any_user message user emoji rs)

-- What one person's reaction does to the groups.
pub record IsCounted (s s' : Session) (message user : Uuid) (emoji : Emoji) : Type 0 where
  pub reacted : (group_row s' message user emoji).reacted ≡ true
  pub total :
      (group_row s' message user emoji).total
      ≡ (group_row s message user emoji).total
        + (if (group_row s message user emoji).reacted then 0 else 1)
  pub other_emoji :
      (m u : Uuid) (e : Emoji)
      → is_group message emoji (record { message_id = m; user_id = u; emoji = e }) ≡ false
      → group_row s' m u e ≡ group_row s m u e

-- After a person reacts, the emoji's group says that they did and counts them once, however often
-- they ask for it, and the groups of other messages and of other emoji are as they were.
pub add-IsCounted :
    (message user : Uuid) (emoji : Emoji) (s : Session)
    → IsCounted s (add message user emoji s) message user emoji
unfolding add group_row
add-IsCounted message user emoji s =
    elim (Bool-cases (any (is_reaction message user emoji) s.reactions)) [
      | inl there ↦
          rw (there, add)
            (record {
              reacted = any_user message user emoji s.reactions ∙ there;
              total = rw (any_user message user emoji s.reactions, there) (omega arith);
              other_emoji = λ m u e ne. refl;
            })
      | inr fresh ↦
          rw (fresh, add)
            (record {
              reacted = ground (arith, ==_refl message, ==_refl user, ==_refl (order emoji));
              total =
                  rw (any_user message user emoji s.reactions, fresh)
                    (ground (arith, ==_refl message, ==_refl (order emoji)));
              other_emoji = λ m u e ne. ground arith;
            })
    ]

select_none :
    (p : Reaction → Bool) (rs : List Reaction) → any p rs ≡ false → select (λ r. not (p r)) rs ≡ rs
select_none p [] h = refl
select_none p (r ∷ rs) h = ground (arith, select_none p rs)

-- Taking back a reaction that was new leaves the rows as they were before it.
pub remove-add :
    (message user : Uuid) (emoji : Emoji) (s : Session)
    → (group_row s message user emoji).reacted ≡ false
    → remove message user emoji (add message user emoji s) ≡ s
unfolding group_row remove add
remove-add message user emoji s h =
    let fresh : any (is_reaction message user emoji) s.reactions ≡ false =
      sym (any_user message user emoji s.reactions) ∙ h in
    let rest = select_none (is_reaction message user emoji) s.reactions fresh in
    rw (fresh, add) (ground (arith, rest, ==_refl message, ==_refl user, ==_refl (order emoji)))

find-any :
    (p : Reaction → Bool) (rs : List Reaction)
    → any p rs ≡ true
    → (r : Reaction) × (find p rs ≡ some r)
find-any p rs h = elim (Option-cases (find p rs)) [
  | inl e ↦ absurd (any-none p rs h e)
  | inr (r, e) ↦ (r, e)
]
  where
    any-none : (q : Reaction → Bool) (xs : List Reaction) → any q xs ≡ true → find q xs ≢ none
    any-none q [] a e = ground arith
    any-none q (x ∷ xs) a e = ground (arith, any-none q xs)

-- With one row to a key, taking back a reaction that was there takes one from its count.
pub total-remove :
    (message user : Uuid) (emoji : Emoji) (s : Session)
    → Unique same_reaction s.reactions
    → (group_row s message user emoji).reacted ≡ true
    → (group_row (remove message user emoji s) message user emoji).total + 1
      ≡ (group_row s message user emoji).total
unfolding group_row remove
total-remove message user emoji s one h =
    let k = is_reaction message user emoji in
    let there : any k s.reactions ≡ true = sym (any_user message user emoji s.reactions) ∙ h in
    let (r, found) = find-any k s.reactions there in
    let held : k r ≡ true = find-holds k s.reactions found in
    let gone =
      count-find same_reaction (is_group message emoji) k s.reactions r (λ x y a b. ground arith)
        one found in
    let group : is_group message emoji r ≡ true = ground arith in
    omega (arith, (rw group at gone), count-without (is_group message emoji) k s.reactions)

-- Where no two rows have one key, none have after a reaction, after one is taken back, or after a
-- message is cleared: a person has one row for a message and an emoji.
pub Unique-reactions :
    (message user : Uuid) (emoji : Emoji) (s : Session)
    → Unique same_reaction s.reactions
    → Unique same_reaction (add message user emoji s).reactions
      × Unique same_reaction (remove message user emoji s).reactions
      × Unique same_reaction (clear_for_message message s).reactions
unfolding add remove clear_for_message
Unique-reactions message user emoji s one = (
  elim (Bool-cases (any (is_reaction message user emoji) s.reactions)) [
    | inl there ↦ rw (there, add) one
    | inr fresh ↦
        rw (fresh, add)
          (
            Apart-any same_reaction (record { message_id = message; user_id = user; emoji = emoji })
                s.reactions fresh,
            one,
          )
  ],
  Unique-select same_reaction (λ r. not (is_reaction message user emoji r)) s.reactions one,
  Unique-select same_reaction (λ r. not (r.message_id == message)) s.reactions one,
)
