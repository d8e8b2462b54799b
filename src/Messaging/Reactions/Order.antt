-- ===== src/Messaging/Reactions/Order.antt =====
-- The summaries of a message come in the order of the allowlist, one for each emoji.
use claude_at_work_project.Prelude.{
  ◌<◌, ◌≡◌, refl, ◌∙◌, inl, inr, Bool, false, List, [], ◌∷◌, arith, leb, ◌==◌, ==_iff, subst, any,
  All, All-map, select, Bool-cases,
}
use claude_at_work_project.Messaging.Models.{Uuid, Emoji, Reaction}
use claude_at_work_project.Messaging.Session.{Session}
use claude_at_work_project.Messaging.Reactions.{
  order, same_emoji, is_group, group_row, group_rows, Summary, is_listed, collect, place, sort,
  summarise, is_on_page, summaries_for,
}

abbrev pub Ascending : List Summary → Type 0
Ascending [] = Unit
Ascending (x ∷ xs) = All (λ y. order x.emoji < order y.emoji) xs × Ascending xs

abbrev has : Emoji → List Summary → Bool
has e xs = any (λ y. same_emoji y.emoji e) xs

All-place :
    (P : Summary → Type 0) (x : Summary) (ys : List Summary) → P x → All P ys → All P (place x ys)
All-place P x [] h hs = (h, tt)
All-place P x (y ∷ ys) h hs = elim (Bool-cases (leb (order x.emoji) (order y.emoji))) [
  | inl e ↦ rw e (h, hs)
  | inr e ↦ rw e (hs.0, All-place P x ys h hs.1)
]

Ascending-place :
    (x : Summary) (ys : List Summary)
    → has x.emoji ys ≡ false
    → Ascending ys
    → Ascending (place x ys)
Ascending-place x [] new up = (tt, tt)
Ascending-place x (y ∷ ys) new up = elim (Bool-cases (leb (order x.emoji) (order y.emoji))) [
  | inl e ↦
      let before : order x.emoji < order y.emoji = ground arith in
      rw e ((before, All-map ys (λ z after. omega arith) up.0), up)
  | inr e ↦ rw e (
    All-place (λ z. order y.emoji < order z.emoji) x ys (ground arith) up.0,
    Ascending-place x ys (ground arith) up.1,
  )
]

has-place : (e : Emoji) (x : Summary) (ys : List Summary) → has e (place x ys) ≡ has e (x ∷ ys)
has-place e x [] = refl
has-place e x (y ∷ ys) = ground (arith, has-place e x ys)

has-sort : (e : Emoji) (xs : List Summary) → has e (sort xs) ≡ has e xs
has-sort e [] = refl
has-sort e (x ∷ xs) = rw (has-place e x (sort xs), has-sort e xs) refl

-- Only an emoji of the rows is collected.
has-collect :
    (s : Session) (user message : Uuid) (e : Emoji) (rs : List Reaction)
    → any (is_group message e) rs ≡ false
    → has e (collect (group_rows s user rs) message) ≡ false
unfolding collect group_rows group_row
has-collect s user message e [] none = refl
has-collect s user message e (r ∷ rs) none =
    let rest = has-collect s user message e rs (ground arith) in ground arith

Ascending-collect :
    (s : Session) (user message : Uuid) (rs : List Reaction)
    → Ascending (sort (collect (group_rows s user rs) message))
unfolding collect group_rows group_row
Ascending-collect s user message [] = tt
Ascending-collect s user message (r ∷ rs) =
    let rest = Ascending-collect s user message rs in
    elim (Bool-cases (any (is_group r.message_id r.emoji) rs)) [
      | inl e ↦ rw e rest
      | inr e ↦ elim (Bool-cases (is_listed r.emoji)) [
        | inr unlisted ↦ rw (e, unlisted) rest
        | inl listed ↦ elim (Bool-cases (r.message_id == message)) [
          | inr other ↦ rw (e, listed, other) rest
          | inl here ↦
              let empty =
                subst (λ (m : Uuid). any (is_group m r.emoji) rs ≡ false)
                  ((==_iff r.message_id message).0 here) e in
              let fresh =
                has-sort r.emoji (collect (group_rows s user rs) message)
                ∙ has-collect s user message r.emoji rs empty in
              rw (e, listed, here)
                (Ascending-place _ (sort (collect (group_rows s user rs) message)) fresh rest)
        ]
      ]
    ]

-- Whatever the rows are, the summaries of each message are in the order of the allowlist, and no emoji
-- has two.
pub Ascending-summaries_for :
    (s : Session) (ids : List Uuid) (user message : Uuid)
    → Ascending (summaries_for s ids user message)
unfolding summaries_for summarise
Ascending-summaries_for s [] user message = tt
Ascending-summaries_for s (id ∷ ids) user message =
    Ascending-collect s user message (select (is_on_page (id ∷ ids)) s.reactions)
