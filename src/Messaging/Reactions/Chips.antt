-- ===== src/Messaging/Reactions/Chips.antt =====
-- What the summaries of a page say of one message and one emoji is what its group says.
use claude_at_work_project.Prelude.{
  ℕ, ◌-◌, ◌≡◌, refl, inl, inr, ap, ◌∙◌, sym, Bool, true, false, ◌&&◌, List, [], ◌∷◌, arith, ◌==◌,
  ==_iff, ==_refl, any, count, select, Bool-cases, if◌then◌else◌,
}
use claude_at_work_project.Messaging.Models.{
  Uuid, Emoji, Reaction, thumbsup, heart, tada, smile, eyes, check, unlisted,
}
use claude_at_work_project.Messaging.Session.{Session}
use claude_at_work_project.Messaging.Reactions.{
  order, same_emoji, is_group, Row, group_row, group_rows, Summary, is_listed, collect, place, sort,
  summarise, is_on_page, summaries_for, state_of,
}

-- The emoji at a place of `order`.
abbrev emoji_at : ℕ → Emoji
emoji_at n =
    if n == 0
    then thumbsup
    else if n == 1
    then heart
    else if n == 2
    then tada
    else if n == 3
    then smile
    else if n == 4
    then eyes
    else if n == 5
    then check
    else unlisted (n - 6)

emoji_at-order : (e : Emoji) → emoji_at (order e) ≡ e
emoji_at-order thumbsup = refl
emoji_at-order heart = refl
emoji_at-order tada = refl
emoji_at-order smile = refl
emoji_at-order eyes = refl
emoji_at-order check = refl
emoji_at-order (unlisted n) = ground arith

pub same_emoji→eq : (a b : Emoji) → same_emoji a b ≡ true → a ≡ b
same_emoji→eq a b h =
    sym (emoji_at-order a) ∙ ap emoji_at ((==_iff (order a) (order b)).0 h) ∙ emoji_at-order b

state_of-place :
    (x : Summary) (ys : List Summary) (e : Emoji)
    → state_of (place x ys) e
      ≡ (if same_emoji x.emoji e then (x.total, x.reacted) else state_of ys e)
state_of-place x [] e = refl
state_of-place x (y ∷ ys) e = ground (arith, state_of-place x ys e)

state_of-sort : (xs : List Summary) (e : Emoji) → state_of (sort xs) e ≡ state_of xs e
state_of-sort [] e = refl
state_of-sort (x ∷ xs) e = rw (state_of-place x (sort xs) e, state_of-sort xs e) refl

module _ (s : Session) (user message : Uuid) (e : Emoji) where
  -- What the group says.
  abbrev pub group_state : ℕ × Bool
  group_state = ((group_row s message user e).total, (group_row s message user e).reacted)

  state_of-head :
      (m : Uuid) (x : Emoji) (rows : List Row)
      → state_of (collect (group_row s m user x ∷ rows) message) e ≡ (
          if is_listed e && (m == message && same_emoji x e)
          then group_state
          else state_of (collect rows message) e)
  unfolding collect group_row
  state_of-head m x rows = elim (Bool-cases (m == message && same_emoji x e)) [
    | inl hit ↦
        let at_message : m ≡ message = ground arith in
        let with_emoji : x ≡ e = same_emoji→eq x e (ground arith) in
        rw (at_message, with_emoji) (ground (arith, ==_refl message, ==_refl (order e)))
    | inr miss ↦ ground arith
  ]

  group-eq :
      (m : Uuid) (x : Emoji) (rs : List Reaction)
      → (m == message && same_emoji x e) ≡ true
      → any (is_group m x) rs ≡ any (is_group message e) rs
  group-eq m x rs hit =
      let at_message : m ≡ message = ground arith in
      let with_emoji : x ≡ e = same_emoji→eq x e (ground arith) in rw (at_message, with_emoji) refl

  state_of-collect :
      (rs : List Reaction)
      → state_of (collect (group_rows s user rs) message) e
        ≡ (if is_listed e && any (is_group message e) rs then group_state else (0, false))
  unfolding group_rows
  state_of-collect [] = unfold collect in ground arith
  state_of-collect (r ∷ rs) =
      let rest = state_of-collect rs in
      elim (Bool-cases (any (is_group r.message_id r.emoji) rs)) [
        | inl e' ↦ rw (e', rest) (ground (arith, group-eq r.message_id r.emoji rs))
        | inr e' ↦
            rw (e', state_of-head r.message_id r.emoji (group_rows s user rs), rest)
              (ground (arith, group-eq r.message_id r.emoji rs))
      ]

  any-on_page :
      (ids : List Uuid) (rs : List Reaction)
      → any (is_group message e) (select (is_on_page ids) rs)
        ≡ (any (λ i. i == message) ids && any (is_group message e) rs)
  any-on_page ids [] = ground arith
  any-on_page ids (r ∷ rs) = elim (Bool-cases (r.message_id == message)) [
    | inl hit ↦
        let same : is_on_page ids r ≡ any (λ i. i == message) ids =
          ap (λ (m : Uuid). any (λ i. i == m) ids) ((==_iff r.message_id message).0 hit) in
        ground (arith, any-on_page ids rs)
    | inr miss ↦ ground (arith, any-on_page ids rs)
  ]

-- An empty group counts nobody.
group_state-none :
    (s : Session) (user message : Uuid) (e : Emoji) (rs : List Reaction)
    → any (is_group message e) rs ≡ false
    → (count (is_group message e) rs ≡ 0)
      × (any (λ r. is_group message e r && r.user_id == user) rs ≡ false)
group_state-none s user message e [] h = (refl, refl)
group_state-none s user message e (r ∷ rs) h =
    let rest = group_state-none s user message e rs (ground arith) in (ground arith, ground arith)

-- What a page says of a message on it and a listed emoji is what their group says; of a message that
-- is not on it, or an emoji that is not listed, it says that nobody reacted.
pub state_of-summaries_for :
    (s : Session) (ids : List Uuid) (user message : Uuid) (e : Emoji)
    → state_of (summaries_for s ids user message) e ≡ (
        if any (λ i. i == message) ids && is_listed e
        then ((group_row s message user e).total, (group_row s message user e).reacted)
        else (0, false))
unfolding summaries_for summarise group_row
state_of-summaries_for s [] user message e = refl
state_of-summaries_for s (id ∷ ids) user message e =
    let page = select (is_on_page (id ∷ ids)) s.reactions in
    state_of-sort (collect (group_rows s user page) message) e
    ∙ state_of-collect s user message e page
    ∙ rw (any-on_page s user message e (id ∷ ids) s.reactions)
        (ground (arith, group_state-none s user message e s.reactions))
