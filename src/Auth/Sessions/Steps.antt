-- ===== src/Auth/Sessions/Steps.antt =====
-- One row of the walk along a rotation chain: what it leaves, given what the rest leaves.
use claude_at_work_project.Prelude.{
  ◌≡◌, refl, sym, ◌∙◌, subst, inl, inr, ◌⊎◌, true, false, ◌||◌, none, some, List, ◌∷◌, arith, ◌==◌,
  ==_refl, Option-cases, Bool-cases,
}
use claude_at_work_project.Auth.Rows.{Uuid, Time, RefreshToken}
use claude_at_work_project.Auth.Sessions.{get, revoke_row, is_seen, successor}
use claude_at_work_project.Auth.Sessions.Walk.{
  has, link, dead, Chain, Chain-cons, Chain-links, id-get, link-revoke_row, has-revoke_row,
  dead-revoke_row,
}

-- The rows `rows'` are `rows` with what was visited revoked: `seen` before, and then the chain of
-- `from`.
pub record IsSwept (seen : List Uuid) (from : Uuid) (rows rows' : List RefreshToken) : Type 0 where
  pub visited : List Uuid
  pub start : is_seen from visited ≡ true
  pub earlier : (x : Uuid) → is_seen x seen ≡ true → is_seen x visited ≡ true
  pub closed :
      (x b : Uuid)
      → is_seen x visited ≡ true
      → link rows x ≡ some b
      → has rows b ≡ true
      → is_seen b visited ≡ true
  pub only : (x : Uuid) → is_seen x visited ≡ true → (is_seen x seen ≡ true) ⊎ Chain rows from x
  pub revoked : (x : Uuid) → dead rows' x ≡ (is_seen x visited || dead rows x)
  pub links : (x : Uuid) → link rows' x ≡ link rows x
  pub present : (x : Uuid) → has rows' x ≡ has rows x

-- What has been visited is revoked, and leads to what has been visited or to the row at hand.
pub record IsOnWay (seen : List Uuid) (from : Uuid) (rows : List RefreshToken) : Type 0 where
  pub done : (x : Uuid) → is_seen x seen ≡ true → dead rows x ≡ true
  pub leads :
      (x b : Uuid)
      → is_seen x seen ≡ true
      → link rows x ≡ some b
      → has rows b ≡ true
      → is_seen b (from ∷ seen) ≡ true

-- The walk stops at a row that it has been to.
pub IsSwept-stop :
    (seen : List Uuid) (from : Uuid) (rows : List RefreshToken)
    → is_seen from seen ≡ true
    → IsOnWay seen from rows
    → IsSwept seen from rows rows
IsSwept-stop seen from rows old way = record {
  visited = seen;
  start = old;
  earlier = λ x h. h;
  closed = λ x b h e k. elim (Bool-cases (from == b)) [
    | inl same ↦
        let eq : from ≡ b = ground arith in subst (λ (y : Uuid). is_seen y seen ≡ true) eq old
    | inr other ↦ ground (arith, way.leads x b h e k)
  ];
  only = λ x h. inl h;
  revoked =
      λ x. elim (Bool-cases (is_seen x seen)) [ inl e ↦ rw e (way.done x e) | inr e ↦ rw e refl ];
  links = λ x. refl;
  present = λ x. refl;
}

pub link-get :
    (rows : List RefreshToken) (x : Uuid) (r : RefreshToken)
    → get rows x ≡ some r
    → link rows x ≡ r.rotated_to
unfolding link
link-get rows x r e = rw e

module _ (now : Time) (seen : List Uuid) (rows : List RefreshToken) (r : RefreshToken)
    (found : get rows r.id ≡ some r) (way : IsOnWay seen r.id rows) where
  -- What the row at hand leads to, if it leads to `b`.
  linked : (x b : Uuid) → (r.id == x) ≡ true → link rows x ≡ some b → r.rotated_to ≡ some b
  linked x b same e =
      let eq : x ≡ r.id = ground arith in
      sym (link-get rows r.id r found) ∙ subst (λ (y : Uuid). link rows y ≡ some b) eq e

  dead-visited : (x : Uuid) → (is_seen x seen || dead rows x) ≡ dead rows x
  dead-visited x = elim (Bool-cases (is_seen x seen)) [
    | inl e ↦ rw e (sym (way.done x e))
    | inr e ↦ rw e refl
  ]

  -- It stops at the end of the chain.
  pub IsSwept-last :
      ((b : Uuid) → r.rotated_to ≡ some b → has rows b ≡ false)
      → IsSwept seen r.id rows (revoke_row now r.id rows)
  IsSwept-last last = record {
    visited = r.id ∷ seen;
    start = ground (arith, ==_refl r.id);
    earlier = λ x h. ground arith;
    closed = λ x b h e k. elim (Bool-cases (r.id == x)) [
      | inl same ↦ absurd (cc (last b (linked x b same e), k))
      | inr other ↦ way.leads x b (ground arith) e k
    ];
    only = λ x h. elim (Bool-cases (r.id == x)) [
      | inl same ↦ inr (subst (Chain rows r.id) (let eq : r.id ≡ x = ground arith in eq) Chain.here)
      | inr other ↦ inl (ground arith)
    ];
    revoked = λ x. dead-revoke_row now r.id rows x ∙ ground (arith, dead-visited x);
    links = link-revoke_row now r.id rows;
    present = has-revoke_row now r.id rows;
  }

  abbrev pub after : List RefreshToken
  after = revoke_row now r.id rows

  -- The next row is on the way too.
  pub IsOnWay-next : (n : Uuid) → r.rotated_to ≡ some n → IsOnWay (r.id ∷ seen) n after
  IsOnWay-next n e = record {
    done = λ x h. dead-revoke_row now r.id rows x ∙ ground (arith, way.done x);
    leads = λ x b h f k. elim (Bool-cases (r.id == x)) [
      | inl same ↦
          let eq : some n ≡ some b =
            sym e ∙ linked x b same (sym (link-revoke_row now r.id rows x) ∙ f) in
          ground (arith, ==_refl n)
      | inr other ↦
          let old =
            way.leads x b (ground arith) (sym (link-revoke_row now r.id rows x) ∙ f)
              (sym (has-revoke_row now r.id rows b) ∙ k) in
          ground arith
    ];
  }

  -- And what it sweeps is swept from here.
  pub IsSwept-step :
      (n : Uuid) (rows' : List RefreshToken)
      → r.rotated_to ≡ some n
      → IsSwept (r.id ∷ seen) n after rows'
      → IsSwept seen r.id rows rows'
  IsSwept-step n rows' e s = record {
    visited = s.visited;
    start = s.earlier r.id (ground (arith, ==_refl r.id));
    earlier = λ x h. s.earlier x (ground arith);
    closed = λ x b h f k.
        s.closed x b h (link-revoke_row now r.id rows x ∙ f) (has-revoke_row now r.id rows b ∙ k);
    only = λ x h. elim (s.only x h) [
      | inl old ↦ elim (Bool-cases (r.id == x)) [
        | inl same ↦
            inr (subst (Chain rows r.id) (let eq : r.id ≡ x = ground arith in eq) Chain.here)
        | inr other ↦ inl (ground arith)
      ]
      | inr chain ↦ inr (
          Chain-cons rows r.id n (link-get rows r.id r found ∙ e)
            (Chain-links rows after n (link-revoke_row now r.id rows) chain))
    ];
    revoked = λ x.
        s.revoked x
        ∙ ground
            (arith, dead-revoke_row now r.id rows x, s.earlier r.id (ground (arith, ==_refl r.id)));
    links = λ x. s.links x ∙ link-revoke_row now r.id rows x;
    present = λ x. s.present x ∙ has-revoke_row now r.id rows x;
  }

-- Where the walk goes from a row: on to another row, or to the end.
pub successor-cases :
    (rows : List RefreshToken) (r : RefreshToken)
    → ((successor rows r ≡ none) × ((b : Uuid) → r.rotated_to ≡ some b → has rows b ≡ false))
      ⊎ ((n : RefreshToken) × (successor rows r ≡ some n)
          × (r.rotated_to ≡ some n.id)
          × (get rows n.id ≡ some n))
successor-cases rows r = elim (Option-cases r.rotated_to) [
  | inl e ↦ inl (rw e, λ b f. cc)
  | inr (next, e) ↦ elim (Option-cases (get rows next)) [
    | inl missing ↦
        inl (rw (e, missing), λ b f. let eq : next ≡ b = ground arith in rw (← eq) (rw missing))
    | inr (n, there) ↦
        let own : n.id ≡ next = id-get rows next n there in
        inr (n, rw (e, there), rw own e, subst (λ (i : Uuid). get rows i ≡ some n) (sym own) there)
  ]
]
