-- ===== src/Shared/Ids/Order.antt =====
-- Ids grow: a later call gives the larger id, whatever the clock does.
use claude_at_work_project.Prelude.{
  ℕ, ◌+◌, ◌*◌, ◌^◌, ◌≤◌, ◌<◌, inl, inr, Option, some, none, List, [], ◌∷◌, arith, ltb, All, All-map,
  Bool-cases,
}
use claude_at_work_project.Shared.Ids.{Generator, advance, pack, to_uuid, uuid7}
use claude_at_work_project.Shared.Ids.Fields.{IsBounded, advance-IsBounded, pack-add}

-- The high 64 bits of an id: the time, the version and the counter.
abbrev stamp : Generator → ℕ
stamp g = (g.last_ms * 16 + 7) * 4096 + g.counter

-- What every id that is still to come reaches.
abbrev floor : Generator → ℕ
floor g = (stamp g + 1) * 2 ^ 64

stamp-advance :
    (now_ms seed : ℕ) (g : Generator) → IsBounded g → stamp g < stamp (advance now_ms seed g)
unfolding advance
stamp-advance now_ms seed g h = ground arith

-- A call of the process, and what it draws.
pub record Call : Type 0 where
  pub now_ms : ℕ
  pub seed : ℕ
  pub random : ℕ

pub record IsDraw (c : Call) : Type 0 where
  pub seed_bits : c.seed < 2048
  pub random_bits : c.random < 2 ^ 62

-- The ids of a sequence of calls; one that raises gives none.
abbrev pub with_id : Option ℕ → List ℕ → List ℕ
with_id none ids = ids
with_id (some id) ids = id ∷ ids

unfoldable pub run : Generator → List Call → List ℕ
run g [] = []
run g (c ∷ cs) =
    with_id (uuid7 c.now_ms c.seed c.random g).0 (run (uuid7 c.now_ms c.seed c.random g).1 cs)

-- Each number is less than all that come after it.
abbrev pub Increasing : List ℕ → Type 0
Increasing [] = Unit
Increasing (x ∷ xs) = All (λ y. x < y) xs × Increasing xs

-- An id lies between the floor of the generator before and that of its own.
pack-floor :
    (g : Generator) (c : Call)
    → IsBounded g
    → IsDraw c
    → (floor g ≤ pack (advance c.now_ms c.seed g) c.random)
      × (pack (advance c.now_ms c.seed g) c.random < floor (advance c.now_ms c.seed g))
pack-floor g c h d =
    let g' = advance c.now_ms c.seed g in
    let kept = advance-IsBounded c.now_ms c.seed g d.seed_bits h in
    let sum = pack-add g' c.random kept d.random_bits in
    let grows = stamp-advance c.now_ms c.seed g h in
    (omega (arith, sum, grows), omega (arith, sum, d.random_bits))

run-floor :
    (g : Generator) (cs : List Call)
    → IsBounded g
    → All IsDraw cs
    → All (λ id. floor g ≤ id) (run g cs) × Increasing (run g cs)
unfolding run uuid7 to_uuid
run-floor g [] h ds = (tt, tt)
run-floor g (c ∷ cs) h ds =
    let g' = advance c.now_ms c.seed g in
    let value = pack g' c.random in
    let kept = advance-IsBounded c.now_ms c.seed g (ds.0.seed_bits) h in
    let (low, high) = pack-floor g c h ds.0 in
    let (above, grow) = run-floor g' cs kept ds.1 in
    elim (Bool-cases (ltb value (2 ^ 128))) [
      | inl fits ↦ rw fits (
        (low, All-map (run g' cs) (λ id h'. omega arith) above),
        (All-map (run g' cs) (λ id h'. omega arith) above, grow),
      )
      | inr over ↦ rw over (All-map (run g' cs) (λ id h'. omega arith) above, grow)
    ]

-- Whatever the clock says, also where it stands still or goes back, and whatever is drawn: in any
-- sequence of calls from a generator whose counter has its 12 bits, as at the start, each id is
-- less than every id after it.
pub run-Increasing :
    (g : Generator) (cs : List Call) → IsBounded g → All IsDraw cs → Increasing (run g cs)
run-Increasing g cs h ds = (run-floor g cs h ds).1
