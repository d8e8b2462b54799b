-- ===== src/Shared/Ids/Fields.antt =====
-- An id holds its time, its counter and its random bits, in 128 bits.
use Prim.Native.Nat.{bit_or}
use claude_at_work_project.Prelude.{
  ℕ, ◌+◌, ◌*◌, ◌/◌, ◌%◌, ◌^◌, ◌<◌, ◌≡◌, some, arith, bit_or-add, ◌∙◌,
}
use claude_at_work_project.Shared.Ids.{Generator, advance, pack, uuid7}

-- The counter has its 12 bits. It is so at the start, and after every call.
pub record IsBounded (g : Generator) : Type 0 where
  pub twelve_bits : g.counter < 4096

pub advance-IsBounded :
    (now_ms seed : ℕ) (g : Generator)
    → seed < 2048
    → IsBounded g
    → IsBounded (advance now_ms seed g)
unfolding advance
advance-IsBounded now_ms seed g small h = ground arith

-- The fields side by side: no or touches a bit that is set.
pub pack-add :
    (g : Generator) (random : ℕ)
    → IsBounded g
    → random < 2 ^ 62
    → pack g random ≡ g.last_ms * 2 ^ 80 + 7 * 2 ^ 76 + g.counter * 2 ^ 64 + 2 * 2 ^ 62 + random
unfolding pack
pack-add g random h small =
    let head = g.last_ms * 16 + 7 in
    let stamp = head * 4096 + g.counter in
    let version : bit_or (g.last_ms * 2 ^ 80) (7 * 2 ^ 76) ≡ head * 2 ^ 76 =
      bit_or-add 80 g.last_ms (7 * 2 ^ 76) (omega arith) ∙ omega arith in
    let counted : bit_or (head * 2 ^ 76) (g.counter * 2 ^ 64) ≡ stamp * 2 ^ 64 =
      bit_or-add 76 head (g.counter * 2 ^ 64) (omega (arith, h.twelve_bits)) ∙ omega arith in
    let variant : bit_or (stamp * 2 ^ 64) (2 * 2 ^ 62) ≡ (stamp * 4 + 2) * 2 ^ 62 =
      bit_or-add 64 stamp (2 * 2 ^ 62) (omega arith) ∙ omega arith in
    rw (version, counted, variant) (bit_or-add 62 (stamp * 4 + 2) random small ∙ omega arith)

-- What can be read back from an id.
pub record HasFields (value last_ms counter : ℕ) : Type 0 where
  pub time : value / 2 ^ 80 ≡ last_ms
  pub version : value / 2 ^ 76 % 16 ≡ 7
  pub counted : value / 2 ^ 64 % 2 ^ 12 ≡ counter
  pub variant : value / 2 ^ 62 % 4 ≡ 2
  pub bits : value < 2 ^ 128

-- Until the clock passes 2^48 milliseconds, a call gives an id: 128 bits, from which the time and
-- the counter that the generator now holds can be read back, as can version 7 and the RFC's
-- variant, whatever the draws.
pub uuid7-HasFields :
    (now_ms seed random : ℕ) (g : Generator)
    → IsBounded g
    → seed < 2048
    → random < 2 ^ 62
    → (advance now_ms seed g).last_ms < 2 ^ 48
    → (value : ℕ) × (uuid7 now_ms seed random g ≡ (some value, advance now_ms seed g))
      × HasFields value (advance now_ms seed g).last_ms (advance now_ms seed g).counter
unfolding uuid7
uuid7-HasFields now_ms seed random g h small bits early =
    let g' = advance now_ms seed g in
    let value = pack g' random in
    let kept = advance-IsBounded now_ms seed g small h in
    let sum = pack-add g' random kept bits in
    let fits : value < 2 ^ 128 = omega (arith, sum, kept.twelve_bits) in
    (
      value,
      ground (arith, fits),
      record {
        time = omega (arith, sum, kept.twelve_bits);
        version = omega (arith, sum, kept.twelve_bits);
        counted = omega (arith, sum, kept.twelve_bits);
        variant = omega (arith, sum, kept.twelve_bits);
        bits = fits;
      },
    )
