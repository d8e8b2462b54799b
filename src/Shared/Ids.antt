-- ===== src/Shared/Ids.antt =====
-- src/services/shared/shared/ids.py: UUID v7 ids. The process's `_last_ms` and `_counter` are the
-- state, which the lock makes a sequence; the clock and the two draws of `secrets` are arguments.
pub mod Fields
pub mod Order
use Prim.Native.Nat.{bit_or}
use claude_at_work_project.Prelude.{
  ℕ, ◌+◌, ◌-◌, ◌*◌, ◌^◌, Option, none, some, ltb, leb, if◌then◌else◌,
}

abbrev pub counter_bits : ℕ
counter_bits = 12

abbrev pub counter_max : ℕ
counter_max = 2 ^ counter_bits - 1

-- `_COUNTER_MAX >> 1`
abbrev pub counter_seed_max : ℕ
counter_seed_max = 2047

pub record Generator : Type 0 where
  pub last_ms : ℕ
  pub counter : ℕ

abbrev pub initial : Generator
initial = record { last_ms = 0; counter = 0 }

-- What the locked block leaves. `seed` is `secrets.randbelow(_COUNTER_SEED_MAX + 1)`.
unfoldable pub advance : (now_ms seed : ℕ) → Generator → Generator
advance now_ms seed g =
    if ltb g.last_ms now_ms
    then record { last_ms = now_ms; counter = seed }
    else if leb counter_max g.counter
    then record { last_ms = g.last_ms + 1; counter = seed }
    else record g { counter = g.counter + 1 }

-- The bits of an id. `random` is `secrets.randbits(62)`.
unfoldable pub pack : Generator → (random : ℕ) → ℕ
pack g random =
    bit_or
      (bit_or (bit_or (bit_or (g.last_ms * 2 ^ 80) (7 * 2 ^ 76)) (g.counter * 2 ^ 64)) (2 * 2 ^ 62))
      random

-- `uuid.UUID(int=value)` raises on a value that has more than 128 bits.
unfoldable pub to_uuid : ℕ → Option ℕ
to_uuid value = if ltb value (2 ^ 128) then some value else none

unfoldable pub uuid7 : (now_ms seed random : ℕ) → Generator → Option ℕ × Generator
unfolding to_uuid
uuid7 now_ms seed random g = let g' = advance now_ms seed g in (to_uuid (pack g' random), g')
