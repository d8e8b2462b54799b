-- ===== src/Shared/Examples.antt =====
-- The theorems about ids at a few calls: the clock moves on, stands still and goes back, and the
-- counter runs over. Those about pages at a list of three numbers and a cursor of two.
use claude_at_work_project.Prelude.{
  ℕ, ◌≡◌, refl, arith, List, [], ◌∷◌, Option, none, some, ltb, map_option,
}
use claude_at_work_project.Shared.Ids.{advance, uuid7, Generator}
use claude_at_work_project.Shared.Ids.Fields.{IsBounded, HasFields, uuid7-HasFields}
use claude_at_work_project.Shared.Pagination.{
  Text, PageRequest, encode_cursor, decode_raw, decode_cursor, parse_parts,
}
use claude_at_work_project.Shared.Pagination.Cursors.{decode_cursor-encode_cursor}
use claude_at_work_project.Shared.Pagination.Walk.{IsOrder, IsRead, walk, keyset_page, walk-table}
use claude_at_work_project.Shared.Pagination.Samples.{
  fourfold, onefold, fourfold-IsBase64, unary, read_unary, read_unary_lem,
}
use claude_at_work_project.Shared.Ids.Order.{Call, run, Increasing, run-Increasing}

-- The counter is full, and the clock has gone back.
abbrev full : Generator
full = record { last_ms = 1700000000000; counter = 4095 }

full-IsBounded : IsBounded full
full-IsBounded = record { twelve_bits = omega arith }

uuid7-HasFields_example :
    (value : ℕ) × (uuid7 1600000000000 17 99 full ≡ (some value, advance 1600000000000 17 full))
    × HasFields value
        (advance 1600000000000 17 full).last_ms
        (advance 1600000000000 17 full).counter
unfolding advance
uuid7-HasFields_example =
    uuid7-HasFields 1600000000000 17 99 full full-IsBounded (omega arith) (omega arith)
      (omega arith)

abbrev calls : List Call
calls =
    record { now_ms = 1700000000000; seed = 5; random = 77 }
    ∷ (record { now_ms = 1700000000000; seed = 6; random = 3 }
        ∷ (record { now_ms = 1600000000000; seed = 7; random = 1 } ∷ []))

run-Increasing_example : Increasing (run full calls)
run-Increasing_example = run-Increasing full calls full-IsBounded (
  record { seed_bits = omega arith; random_bits = omega arith },
  (
    record { seed_bits = omega arith; random_bits = omega arith },
    (record { seed_bits = omega arith; random_bits = omega arith }, tt),
  ),
)

decode_cursor-encode_cursor_example :
    (decode_cursor onefold
        (read_unary ∷ (read_unary ∷ []))
        (encode_cursor fourfold (unary 2 ∷ (unary 1 ∷ [])))
      ≡ some (2 ∷ (1 ∷ [])))
    × (decode_raw onefold (encode_cursor fourfold (unary 2 ∷ (unary 1 ∷ [])))
        ≡ some (unary 2 ∷ (unary 1 ∷ [])))
unfolding parse_parts
decode_cursor-encode_cursor_example =
    decode_cursor-encode_cursor fourfold onefold (read_unary ∷ (read_unary ∷ [])) (unary 2)
      (unary 1 ∷ []) (2 ∷ (1 ∷ [])) fourfold-IsBase64 (refl, (refl, tt)) refl

-- A route that reads a number.
abbrev number_request : ℕ → Option Text → Option (PageRequest ℕ)
number_request limit none = some (record { limit = limit; cursor = none })
number_request limit (some t) =
    map_option (λ n. record { limit = limit; cursor = some n }) (read_unary t)

number_request-IsRead : IsRead unary number_request 2
number_request-IsRead = record { first = refl; later = λ n. rw (read_unary_lem n) refl }

ltb-IsOrder : IsOrder ltb
ltb-IsOrder = record { irreflexive = λ a. ground arith; asymmetric = λ a b e. ground arith }

walk-table_example :
    walk number_request (keyset_page ltb (λ n. n) unary (4 ∷ (5 ∷ (9 ∷ [])))) 2 4 none
    ≡ some (4 ∷ (5 ∷ (9 ∷ [])))
walk-table_example =
    walk-table ltb (λ n. n) unary number_request 2 4 (4 ∷ (5 ∷ (9 ∷ []))) ltb-IsOrder (omega arith)
      number_request-IsRead ((refl, (refl, tt)), ((refl, tt), (tt, tt))) (omega arith)
