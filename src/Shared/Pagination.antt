-- ===== src/Shared/Pagination.antt =====
-- src/services/shared/shared/pagination.py: cursors and pages. A string is the list of its
-- characters. `encode` and `decode` are base64url of a string's UTF-8 and back, `none` where Python
-- raises. A part of a cursor is read to a value of a type `V`, which is whatever the route's parsers
-- give.
pub mod Cursors
pub mod Cuts
pub mod Walk
pub mod Ordered
pub mod Samples
use claude_at_work_project.Prelude.{
  ℕ, zero, suc, ◌+◌, ◌-◌, ◌%◌, Bool, true, false, not, ◌&&◌, Option, none, some, List, [], ◌∷◌,
  ◌++◌, ltb, leb, ◌==◌, map_option, length, if◌then◌else◌, Result, ok, err,
}

abbrev pub Text : Type 0
Text = List ℕ

abbrev pub default_limit : ℕ
default_limit = 50

abbrev pub max_limit : ℕ
max_limit = 200

-- "\x1f" and "=".
abbrev pub separator : ℕ
separator = 31

abbrev pub equals_sign : ℕ
equals_sign = 61

-- `_SEPARATOR.join(parts)`
unfoldable pub join : List Text → Text
join [] = []
join (p ∷ []) = p
join (p ∷ (q ∷ ps)) = p ++ (separator ∷ join (q ∷ ps))

abbrev pub add_to_first : ℕ → List Text → List Text
add_to_first x [] = (x ∷ []) ∷ []
add_to_first x (p ∷ ps) = (x ∷ p) ∷ ps

-- `split(_SEPARATOR)`
unfoldable pub split : Text → List Text
split [] = [] ∷ []
split (x ∷ xs) = let rest = split xs in if x == separator then [] ∷ rest else add_to_first x rest

abbrev pub is_empty : Text → Bool
is_empty [] = true
is_empty (x ∷ xs) = false

-- `rstrip(b"=")`
unfoldable pub rstrip : Text → Text
rstrip [] = []
rstrip (x ∷ xs) = let rest = rstrip xs in if is_empty rest && x == equals_sign then [] else x ∷ rest

-- `"=" * n`
abbrev pub padding : ℕ → Text
padding zero = []
padding (suc n) = equals_sign ∷ padding n

-- `cursor + "=" * (-len(cursor) % 4)`
unfoldable pub padded : Text → Text
padded cursor = cursor ++ padding ((4 - length cursor % 4) % 4)

-- `tuple(parse(part) for parse, part in zip(parts, raw, strict=True))`, `none` for a ValueError or a
-- TypeError; another number of parts is refused before.
unfoldable pub parse_parts : {V : Type 0} → List (Text → Option V) → List Text → Option (List V)
parse_parts [] [] = some []
parse_parts [] (raw ∷ raws) = none
parse_parts (parse ∷ parses) [] = none
parse_parts (parse ∷ parses) (raw ∷ raws) =
    let rest = parse_parts parses raws in
    elim (parse raw) [ none ↦ none | some v ↦ map_option (λ vs. v ∷ vs) rest ]

-- `limit`, and the cursor as the parsers gave it.
pub record PageRequest (C : Type 0) : Type 0 where
  pub limit : ℕ
  pub cursor : Option C

abbrev pub fetch_limit : {C : Type 0} → PageRequest C → ℕ
fetch_limit r = r.limit + 1

pub record Page (T : Type 0) : Type 0 where
  pub items : List T
  pub next_cursor : Option Text

-- `rows[:n]` and `items[-1]`
unfoldable pub take : {A : Type 0} → ℕ → List A → List A
take zero xs = []
take (suc n) [] = []
take (suc n) (x ∷ xs) = x ∷ take n xs

unfoldable pub last : {A : Type 0} → List A → Option A
last [] = none
last (x ∷ []) = some x
last (x ∷ (y ∷ ys)) = last (y ∷ ys)

-- `cursor_of row` is `encode_cursor(*key(row))`.
unfoldable pub build_page : {T C : Type 0} → (T → Text) → List T → PageRequest C → Page T
build_page cursor_of rows request = record {
  items = take request.limit rows;
  next_cursor =
      if ltb request.limit (length rows)
      then map_option cursor_of (last (take request.limit rows))
      else none;
}

unfoldable pub encode_cursor : (Text → Text) → List Text → Text
encode_cursor encode parts = rstrip (encode (join parts))

module _ (decode : Text → Option Text) where
  -- Without `parts`; `none` is the ProblemException.
  unfoldable pub decode_raw : Text → Option (List Text)
  decode_raw cursor = map_option split (decode (padded cursor))

  unfoldable pub decode_cursor : {V : Type 0} → List (Text → Option V) → Text → Option (List V)
  unfolding decode_raw
  decode_cursor parses cursor = elim (decode_raw cursor) [
    | none ↦ none
    | some raw ↦ if length raw == length parses then parse_parts parses raw else none
  ]

  -- `page_request_for(*parts)`. The limit is tested by FastAPI; `none` is a 400.
  unfoldable pub page_request_for :
      {V : Type 0}
      → List (Text → Option V)
      → (limit : ℕ) → Option Text
      → Option (PageRequest (List V))
  unfolding decode_cursor
  page_request_for parses limit none =
      if leb 1 limit && leb limit max_limit
      then some (record { limit = limit; cursor = none })
      else none
  page_request_for parses limit (some cursor) =
      if not (leb 1 limit && leb limit max_limit)
      then none
      else if is_empty cursor
      then some (record { limit = limit; cursor = none })
      else map_option (λ vs. record { limit = limit; cursor = some vs })
          (decode_cursor parses cursor)
