-- ===== src/Auth/Names.antt =====
-- src/services/auth/auth/names.py: the rules of display names. A name is the list of its code points.
-- What Python's str and unicodedata do is the parameter `Unicode`. Sets are lists.
pub mod Candidates
pub mod Dedupe
pub mod Suffixes
use claude_at_work_project.Prelude.{
  ℕ, zero, suc, ◌+◌, ◌-◌, ◌/◌, ◌%◌, Bool, true, false, ◌&&◌, ◌||◌, not, Option, none, some, List,
  [], ◌∷◌, ◌++◌, ltb, leb, ◌==◌, any, select, length, map, map_option, if◌then◌else◌, Result, ok,
  err,
}
use claude_at_work_project.Shared.Pagination.{take}
use claude_at_work_project.Shared.Pagination.Ordered.{order_by}
use claude_at_work_project.Messaging.Models.{same_text}
use claude_at_work_project.Auth.Rows.{Uuid, Time}
use claude_at_work_project.Auth.Members.{seated_before}

abbrev pub Text : Type 0
Text = List ℕ

-- `normalize("NFC", …)`, `normalize("NFD", …)`, `casefold`, `strip`, and whether a character's
-- general category is in `_REFUSED_CATEGORIES`.
pub record Unicode : Type 0 where
  pub nfc : Text → Text
  pub nfd : Text → Text
  pub casefold : Text → Text
  pub strip : Text → Text
  pub is_refused_category : ℕ → Bool

abbrev pub max_length : ℕ
max_length = 100

pub data InvalidNameError : Type 0 where
  required too_long invisible : InvalidNameError

abbrev pub default_ignorable : List (ℕ × ℕ)
default_ignorable =
    (0xAD, 0xAD)
    ∷ ((0x34F, 0x34F)
        ∷ ((0x61C, 0x61C)
            ∷ ((0x115F, 0x1160)
                ∷ ((0x17B4, 0x17B5)
                    ∷ ((0x180B, 0x180F)
                        ∷ ((0x200B, 0x200F)
                            ∷ ((0x202A, 0x202E)
                                ∷ ((0x2060, 0x206F)
                                    ∷ ((0x3164, 0x3164)
                                        ∷ ((0xFE00, 0xFE0F)
                                            ∷ ((0xFEFF, 0xFEFF)
                                                ∷ ((0xFFA0, 0xFFA0)
                                                    ∷ ((0xFFF0, 0xFFF8)
                                                        ∷ ((0x1BCA0, 0x1BCA3)
                                                            ∷ ((0x1D173, 0x1D17A)
                                                            ∷ ((0xE0000, 0xE0FFF)
                                                            ∷ []))))))))))))))))

abbrev pub is_empty : Text → Bool
is_empty [] = true
is_empty (c ∷ cs) = false

-- `str(n)`, the digits from the last on; the number has no more digits than its value and one.
abbrev pub digits : (fuel n : ℕ) → Text
digits zero n = []
digits (suc fuel) n =
    let rest = digits fuel (n / 10) in
    if ltb n 10 then (48 + n) ∷ [] else rest ++ ((48 + n % 10) ∷ [])

abbrev pub decimal : ℕ → Text
decimal n = digits (n + 1) n

-- `candidates(base)`, by its place: `base`, `base 2`, `base 3`, and so on.
unfoldable pub candidate : Text → ℕ → Text
candidate base zero = base
candidate base (suc k) =
    let suffix = 32 ∷ decimal (k + 2) in take (max_length - length suffix) base ++ suffix

-- `a or b`
abbrev pub or_text : Text → Text → Text
or_text [] b = b
or_text (c ∷ cs) b = c ∷ cs

-- `email.split("@")[0]`
unfoldable pub local_part : Text → Text
local_part [] = []
local_part (c ∷ cs) = let rest = local_part cs in if c == 64 then [] else c ∷ rest

pub record NameRow : Type 0 where
  pub id : Uuid
  pub created_at : Time
  pub display_name : Text
  pub email : Text

-- A row's name stays beside its id, where the code has a dict by the id; `is_duplicate` says whether
-- the id is in `duplicates`.
pub record Named : Type 0 where
  pub id : Uuid
  pub name : Text
  pub is_duplicate : Bool

-- `key in taken`
abbrev pub is_taken_by : Text → List Text → Bool
is_taken_by key taken = any (same_text key) taken

module _ (u : Unicode) where
  unfoldable pub refused : ℕ → Bool
  refused c = u.is_refused_category c || any (λ r. leb r.0 c && leb c r.1) default_ignorable

  unfoldable pub normalise : Text → Text
  normalise raw = u.nfc (u.strip raw)

  unfoldable pub check : Text → Result InvalidNameError (Unit {0})
  unfolding refused
  check name =
      if is_empty name
      then err required
      else if any refused name
      then err invisible
      else if ltb max_length (length name)
      then err too_long
      else ok tt

  unfoldable pub clean : Text → Result InvalidNameError Text
  unfolding normalise check
  clean raw = elim (check (normalise raw)) [ err e ↦ err e | ok _ ↦ ok (normalise raw) ]

  unfoldable pub name_key : Text → Text
  name_key name = u.nfc (u.casefold (u.nfd name))

  -- The candidates from the `k`th on; `none` means that the fuel ran out.
  unfoldable pub search : (fuel k : ℕ) → Text → List Text → Option Text
  search zero k base taken = none
  search (suc fuel) k base taken =
      let rest = search fuel (suc k) base taken in
      if is_taken_by (name_key (candidate base k)) taken then rest else some (candidate base k)

  unfoldable pub first_free : Text → List Text → Option Text
  unfolding search
  first_free base taken = search (length taken + 2) 0 base taken

  -- `_repair`
  unfoldable pub repair : Text → Text
  repair raw =
      normalise (take max_length (normalise (select (λ c. not (refused c)) (normalise raw))))

  unfoldable pub provisional : (raw fallback : Text) → Text
  provisional raw fallback =
      or_text (repair raw) (or_text (repair fallback) (b'u' ∷ (b's' ∷ (b'e' ∷ (b'r' ∷ [])))))

  -- The first loop of `dedupe`.
  unfoldable pub stored_name : NameRow → Text
  unfolding check
  stored_name row =
      let name = normalise row.display_name in
      elim (check name) [ ok _ ↦ name | err e ↦ provisional name (local_part row.email) ]

  -- The second: what it makes of `reserved`, and which rows are duplicates.
  unfoldable pub mark : (reserved : List Text) → List NameRow → List Text × List Named
  mark reserved [] = (reserved, [])
  mark reserved (row ∷ rows) =
      let name = stored_name row in
      let taken = is_taken_by (name_key name) reserved in
      let rest = mark (if taken then reserved else name_key name ∷ reserved) rows in
      (rest.0, record { id = row.id; name = name; is_duplicate = taken } ∷ rest.1)

  -- The third.
  unfoldable pub rename : (reserved : List Text) → List Named → Option (List (Uuid × Text))
  unfolding first_free
  rename reserved [] = some []
  rename reserved (n ∷ ns) =
      if n.is_duplicate
      then elim (first_free n.name reserved) [
        | none ↦ none
        | some name ↦
            map_option (λ names. (n.id, name) ∷ names) (rename (name_key name ∷ reserved) ns)
      ]
      else map_option (λ names. (n.id, n.name) ∷ names) (rename reserved ns)

  unfoldable pub dedupe : List NameRow → Option (List (Uuid × Text))
  unfolding mark rename
  dedupe rows =
      let marked = mark [] (order_by seated_before (λ r. (r.created_at, r.id)) rows) in
      rename marked.0 marked.1
