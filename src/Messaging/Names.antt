-- ===== src/Messaging/Names.antt =====
-- src/services/messaging/messaging/channels.py: `validate_name` and its patterns. The pattern's `$`
-- would let a newline at the end pass, but the name is stripped before.
use claude_at_work_project.Prelude.{
  ℕ, ◌≤◌, ◌<◌, ◌+◌, Bool, true, false, not, ◌&&◌, ◌||◌, List, [], ◌∷◌, leb, ltb, ◌==◌, all, length,
  if◌then◌else◌, Result, ok, err,
}
use claude_at_work_project.Messaging.Models.{Text}
use claude_at_work_project.Messaging.Session.{
  Error, name_required, name_too_short, name_too_long, name_must_start_with_letter, name_characters,
}
pub mod Strip
pub mod Rules

-- `str.isspace` of one code point.
unfoldable pub is_space : ℕ → Bool
is_space c =
    (leb 9 c && leb c 13)
    || (leb 28 c && leb c 32)
    || c == 0x85
    || c == 0xA0
    || c == 0x1680
    || (leb 0x2000 c && leb c 0x200A)
    || c == 0x2028
    || c == 0x2029
    || c == 0x202F
    || c == 0x205F
    || c == 0x3000

unfoldable pub lstrip : Text → Text
lstrip [] = []
lstrip (c ∷ cs) = let rest = lstrip cs in if is_space c then rest else c ∷ cs

abbrev pub is_empty {ℓ} : {A : Type ℓ} → List A → Bool
is_empty [] = true
is_empty (x ∷ xs) = false

unfoldable pub rstrip : Text → Text
rstrip [] = []
rstrip (c ∷ cs) = let rest = rstrip cs in if is_space c && is_empty rest then [] else c ∷ rest

-- `raw.strip()`
unfoldable pub strip : Text → Text
unfolding lstrip rstrip
strip cs = rstrip (lstrip cs)

abbrev pub is_letter : ℕ → Bool
is_letter c = (leb b'A' c && leb c b'Z') || (leb b'a' c && leb c b'z')

-- `[A-Za-z0-9-]`
abbrev pub is_name_char : ℕ → Bool
is_name_char c = is_letter c || (leb b'0' c && leb c b'9') || c == b'-'

-- `_LEADING_ALPHA`
abbrev pub leading_alpha : Text → Bool
leading_alpha [] = false
leading_alpha (c ∷ cs) = is_letter c

-- `_NAME_PATTERN`
abbrev pub matches_name : Text → Bool
matches_name [] = false
matches_name (c ∷ cs) = is_letter c && all is_name_char cs

abbrev pub min_name_length : ℕ
min_name_length = 3

abbrev pub max_name_length : ℕ
max_name_length = 80

unfoldable pub check_name : Text → Result Error Text
check_name name =
    if is_empty name
    then err name_required
    else if ltb (length name) min_name_length
    then err name_too_short
    else if ltb max_name_length (length name)
    then err name_too_long
    else if not (leading_alpha name)
    then err name_must_start_with_letter
    else if not (matches_name name)
    then err name_characters
    else ok name

unfoldable pub validate_name : Text → Result Error Text
unfolding check_name strip
validate_name raw = check_name (strip raw)
