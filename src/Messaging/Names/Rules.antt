-- ===== src/Messaging/Names/Rules.antt =====
-- What `validate_name` accepts, and that it accepts its own results.
use claude_at_work_project.Prelude.{
  ℕ, ◌≤◌, ◌≡◌, ◌↔◌, ◌⊎◌, refl, ◌∙◌, true, [], ◌∷◌, ◌++◌, All, all, length, arith, ok, ap,
}
use claude_at_work_project.Messaging.Models.{Text}
use claude_at_work_project.Messaging.Names.{
  lstrip, strip, is_letter, is_name_char, matches_name, check_name, validate_name,
}
use claude_at_work_project.Messaging.Names.Strip.{
  name_char-is_space, IsBlank, lstrip-split, rstrip-split, lstrip-blank, rstrip-append, rstrip-all,
}

letter-name_char : (c : ℕ) → is_letter c ≡ true → is_name_char c ≡ true
letter-name_char c h = ground arith

matches-all : (cs : Text) → matches_name cs ≡ true → all is_name_char cs ≡ true
matches-all [] h = refl
matches-all (c ∷ cs) h = ground (arith, letter-name_char c)

strip-matches : (cs : Text) → matches_name cs ≡ true → strip cs ≡ cs
unfolding strip lstrip
strip-matches [] h = cc
strip-matches (c ∷ cs) h =
    let letter : is_letter c ≡ true = ground arith in
    rw (name_char-is_space c (letter-name_char c letter))
      (rstrip-all (c ∷ cs) (matches-all (c ∷ cs) h))

check_name_ok :
    (text name : Text)
    → (check_name text ≡ ok name)
      ↔ ((text ≡ name) × (3 ≤ length name) × (length name ≤ 80) × (matches_name name ≡ true))
unfolding check_name
check_name_ok [] name = (λ h. ground arith, λ h. ground arith)
check_name_ok (c ∷ cs) name = (λ h. ground arith, λ h. ground arith)

validate_name_iff :
    (raw name : Text)
    → (validate_name raw ≡ ok name)
      ↔ ((strip raw ≡ name) × (3 ≤ length name) × (length name ≤ 80) × (matches_name name ≡ true))
unfolding validate_name
validate_name_iff raw name = check_name_ok (strip raw) name

-- A letter of ASCII, and what a name may hold after it: letters, digits and hyphens.
abbrev pub IsLetter : ℕ → Type 0
IsLetter c = ((65 ≤ c) × (c ≤ 90)) ⊎ ((97 ≤ c) × (c ≤ 122))

abbrev pub IsAllowed : ℕ → Type 0
IsAllowed c = IsLetter c ⊎ (((48 ≤ c) × (c ≤ 57)) ⊎ (c ≡ 45))

-- `name` is what `raw` has between its surrounding space, and is a name.
pub record IsNamed (raw name : Text) : Type 0 where
  pub before : Text
  pub after : Text
  pub whole : raw ≡ before ++ (name ++ after)
  pub blank_before : IsBlank before
  pub blank_after : IsBlank after
  pub long_enough : 3 ≤ length name
  pub short_enough : length name ≤ 80
  pub first : ℕ
  pub rest : Text
  pub begins : name ≡ first ∷ rest
  pub letter : IsLetter first
  pub allowed : All IsAllowed name

is_letter_iff : (c : ℕ) → (is_letter c ≡ true) ↔ IsLetter c
is_letter_iff c = (λ h. ground arith, λ h. ground arith)

is_name_char_iff : (c : ℕ) → (is_name_char c ≡ true) ↔ IsAllowed c
is_name_char_iff c = (λ h. ground arith, λ h. ground arith)

all-IsAllowed : (cs : Text) → all is_name_char cs ≡ true → All IsAllowed cs
all-IsAllowed [] h = tt
all-IsAllowed (c ∷ cs) h = ((is_name_char_iff c).0 (ground arith), all-IsAllowed cs (ground arith))

IsAllowed-all : (cs : Text) → All IsAllowed cs → all is_name_char cs ≡ true
IsAllowed-all [] h = refl
IsAllowed-all (c ∷ cs) h = rw ((is_name_char_iff c).1 h.0) (IsAllowed-all cs h.1)

strip-IsNamed : (raw name : Text) → IsNamed raw name → strip raw ≡ name
unfolding strip
strip-IsNamed raw name n =
    let shown = IsAllowed-all name n.allowed in
    let letter = (is_letter_iff n.first).1 n.letter in
    let stripped : lstrip raw ≡ name ++ n.after =
      rw (n.whole, n.begins)
        (lstrip-blank n.before n.first (n.rest ++ n.after) n.blank_before
          (name_char-is_space n.first (letter-name_char n.first letter))) in
    rw stripped (rstrip-append name n.after shown n.blank_after)

matches_name-begins :
    (name : Text) → matches_name name ≡ true → (c : ℕ) × (cs : Text) × (name ≡ c ∷ cs) × IsLetter c
matches_name-begins [] h = absurd (ground arith)
matches_name-begins (c ∷ cs) h = (c, cs, refl, (is_letter_iff c).0 (ground arith))

begins-matches_name :
    (name cs : Text) (c : ℕ)
    → name ≡ c ∷ cs
    → IsLetter c
    → All IsAllowed name
    → matches_name name ≡ true
begins-matches_name name cs c e letter allowed =
    let shown : all is_name_char (c ∷ cs) ≡ true = rw e at (IsAllowed-all name allowed) in
    rw e (ground (arith, (is_letter_iff c).1 letter))

IsNamed-strip :
    (raw name : Text)
    → strip raw ≡ name
    → 3 ≤ length name
    → length name ≤ 80
    → matches_name name ≡ true
    → IsNamed raw name
unfolding strip
IsNamed-strip raw name stripped long short form =
    let (before, blank_before, whole) = lstrip-split raw in
    let (after, blank_after, whole') = rstrip-split (lstrip raw) in
    let (first, rest, begins, letter) = matches_name-begins name form in
    record {
      before = before;
      after = after;
      whole = whole ∙ ap (λ (t : Text). before ++ t) (whole' ∙ rw stripped refl);
      blank_before = blank_before;
      blank_after = blank_after;
      long_enough = long;
      short_enough = short;
      first = first;
      rest = rest;
      begins = begins;
      letter = letter;
      allowed = all-IsAllowed name (matches-all name form);
    }

-- A text is accepted as `name` exactly if it is `name` with nothing but space before and after it, and
-- `name` has 3 to 80 characters, begins with a letter of ASCII, and holds only such letters, digits
-- and hyphens.
pub validate_name_ok : (raw name : Text) → (validate_name raw ≡ ok name) ↔ IsNamed raw name
validate_name_ok raw name = (
  λ h.
      let (stripped, long, short, form) = (validate_name_iff raw name).0 h in
      IsNamed-strip raw name stripped long short form,
  λ n. (validate_name_iff raw name).1 (
    strip-IsNamed raw name n,
    n.long_enough,
    n.short_enough,
    begins-matches_name name n.rest n.first n.begins n.letter n.allowed,
  ),
)

-- An accepted name is accepted again, unchanged: a client may send back what it was given.
pub validate_name_again :
    (raw name : Text) → validate_name raw ≡ ok name → validate_name name ≡ ok name
validate_name_again raw name h =
    let (_, short, long, form) = (validate_name_iff raw name).0 h in
    (validate_name_iff name name).1 (strip-matches name form, short, long, form)
