-- ===== src/Shared/Pagination/Samples.antt =====
-- An encoding that keeps what is asked of base64, and a text for numbers, for the tests: each
-- character four times, moved past "=", and a number in unary.
use claude_at_work_project.Prelude.{
  ℕ, zero, suc, ◌+◌, ◌-◌, ◌*◌, ◌≡◌, refl, ap, false, Option, none, some, [], ◌∷◌, ◌++◌, arith, ◌==◌,
  any, length, map_option,
}
use claude_at_work_project.Shared.Pagination.{Text, equals_sign, is_empty}
use claude_at_work_project.Shared.Pagination.Cursors.{IsBase64, IsPart}

abbrev pub fourfold : Text → Text
fourfold [] = []
fourfold (x ∷ xs) = (x + 62) ∷ ((x + 62) ∷ ((x + 62) ∷ ((x + 62) ∷ fourfold xs)))

abbrev pub onefold : Text → Option Text
onefold [] = some []
onefold (a ∷ (b ∷ (c ∷ (d ∷ rest)))) = map_option (λ xs. (a - 62) ∷ xs) (onefold rest)
onefold _ = none

onefold-fourfold : (t : Text) → onefold (fourfold t) ≡ some t
onefold-fourfold [] = refl
onefold-fourfold (x ∷ xs) =
    let same : x + 62 - 62 ≡ x = omega arith in rw (onefold-fourfold xs, same) refl

append_nil : (t : Text) → t ≡ t ++ []
append_nil [] = refl
append_nil (x ∷ xs) = ap (λ ys. x ∷ ys) (append_nil xs)

fourfold_fours : (t : Text) → length (fourfold t) ≡ 4 * length t
fourfold_fours [] = refl
fourfold_fours (x ∷ xs) = omega (arith, fourfold_fours xs)

fourfold_plain : (t : Text) → any (λ c. c == equals_sign) (fourfold t) ≡ false
fourfold_plain [] = refl
fourfold_plain (x ∷ xs) = ground (arith, fourfold_plain xs)

pub fourfold-IsBase64 : IsBase64 fourfold onefold
fourfold-IsBase64 = record {
  empty = refl;
  undone = onefold-fourfold;
  body = fourfold;
  pad = λ t. 0;
  shape = λ t. append_nil (fourfold t);
  few = λ t. omega arith;
  fours = λ t. omega (arith, fourfold_fours t);
  no_other = fourfold_plain;
}

-- `x`, and an `x` for each unit.
abbrev pub unary : ℕ → Text
unary zero = 120 ∷ []
unary (suc n) = 120 ∷ unary n

abbrev pub read_unary : Text → Option ℕ
read_unary [] = none
read_unary (x ∷ []) = some 0
read_unary (x ∷ (y ∷ ys)) = map_option (λ n. suc n) (read_unary (y ∷ ys))

pub read_unary_lem : (n : ℕ) → read_unary (unary n) ≡ some n
read_unary_lem zero = refl
read_unary_lem (suc zero) = refl
read_unary_lem (suc (suc n)) = rw (read_unary_lem (suc n)) refl

pub unary-IsPart : (n : ℕ) → IsPart (unary n)
unary-IsPart zero = refl
unary-IsPart (suc n) = unary-IsPart n

pub unary_some : (n : ℕ) → is_empty (unary n) ≡ false
unary_some zero = refl
unary_some (suc n) = refl
