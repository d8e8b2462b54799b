-- ===== src/Prelude/Bits.antt =====
-- Or-ing a number into the low digits that another leaves free is adding it.
use Prim.Native.Nat.{
  ℕ, zero, suc, ◌+◌, ◌*◌, ◌/◌, ◌^◌, ◌≤◌, ◌<◌, max, bit_or, digits, bit_or-bitwise,
}
use mathlib.Core.Path.{◌≡◌, refl, ◌∙◌}
use native.Mathlib.Omega.{arith}

-- The or of two numbers, by as many rounds as the first may have digits.
abbrev or_rounds : ℕ → ℕ → ℕ → ℕ
or_rounds n a b = digits (λ b. b) max n a b

or_rounds-zero : (n x : ℕ) → x ≤ n → or_rounds n x 0 ≡ x
or_rounds-zero zero x h = omega arith
or_rounds-zero (suc n) zero h = refl
or_rounds-zero (suc n) (suc x) h = omega (arith, or_rounds-zero n (suc x / 2) (omega arith))

-- `2 ^ suc k` is twice `2 ^ k`, at a factor.
double : (a k : ℕ) → a * 2 ^ suc k ≡ 2 * (a * 2 ^ k)
double a k = grind arith

or_rounds-add : (n k a b x : ℕ) → x ≡ a * 2 ^ k → x ≤ n → b < 2 ^ k → or_rounds n x b ≡ x + b
or_rounds-add n zero a b x e h small =
    let empty : b ≡ 0 = omega (arith, small) in rw empty (or_rounds-zero n x h ∙ omega arith)
or_rounds-add zero (suc k) a b x e h small = omega arith
or_rounds-add (suc n) (suc k) a b zero e h small = omega arith
or_rounds-add (suc n) (suc k) a b (suc x) e h small = omega (
  arith,
  double a k,
  double 1 k,
  or_rounds-add n k a (b / 2) (suc x / 2) (omega (arith, double a k)) (omega arith)
      (omega (arith, double 1 k)),
)

-- `a << k | b`, where `b` has `k` bits.
pub bit_or-add : (k a b : ℕ) → b < 2 ^ k → bit_or (a * 2 ^ k) b ≡ a * 2 ^ k + b
bit_or-add k a b small =
    bit_or-bitwise (a * 2 ^ k) b
    ∙ or_rounds-add (a * 2 ^ k) k a b (a * 2 ^ k) refl (omega arith) small
