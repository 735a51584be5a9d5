-- ===== src/Base/Digits.antt =====
-- `|` on numbers of any width, digit by digit.
use Prim.Native.Nat.{
  ℕ, zero, suc, ◌+◌, ◌*◌, ◌/◌, ◌%◌, ◌^◌, ◌≤◌, ◌<◌, max, digits, bit_or, bit_or-bitwise,
}
use mathlib.Core.Path.{◌≡◌, refl, sym, ap, ap₂, ◌∙◌}
use native.Mathlib.Nat.{pow-suc}
use native.Mathlib.Omega.{arith}

abbrev or_digits : ℕ → ℕ → ℕ → ℕ
or_digits = digits (λ b. b) max

-- The count of digits to go does not matter once it is large enough.
or_digits-count : (n m a b : ℕ) → a ≤ n → a ≤ m → or_digits n a b ≡ or_digits m a b
or_digits-count zero zero a b h k = refl
or_digits-count zero (suc m) zero b h k = refl
or_digits-count zero (suc m) (suc a) b h k = absurd (omega arith)
or_digits-count (suc n) zero zero b h k = refl
or_digits-count (suc n) zero (suc a) b h k = absurd (omega arith)
or_digits-count (suc n) (suc m) zero b h k = refl
or_digits-count (suc n) (suc m) (suc a) b h k =
    ap (λ d. d * 2 + max (suc a % 2) (b % 2))
      (or_digits-count n m (suc a / 2) (b / 2) (omega arith) (omega arith))

or_lem : (a b : ℕ) → bit_or a b ≡ or_digits a a b
or_lem a b = bit_or-bitwise a b

bit_or-zero : (b : ℕ) → bit_or 0 b ≡ b
bit_or-zero b = or_lem 0 b

bit_or-step : (a b : ℕ) → bit_or a b ≡ bit_or (a / 2) (b / 2) * 2 + max (a % 2) (b % 2)
bit_or-step zero b =
    bit_or-zero b
    ∙ (let low : b ≡ b / 2 * 2 + b % 2 = omega arith in low)
    ∙ ap (λ d. d * 2 + b % 2) (sym (bit_or-zero (b / 2)))
    ∙ (let top : b % 2 ≡ max 0 (b % 2) = omega arith in ap (λ d. bit_or 0 (b / 2) * 2 + d) top)
bit_or-step (suc a) b =
    or_lem (suc a) b
    ∙ ap (λ d. d * 2 + max (suc a % 2) (b % 2))
        (or_digits-count a (suc a / 2) (suc a / 2) (b / 2) (omega arith) (omega arith)
          ∙ sym (or_lem (suc a / 2) (b / 2)))

-- Numbers without a digit in common: the second has zeros where the first has digits.
pub bit_or-high : (k x y : ℕ) → y < 2 ^ k → bit_or y (x * 2 ^ k) ≡ x * 2 ^ k + y
bit_or-high zero x y h = let z : y ≡ 0 = omega arith in rw z (bit_or-zero (x * 1) ∙ omega arith)
bit_or-high (suc k) x y h =
    let double : x * 2 ^ suc k ≡ x * 2 ^ k * 2 =
      omega (arith, ap (λ (t : ℕ). x * t) (pow-suc 2 k)) in
    let even : x * 2 ^ suc k % 2 ≡ 0 = omega arith in
    bit_or-step y (x * 2 ^ suc k)
    ∙ ap₂ (λ a b. a * 2 + max (y % 2) b)
        (ap (bit_or (y / 2)) {x = x * 2 ^ suc k / 2} {y = x * 2 ^ k} (omega arith)
          ∙ bit_or-high k x (y / 2) (omega arith))
        even
    ∙ omega arith

bit_or-none : (n a : ℕ) → a ≤ n → bit_or a 0 ≡ a
bit_or-none zero a h = let z : a ≡ 0 = omega arith in rw z (bit_or-zero 0)
bit_or-none (suc n) zero h = bit_or-zero 0
bit_or-none (suc n) (suc a) h =
    bit_or-step (suc a) 0
    ∙ ap (λ d. d * 2 + max (suc a % 2) (0 % 2)) {x = bit_or (suc a / 2) (0 / 2)}
        (bit_or-none n (suc a / 2) (omega arith))
    ∙ omega arith

pub bit_or-low : (k x y : ℕ) → y < 2 ^ k → bit_or (x * 2 ^ k) y ≡ x * 2 ^ k + y
bit_or-low zero x y h =
    let z : y ≡ 0 = omega arith in rw z (bit_or-none (x * 1) (x * 1) (omega arith) ∙ omega arith)
bit_or-low (suc k) x y h =
    let double : x * 2 ^ suc k ≡ x * 2 ^ k * 2 =
      omega (arith, ap (λ (t : ℕ). x * t) (pow-suc 2 k)) in
    let even : x * 2 ^ suc k % 2 ≡ 0 = omega arith in
    bit_or-step (x * 2 ^ suc k) y
    ∙ ap₂ (λ a b. a * 2 + max b (y % 2))
        (ap (λ d. bit_or d (y / 2)) {x = x * 2 ^ suc k / 2} {y = x * 2 ^ k} (omega arith)
          ∙ bit_or-low k x (y / 2) (omega arith))
        even
    ∙ omega arith
