-- ===== src/Crypto/Bignum/Digits.antt =====
-- A digit that is cut out of one limb is the digit of the whole number: bits and bytes.
use vyro_os.Base.{
  ℕ, zero, suc, ◌+◌, ◌-◌, ◌*◌, ◌/◌, ◌%◌, ◌^◌, ◌<◌, ◌≡◌, refl, sym, ap, ap₂, ◌∙◌, ◌⊎◌, inl, inr,
  List, [], ◌∷◌, get_or, arith,
}
use native.Mathlib.Nat.{
  pow-zero, pow-suc, one-le-pow, zero-div, div-eq_of_lt, mod-eq_of_lt, add-mul-div_left,
  add-mul-mod_self_left, add-div_left, add-mod_left, div-div-eq-div-mul,
}
use vyro_os.Crypto.Bignum.{bn_bit}
use vyro_os.Crypto.Bignum.Value.{AllLimbs, value}

pub power_add : (b i j : ℕ) → b ^ (i + j) ≡ b ^ i * b ^ j
power_add b i zero =
    ap (λ k. b ^ k) {x = i + 0} {y = i} (omega arith)
    ∙ omega (arith, ap (λ (t : ℕ). b ^ i * t) (pow-zero b))
power_add b i (suc j) =
    ap (λ k. b ^ k) {x = i + suc j} {y = suc (i + j)} (omega arith)
    ∙ omega (
      arith,
      pow-suc b (i + j),
      ap (λ (t : ℕ). t * b) (power_add b i j),
      ap (λ (t : ℕ). b ^ i * t) (pow-suc b j),
    )

-- Below the first limb, or in what follows it.
pub within : (p i : ℕ) → (i < p) ⊎ ((j : ℕ) × (i ≡ p + j))
within zero i = inr (i, omega arith)
within (suc p) zero = inl (omega arith)
within (suc p) (suc i) = elim (within p i) [
  | inl h ↦ inl (omega (arith, h))
  | inr h ↦ inr (h.0, omega (arith, h.1))
]

module _ (b p : ℕ) (pos : 0 < b) (limb : b ^ p ≡ 2 ^ 32) where
  low_digit : (i x v : ℕ) → i < p → x / b ^ i % b ≡ (x + 2 ^ 32 * v) / b ^ i % b
  low_digit i x v lt =
      let rest = p - suc i in
      let split : 2 ^ 32 * v ≡ b ^ i * (b * (b ^ rest * v)) = omega (
        arith,
        ap (λ (t : ℕ). t * v) (sym limb),
        ap (λ k. b ^ k * v) {x = p} {y = i + suc rest} (omega arith),
        ap (λ (t : ℕ). t * v) (power_add b i (suc rest)),
        ap (λ (t : ℕ). b ^ i * t * v) (pow-suc b rest),
      ) in
      sym (
        ap (λ t. (x + t) / b ^ i % b) split
        ∙ ap (λ t. t % b) (add-mul-div_left x (b * (b ^ rest * v)) (one-le-pow i b pos))
        ∙ add-mul-mod_self_left (x / b ^ i) b (b ^ rest * v))

  high_digit : (j x v : ℕ) → x < 2 ^ 32 → v / b ^ j % b ≡ (x + 2 ^ 32 * v) / b ^ (p + j) % b
  high_digit j x v lt = sym (
      ap (λ t. (x + 2 ^ 32 * v) / t % b) (power_add b p j ∙ ap (λ t. t * b ^ j) limb)
      ∙ ap (λ t. t % b) (sym (div-div-eq-div-mul (x + 2 ^ 32 * v) (2 ^ 32) (b ^ j)))
      ∙ ap (λ t. t / b ^ j % b) {x = (x + 2 ^ 32 * v) / 2 ^ 32} {y = v} (omega arith))

  pub digit_lem :
      (a : List ℕ) (i : ℕ)
      → 0 < p
      → AllLimbs a
      → get_or a (i / p) 0 / b ^ (i % p) % b ≡ value a / b ^ i % b
  unfolding value
  digit_lem [] i h ha = ap (λ t. t % b) (zero-div (b ^ (i % p)) ∙ sym (zero-div (b ^ i)))
  digit_lem (x ∷ xs) i h ha = elim (within p i) [
    | inl lt ↦
        ap₂ (λ q r. get_or (x ∷ xs) q 0 / b ^ r % b) (div-eq_of_lt lt) (mod-eq_of_lt lt)
        ∙ low_digit i x (value xs) lt
    | inr ge ↦
        let e = ge.1 in
        let next : (p + ge.0) / p ≡ suc (ge.0 / p) = add-div_left ge.0 h ∙ omega arith in
        rw e (
          ap₂ (λ q r. get_or (x ∷ xs) q 0 / b ^ r % b) next (add-mod_left p ge.0)
          ∙ digit_lem xs ge.0 h ha.1
          ∙ high_digit ge.0 x (value xs) ha.0)
  ]

pub bn_bit_lem : (a : List ℕ) (i : ℕ) → AllLimbs a → bn_bit a i ≡ value a / 2 ^ i % 2
unfolding bn_bit
bn_bit_lem a i ha = digit_lem 2 32 (omega arith) refl a i (omega arith) ha
