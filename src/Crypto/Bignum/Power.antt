-- ===== src/Crypto/Bignum/Power.antt =====
-- `bn_modexp` raises to a power by a modulus: square and multiply, the lowest bit first.
use vyro_os.Base.{
  ℕ, zero, suc, ◌+◌, ◌*◌, ◌/◌, ◌%◌, ◌^◌, ◌≤◌, ◌<◌, ◌≡◌, sym, ap, ap₂, ◌∙◌, not, Option, none, some,
  List, length, set, replicate, length-replicate, ◌==◌, if-holds, arith,
}
use native.Mathlib.Nat.{
  pow-zero, pow-suc, mod-eq_of_lt, mod-lt, div-add-mod, add-mul-mod_self_left, mod-mod, one-le-pow,
  mul-le-mul, le_refl,
}
use vyro_os.Crypto.Bignum.{bn_bit, bn_mulmod, top_bit, exp_step, exp_loop, modexp_from, bn_modexp}
use vyro_os.Crypto.Bignum.Value.{AllLimbs, value, value-zeros, zeros-AllLimbs}
use vyro_os.Crypto.Bignum.Digits.{bn_bit_lem, power_add}
use vyro_os.Crypto.Bignum.Reduce.{IsReduced, bn_mulmod_lem, bits_lem, next_bit, limbs_lem}

-- A factor may be reduced first.
mul_mod : (a b m : ℕ) → a * b % m ≡ a % m * (b % m) % m
mul_mod a b m =
    ap (λ t. t % m) {x = a * b} {y = a % m * (b % m) + m * (a % m * (b / m) + a / m * b)}
      (omega (
        arith,
        ap (λ (t : ℕ). t * b) (div-add-mod a m),
        ap (λ (t : ℕ). a % m * t) (div-add-mod b m),
      ))
    ∙ add-mul-mod_self_left (a % m * (b % m)) m (a % m * (b / m) + a / m * b)

mul_cong : (m a b c d : ℕ) → a % m ≡ c % m → b % m ≡ d % m → a * b % m ≡ c * d % m
mul_cong m a b c d h k = mul_mod a b m ∙ ap₂ (λ s t. s * t % m) h k ∙ sym (mul_mod c d m)

-- The lowest `i + 1` bits from the lowest `i`.
low_bits : (e i : ℕ) → e % 2 ^ suc i ≡ e % 2 ^ i + e / 2 ^ i % 2 * 2 ^ i
low_bits e i =
    let low = e % 2 ^ i + e / 2 ^ i % 2 * 2 ^ i in
    let bit : e / 2 ^ i % 2 ≤ 1 = omega arith in
    let part = mod-lt e (one-le-pow i 2 (omega arith)) in
    let small : low < 2 ^ suc i =
      omega (arith, pow-suc 2 i, part, mul-le-mul bit (le_refl (2 ^ i))) in
    ap (λ t. t % 2 ^ suc i) {x = e} {y = low + 2 ^ suc i * (e / 2 ^ suc i)}
      (omega (
        arith,
        div-add-mod e (2 ^ i),
        ap (λ (t : ℕ). 2 ^ i * t) (next_bit e i),
        ap (λ (t : ℕ). t * (e / 2 ^ suc i)) (pow-suc 2 i),
      ))
    ∙ add-mul-mod_self_left low (2 ^ suc i) (e / 2 ^ suc i)
    ∙ mod-eq_of_lt small

module _ (base exp m : List ℕ) (hb : AllLimbs base) (he : AllLimbs exp) (hm : AllLimbs m)
    (some_m : 0 < value m) where
  -- What the loop keeps before bit `i`: the power by the bits it has read, and by 2 ^ i.
  abbrev Kept : ℕ → List ℕ → List ℕ → Type 0
  Kept i result b =
      (value result % value m ≡ value base ^ (value exp % 2 ^ i) % value m)
      × (value b % value m ≡ value base ^ (2 ^ i) % value m)
      × AllLimbs result
      × AllLimbs b

  odd_step :
      (i : ℕ) (result b : List ℕ)
      → Kept i result b
      → bn_bit exp i ≡ 1
      → value result * value b % value m ≡ value base ^ (value exp % 2 ^ suc i) % value m
  odd_step i result b h one =
      let x = value base in
      let e = value exp in
      let sum : e % 2 ^ suc i ≡ e % 2 ^ i + 2 ^ i =
        low_bits e i
        ∙ ap (λ t. e % 2 ^ i + t * 2 ^ i) (sym (bn_bit_lem exp i he) ∙ one)
        ∙ omega arith in
      mul_cong (value m) (value result) (value b) (x ^ (e % 2 ^ i)) (x ^ (2 ^ i)) h.0 h.1
      ∙ ap (λ t. t % value m) (sym (ap (λ k. x ^ k) sum ∙ power_add x (e % 2 ^ i) (2 ^ i)))

  exp_step-Kept :
      (i : ℕ) (result b : List ℕ)
      → Kept i result b
      → (value (exp_step exp m result b i) % value m
          ≡ value base ^ (value exp % 2 ^ suc i) % value m)
        × AllLimbs (exp_step exp m result b i)
  unfolding exp_step
  exp_step-Kept i result b h =
      let digit = bn_bit_lem exp i he in
      let x = value base in
      let e = value exp in
      let product = bn_mulmod_lem result b m h.2 h.3 hm some_m in
      if-holds (λ r. (value r % value m ≡ x ^ (e % 2 ^ suc i) % value m) × AllLimbs r)
        (not (bn_bit exp i == 0))
        (λ yes.
          let one : bn_bit exp i ≡ 1 = ground (arith, digit) in
          (
            ap (λ t. t % value m) product.0
                ∙ mod-mod (value result * value b) (value m)
                ∙ odd_step i result b h one,
            product.1,
          ))
        (λ no.
          let none : bn_bit exp i ≡ 0 = ground arith in
          let same : e % 2 ^ suc i ≡ e % 2 ^ i =
            low_bits e i ∙ ap (λ t. e % 2 ^ i + t * 2 ^ i) (sym digit ∙ none) ∙ omega arith in
          (h.0 ∙ ap (λ k. x ^ k % value m) (sym same), h.2))

  square-Kept :
      (i : ℕ) (result b : List ℕ)
      → Kept i result b
      → value (bn_mulmod b b m) % value m ≡ value base ^ (2 ^ suc i) % value m
  square-Kept i result b h =
      let x = value base in
      ap (λ t. t % value m) (bn_mulmod_lem b b m h.3 h.3 hm some_m).0
      ∙ mod-mod (value b * value b) (value m)
      ∙ mul_cong (value m) (value b) (value b) (x ^ (2 ^ i)) (x ^ (2 ^ i)) h.1 h.1
      ∙ ap (λ t. t % value m)
          (sym (power_add x (2 ^ i) (2 ^ i))
            ∙ ap (λ k. x ^ k) {x = 2 ^ i + 2 ^ i} {y = 2 ^ suc i} (omega (arith, pow-suc 2 i)))

  exp_loop_lem :
      (left i : ℕ) (result b : List ℕ)
      → Kept i result b
      → bn_bit exp (left + i) ≡ 1
      → value exp < 2 ^ suc (left + i)
      → IsReduced (exp_loop left i exp m result b) m (value base ^ value exp)
  unfolding exp_loop exp_step
  exp_loop_lem zero i result b h top lt =
      let here : zero + i ≡ i = omega arith in
      let one : bn_bit exp i ≡ 1 = rw here at top in
      let product = bn_mulmod_lem result b m h.2 h.3 hm some_m in
      rw one (
        product.0
            ∙ odd_step i result b h one
            ∙ ap (λ t. value base ^ t % value m) (mod-eq_of_lt (rw here at lt)),
        product.1,
        product.2,
      )
  exp_loop_lem (suc left) i result b h top lt =
      let step = exp_step-Kept i result b h in
      let e : suc left + i ≡ left + suc i = omega arith in
      exp_loop_lem left (suc i) (exp_step exp m result b i) (bn_mulmod b b m)
        (step.0, square-Kept i result b h, step.1, (bn_mulmod_lem b b m h.3 h.3 hm some_m).1)
        (rw e at top) (rw e at lt)

-- What `top_bit` finds: no bit of 0, else the highest bit of the number.
abbrev TopOf : List ℕ → Option ℕ → Type 0
TopOf exp none = value exp ≡ 0
TopOf exp (some i) = (bn_bit exp i ≡ 1) × (value exp < 2 ^ suc i)

top_bit_lem : (n : ℕ) (exp : List ℕ) → AllLimbs exp → value exp < 2 ^ n → TopOf exp (top_bit n exp)
unfolding top_bit
top_bit_lem zero exp he lt = omega arith
top_bit_lem (suc n) exp he lt =
    let digit = bn_bit_lem exp n he in
    if-holds (TopOf exp) (not (bn_bit exp n == 0)) (λ yes. ((ground (arith, digit)), lt))
      (λ no.
        let none : bn_bit exp n ≡ 0 = ground arith in
        let same : value exp % 2 ^ suc n ≡ value exp % 2 ^ n =
          low_bits (value exp) n
          ∙ ap (λ t. value exp % 2 ^ n + t * 2 ^ n) (sym digit ∙ none)
          ∙ omega arith in
        let part = mod-lt (value exp) (one-le-pow n 2 (omega arith)) in
        top_bit_lem n exp he (omega (arith, same, mod-eq_of_lt lt, part)))

one_limbs : ℕ → List ℕ
one_limbs n = set (replicate n 0) 0 1

one_limbs_lem :
    (n : ℕ)
    → 0 < n
    → (value (one_limbs n) ≡ 1) × AllLimbs (one_limbs n) × (length (one_limbs n) ≡ n)
unfolding one_limbs value
one_limbs_lem zero h = absurd (omega arith)
one_limbs_lem (suc n) h =
    (omega (arith, value-zeros n), (omega arith, zeros-AllLimbs n), ap suc (length-replicate n 0))

power_one : (b : ℕ) → b ^ 1 ≡ b
power_one b = omega (arith, pow-suc b 0, ap (λ (t : ℕ). t * b) (pow-zero b))

modexp_from_lem :
    (base exp m : List ℕ)
    → AllLimbs base
    → AllLimbs exp
    → AllLimbs m
    → 1 < value m
    → (top : Option ℕ) → TopOf exp top
    → IsReduced (modexp_from top base exp m (one_limbs (length m))) m (value base ^ value exp)
unfolding modexp_from
modexp_from_lem base exp m hb he hm big none h =
    let one = one_limbs_lem (length m) (limbs_lem m (omega arith)) in
    (
      one.0
          ∙ sym (mod-eq_of_lt big)
          ∙ ap (λ t. t % value m) (sym (pow-zero (value base)) ∙ ap (λ k. value base ^ k) (sym h)),
      one.1,
      one.2,
    )
modexp_from_lem base exp m hb he hm big (some top) h =
    let one = one_limbs_lem (length m) (limbs_lem m (omega arith)) in
    let here : top ≡ top + 0 = omega arith in
    exp_loop_lem base exp m hb he hm (omega arith) top 0 (one_limbs (length m)) base
      (
        ap (λ t. t % value m)
            (one.0
              ∙ sym (pow-zero (value base))
              ∙ ap (λ k. value base ^ k) {x = 0} {y = value exp % 2 ^ 0} (omega arith)),
        ap (λ t. t % value m) (sym (power_one (value base))),
        one.1,
        hb,
      )
      (ap (λ k. bn_bit exp k) (sym here) ∙ h.0) (rw here at h.1)

-- For a modulus of at least 2 and numbers in 32-bit limbs, `bn_modexp` gives the power of the
-- base by the exponent, reduced by the modulus, in as many limbs as the modulus has.
pub bn_modexp_lem :
    (base exp m : List ℕ)
    → AllLimbs base
    → AllLimbs exp
    → AllLimbs m
    → 1 < value m
    → IsReduced (bn_modexp base exp m) m (value base ^ value exp)
unfolding bn_modexp one_limbs
bn_modexp_lem base exp m hb he hm big =
    modexp_from_lem base exp m hb he hm big (top_bit (length exp * 32) exp)
      (top_bit_lem (length exp * 32) exp he (bits_lem exp he))
