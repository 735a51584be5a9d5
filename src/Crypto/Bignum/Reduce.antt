-- ===== src/Crypto/Bignum/Reduce.antt =====
-- One conditional subtraction reduces, and the loop over the bits of a product leaves its
-- remainder.
use vyro_os.Base.{
  ℕ, zero, suc, ◌+◌, ◌-◌, ◌*◌, ◌/◌, ◌%◌, ◌^◌, ◌≤◌, ◌<◌, ◌≡◌, refl, sym, ap, ◌∙◌, ◌⊎◌, inl, inr,
  true, false, ◌||◌, not, List, [], ◌∷◌, length, replicate, length-replicate, ◌==◌, if-holds,
  bit_or, arith,
}
use native.Mathlib.Nat.{
  pow-zero, pow-suc, mod-eq_of_lt, mod-eq-sub-mod, mod-lt, div-add-mod, add-mul-mod_self_left,
  div-div-eq-div-mul, div-eq_of_lt, zero-mod,
}
use vyro_os.Base.Digits.{bit_or-low}
use vyro_os.Crypto.Bignum.{
  at_least_zero, add_limbs, sub_limbs, reduce_once, bn_addmod, shift_limbs, shift_in, bn_bit,
  mod_loop, bn2_mod, bn_mulmod, bn2_mul,
}
use vyro_os.Crypto.Bignum.Value.{
  AllLimbs, value, value-lt, value-zeros, zeros-AllLimbs, order, bn_cmp_lem, add_limbs_lem,
  sub_limbs_lem, carried,
}
use vyro_os.Crypto.Bignum.Digits.{bn_bit_lem, power_add}
use vyro_os.Crypto.Bignum.Multiply.{bn2_mul_lem}

-- `value r.0`, and the carry behind the highest limb.
abbrev total : List ℕ × ℕ → ℕ → ℕ
total r n = value r.0 + r.1 * (2 ^ 32) ^ n

-- What the limbs of a number below the modulus are.
abbrev pub IsReduced : List ℕ → List ℕ → ℕ → Type 0
IsReduced r m x = (value r ≡ x % value m) × AllLimbs r × (length r ≡ length m)

-- What a borrow leaves of a number below twice the modulus.
sub_total :
    (c w x m p s : ℕ)
    → c ≤ 1
    → w ≤ 1
    → s < p
    → m < p
    → m ≤ x + c * p
    → x + c * p < m + m
    → s + m ≡ x + w * p
    → s ≡ x + c * p - m
sub_total zero zero x m p s hc hw hs hm le lt e = omega arith
sub_total zero (suc zero) x m p s hc hw hs hm le lt e = absurd (omega arith)
sub_total (suc zero) zero x m p s hc hw hs hm le lt e = absurd (omega arith)
sub_total (suc zero) (suc zero) x m p s hc hw hs hm le lt e = omega arith
sub_total c (suc (suc w)) x m p s hc hw hs hm le lt e = absurd (omega arith)
sub_total (suc (suc c)) w x m p s hc hw hs hm le lt e = absurd (omega arith)

-- A number below twice the modulus.
mod_once : (t m : ℕ) → m ≤ t → t < m + m → t % m ≡ t - m
mod_once t m le lt = mod-eq-sub-mod le ∙ mod-eq_of_lt (omega arith)

decided :
    (c x y : ℕ)
    → ((not (c == 0) || at_least_zero (order x y)) ≡ true → (1 ≤ c) ⊎ (y ≤ x))
      × ((not (c == 0) || at_least_zero (order x y)) ≡ false → (c ≡ 0) × (x < y))
decided c x y = (λ h. ground arith, λ h. ground arith)

pub reduce_once_lem :
    (r : List ℕ × ℕ) (m : List ℕ)
    → AllLimbs r.0
    → AllLimbs m
    → length r.0 ≡ length m
    → r.1 ≤ 1
    → total r (length m) < value m + value m
    → IsReduced (reduce_once r m) m (total r (length m))
unfolding reduce_once
reduce_once_lem r m hr hm len le lt =
    let cmp = bn_cmp_lem r.0 m hr hm len in
    let p = (2 ^ 32) ^ length m in
    let small : value m < p = value-lt m hm in
    let sub = sub_limbs_lem r.0 m 0 hr hm len (omega arith) in
    let size : (sub_limbs r.0 m 0).1 * (2 ^ 32) ^ length r.0 ≡ (sub_limbs r.0 m 0).1 * p =
      ap (λ n. (sub_limbs r.0 m 0).1 * (2 ^ 32) ^ n) len in
    let fits : value (sub_limbs r.0 m 0).0 < p =
      rw (sub.2 ∙ len) at (value-lt (sub_limbs r.0 m 0).0 sub.1) in
    rw cmp (
      if-holds (λ l. IsReduced l m (total r (length m)))
        (not (r.1 == 0) || at_least_zero (order (value r.0) (value m)))
        (λ yes.
          let ge : value m ≤ total r (length m) = elim ((decided r.1 (value r.0) (value m)).0 yes) [
            | inl c ↦ let one : r.1 ≡ 1 = omega arith in omega (arith, ap (λ (t : ℕ). t * p) one)
            | inr v ↦ omega (arith, v)
          ] in
          (
            sub_total r.1 (sub_limbs r.0 m 0).1 (value r.0) (value m) p _ le sub.3 fits small ge lt
                  (omega (arith, sub.0, size))
                ∙ sym (mod_once (total r (length m)) (value m) ge lt),
            sub.1,
            sub.2 ∙ len,
          ))
        (λ no.
          let d = (decided r.1 (value r.0) (value m)).1 no in
          let all : total r (length m) ≡ value r.0 = omega (arith, ap (λ (t : ℕ). t * p) d.0) in
          (rw all (sym (mod-eq_of_lt d.1)), hr, len)))

shift_limbs_lem :
    (r : List ℕ) (carry : ℕ)
    → AllLimbs r
    → carry ≤ 1
    → (total (shift_limbs r carry) (length r) ≡ 2 * value r + carry)
      × AllLimbs (shift_limbs r carry).0
      × (length (shift_limbs r carry).0 ≡ length r)
      × ((shift_limbs r carry).1 ≤ 1)
unfolding shift_limbs value
shift_limbs_lem [] carry hr le = (omega arith, tt, refl, le)
shift_limbs_lem (r ∷ rs) carry hr le =
    let or : bit_or (r * 2 % 2 ^ 32) carry ≡ r % 2 ^ 31 * 2 + carry =
      ap (λ t. bit_or t carry) {x = r * 2 % 2 ^ 32} {y = r % 2 ^ 31 * 2 ^ 1} (omega arith)
      ∙ bit_or-low 1 (r % 2 ^ 31) carry (omega arith) in
    let rest = shift_limbs_lem rs (r / 2 ^ 31) hr.1 (omega arith) in
    (
      omega (arith, rest.0, or, carried (shift_limbs rs (r / 2 ^ 31)).1 (length rs)),
      (omega (arith, or), rest.1),
      ap suc rest.2,
      rest.3,
    )

shift_in_lem :
    (r : List ℕ) (bit : ℕ)
    → AllLimbs r
    → bit ≤ 1
    → 0 < length r
    → (total (shift_in r bit) (length r) ≡ 2 * value r + bit)
      × AllLimbs (shift_in r bit).0
      × (length (shift_in r bit).0 ≡ length r)
      × ((shift_in r bit).1 ≤ 1)
unfolding shift_in shift_limbs value
shift_in_lem [] bit hr le h = absurd (omega arith)
shift_in_lem (r ∷ rs) bit hr le h =
    let shifted = shift_limbs_lem (r ∷ rs) 0 hr (omega arith) in
    let rest = shift_limbs rs (r / 2 ^ 31) in
    let low : bit_or (r * 2 % 2 ^ 32) 0 ≡ r % 2 ^ 31 * 2 ^ 1 =
      ap (λ t. bit_or t 0) {x = r * 2 % 2 ^ 32} {y = r % 2 ^ 31 * 2 ^ 1} (omega arith)
      ∙ bit_or-low 1 (r % 2 ^ 31) 0 (omega arith)
      ∙ omega arith in
    let or : bit_or (bit_or (r * 2 % 2 ^ 32) 0) bit ≡ r % 2 ^ 31 * 2 ^ 1 + bit =
      ap (λ t. bit_or t bit) low ∙ bit_or-low 1 (r % 2 ^ 31) bit (omega arith) in
    (omega (arith, shifted.0, low, or), (omega (arith, or), shifted.1.1), shifted.2, shifted.3)

-- The bits of a number before and after bit `bit` joined them.
pub next_bit : (p bit : ℕ) → p / 2 ^ bit ≡ 2 * (p / 2 ^ suc bit) + p / 2 ^ bit % 2
next_bit p bit =
    let half : p / 2 ^ suc bit ≡ p / 2 ^ bit / 2 =
      ap (λ t. p / t) (pow-suc 2 bit) ∙ sym (div-div-eq-div-mul p (2 ^ bit) 2) in
    omega (arith, half)

double_mod : (q b m : ℕ) → (2 * (q % m) + b) % m ≡ (2 * q + b) % m
double_mod q b m = sym (
    ap (λ t. t % m) {x = 2 * q + b} {y = 2 * (q % m) + b + m * (2 * (q / m))}
      (omega (arith, div-add-mod q m))
    ∙ add-mul-mod_self_left (2 * (q % m) + b) m (2 * (q / m)))

pub limbs_lem : (m : List ℕ) → 0 < value m → 0 < length m
unfolding value
limbs_lem [] h = absurd (omega arith)
limbs_lem (x ∷ xs) h = omega arith

pub power_mul : (b i j : ℕ) → b ^ (j * i) ≡ (b ^ i) ^ j
power_mul b i zero =
    ap (λ k. b ^ k) {x = 0 * i} {y = 0} (omega arith) ∙ pow-zero b ∙ sym (pow-zero (b ^ i))
power_mul b i (suc j) =
    ap (λ k. b ^ k) {x = suc j * i} {y = j * i + i} (omega arith)
    ∙ power_add b (j * i) i
    ∙ ap (λ t. t * b ^ i) (power_mul b i j)
    ∙ sym (pow-suc (b ^ i) j)

pub bits_lem : (a : List ℕ) → AllLimbs a → value a < 2 ^ (length a * 32)
bits_lem a h = rw (power_mul 2 32 (length a)) (value-lt a h)

module _ (prod m : List ℕ) (hp : AllLimbs prod) (hm : AllLimbs m) (some_m : 0 < value m) where
  mod_loop_lem :
      (bit : ℕ) (rem : List ℕ)
      → IsReduced rem m (value prod / 2 ^ bit)
      → IsReduced (mod_loop bit prod m rem) m (value prod)
  unfolding mod_loop
  mod_loop_lem zero rem h = (
    h.0 ∙ ap (λ t. t % value m) {x = value prod / 2 ^ 0} {y = value prod} (omega arith),
    h.1,
    h.2,
  )
  mod_loop_lem (suc bit) rem h =
      let p = value prod in
      let b = bn_bit prod bit in
      let digit : b ≡ p / 2 ^ bit % 2 = bn_bit_lem prod bit hp in
      let q = p / 2 ^ suc bit in
      let small = mod-lt q some_m in
      let step = shift_in_lem rem b h.1 (omega arith) (omega (arith, h.2, limbs_lem m some_m)) in
      let doubled : total (shift_in rem b) (length m) ≡ 2 * (q % value m) + b =
        ap (λ n. total (shift_in rem b) n) (sym h.2) ∙ step.0 ∙ ap (λ t. 2 * t + b) h.0 in
      let reduced =
        reduce_once_lem (shift_in rem b) m step.1 hm (step.2 ∙ h.2) step.3
          (omega (arith, doubled)) in
      mod_loop_lem bit (reduce_once (shift_in rem b) m) (
        reduced.0
            ∙ ap (λ t. t % value m) doubled
            ∙ double_mod q b (value m)
            ∙ ap (λ t. t % value m) (omega (arith, next_bit p bit)),
        reduced.1,
        reduced.2,
      )

  pub bn2_mod_lem : IsReduced (bn2_mod prod m) m (value prod)
  unfolding bn2_mod
  bn2_mod_lem =
      let bits = length prod * 32 in
      mod_loop_lem bits (replicate (length m) 0) (
        value-zeros (length m)
            ∙ sym (zero-mod (value m))
            ∙ ap (λ t. t % value m) (sym (div-eq_of_lt (bits_lem prod hp))),
        zeros-AllLimbs (length m),
        length-replicate (length m) 0,
      )

-- The product of two numbers by a modulus that is not 0.
pub bn_mulmod_lem :
    (a b m : List ℕ)
    → AllLimbs a
    → AllLimbs b
    → AllLimbs m
    → 0 < value m
    → IsReduced (bn_mulmod a b m) m (value a * value b)
unfolding bn_mulmod
bn_mulmod_lem a b m ha hb hm some_m =
    let product = bn2_mul_lem a b ha hb in
    let reduced = bn2_mod_lem (bn2_mul a b) m product.1 hm some_m in
    (reduced.0 ∙ ap (λ t. t % value m) product.0, reduced.1, reduced.2)

-- For numbers in as many 32-bit limbs as the modulus, whose sum is below twice the modulus,
-- `bn_addmod` gives the sum reduced by the modulus.
pub bn_addmod_lem :
    (a b m : List ℕ)
    → AllLimbs a
    → AllLimbs b
    → AllLimbs m
    → length a ≡ length m
    → length b ≡ length m
    → value a + value b < value m + value m
    → IsReduced (bn_addmod a b m) m (value a + value b)
unfolding bn_addmod
bn_addmod_lem a b m ha hb hm la lb lt =
    let sum = add_limbs_lem a b 0 ha hb (la ∙ sym lb) (omega arith) in
    let all : total (add_limbs a b 0) (length m) ≡ value a + value b =
      ap (λ n. total (add_limbs a b 0) n) (sym la) ∙ sum.0 ∙ omega arith in
    let reduced =
      reduce_once_lem (add_limbs a b 0) m sum.1 hm (sum.2 ∙ la) sum.3 (omega (arith, all)) in
    (reduced.0 ∙ ap (λ t. t % value m) all, reduced.1, reduced.2)
