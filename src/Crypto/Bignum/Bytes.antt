-- ===== src/Crypto/Bignum/Bytes.antt =====
-- Numbers from bytes and back, the highest byte first.
use vyro_os.Base.{
  ℕ, zero, suc, ◌+◌, ◌*◌, ◌/◌, ◌%◌, ◌^◌, ◌≤◌, ◌<◌, ◌≡◌, refl, sym, ap, ap₂, ◌∙◌, inl, inr, List, [],
  ◌∷◌, ◌++◌, length, get_or, set, take, replicate, length-set, length-replicate, bit_or, ltb,
  lt→ltb, true, arith,
}
use vyro_os.Base.Bytes.{AllBytes, AllBytes-get_or}
use vyro_os.Base.Digits.{bit_or-high}
use native.Mathlib.Nat.{pow-suc, div-div-eq-div-mul, mod-eq_of_lt, mul-le-mul, le_refl}
use vyro_os.Crypto.Bignum.{from_be_loop, bn_from_be, bn_to_be}
use vyro_os.Crypto.Bignum.Value.{AllLimbs, value, value-zeros, zeros-AllLimbs}
use vyro_os.Crypto.Bignum.Digits.{digit_lem, power_add, within}
use vyro_os.Crypto.Bignum.Reduce.{power_mul}

-- The number in the first `n` bytes, the highest first.
unfoldable pub big_endian : List ℕ → ℕ → ℕ
big_endian be zero = 0
big_endian be (suc n) = big_endian be n * 256 + get_or be n 0

-- The lowest `n` bytes of a number, the highest first.
unfoldable pub octets : ℕ → ℕ → List ℕ
octets zero v = []
octets (suc n) v = v / 256 ^ n % 256 ∷ octets n v

pub length-octets : (n v : ℕ) → length (octets n v) ≡ n
unfolding octets
length-octets zero v = refl
length-octets (suc n) v = ap suc (length-octets n v)

pub octets-AllBytes : (n v : ℕ) → AllBytes (octets n v)
unfolding octets
octets-AllBytes zero v = tt
octets-AllBytes (suc n) v = (omega arith, octets-AllBytes n v)

pub bn_to_be_lem : (n : ℕ) (a : List ℕ) → AllLimbs a → bn_to_be n a ≡ octets n (value a)
unfolding bn_to_be octets
bn_to_be_lem zero a ha = refl
bn_to_be_lem (suc n) a ha =
    ap₂ (λ b bs. b ∷ bs)
      (ap (λ t. get_or a (n / 4) 0 / t % 256) (power_mul 2 8 (n % 4))
        ∙ digit_lem 256 4 (omega arith) refl a n (omega arith) ha)
      (bn_to_be_lem n a ha)

-- `r[limb] |= byte << shift`
abbrev put_byte : List ℕ → ℕ → ℕ → List ℕ
put_byte r i b = set r (i / 4) (bit_or (get_or r (i / 4) 0) (b * 2 ^ (i % 4 * 8) % 2 ^ 32))

put_shift :
    (s x b : ℕ) → x < 2 ^ s → b * 2 ^ s < 2 ^ 32 → bit_or x (b * 2 ^ s % 2 ^ 32) ≡ b * 2 ^ s + x
put_shift s x b hx lt = ap (λ t. bit_or x t) (mod-eq_of_lt lt) ∙ bit_or-high s b x hx

put_first :
    (i x b : ℕ)
    → i < 4
    → x < 256 ^ i
    → b < 256
    → (bit_or x (b * 2 ^ (i * 8) % 2 ^ 32) ≡ b * 256 ^ i + x) × (b * 256 ^ i + x < 2 ^ 32)
put_first zero x b h hx hb = (put_shift 0 x b hx (omega arith) ∙ omega arith, omega arith)
put_first (suc zero) x b h hx hb = (put_shift 8 x b hx (omega arith) ∙ omega arith, omega arith)
put_first (suc (suc zero)) x b h hx hb =
    (put_shift 16 x b hx (omega arith) ∙ omega arith, omega arith)
put_first (suc (suc (suc zero))) x b h hx hb =
    (put_shift 24 x b hx (omega arith) ∙ omega arith, omega arith)
put_first (suc (suc (suc (suc i)))) x b h hx hb = absurd (omega arith)

put_byte_lem :
    (r : List ℕ) (i b : ℕ)
    → AllLimbs r
    → value r < 256 ^ i
    → i < 4 * length r
    → b < 256
    → (value (put_byte r i b) ≡ value r + b * 256 ^ i) × AllLimbs (put_byte r i b)
unfolding value
put_byte_lem [] i b hr hv hi hb = absurd (omega arith)
put_byte_lem (x ∷ xs) i b hr hv hi hb = elim (within 4 i) [
  | inl lt ↦
      let quot : i / 4 ≡ 0 = omega arith in
      let rem : i % 4 ≡ i = omega arith in
      let first = put_first i x b lt (omega arith) hb in
      rw (quot, rem) (omega (arith, first.0), (omega (arith, first.0, first.1), hr.1))
  | inr ge ↦
      let j = ge.0 in
      let quot : (4 + j) / 4 ≡ suc (j / 4) = omega arith in
      let rem : (4 + j) % 4 ≡ j % 4 = omega arith in
      let split = power_add 256 4 j in
      let i_eq = ge.1 in
      let below : x + 2 ^ 32 * value xs < 256 ^ (4 + j) = rw i_eq at hv in
      let rest = put_byte_lem xs j b hr.1 (omega (arith, below, split)) (omega (arith, i_eq)) hb in
      rw (i_eq, quot, rem) (omega (arith, rest.0, ap (λ (t : ℕ). b * t) split), (hr.0, rest.1))
]

from_be_loop_lem :
    (be : List ℕ) (k i : ℕ) (r : List ℕ)
    → AllBytes be
    → AllLimbs r
    → value r < 256 ^ i
    → i + k ≤ 4 * length r
    → (value (from_be_loop be k i r) ≡ value r + big_endian be k * 256 ^ i)
      × AllLimbs (from_be_loop be k i r)
      × (length (from_be_loop be k i r) ≡ length r)
unfolding from_be_loop big_endian
from_be_loop_lem be zero i r hb hr hv le = (omega arith, hr, refl)
from_be_loop_lem be (suc k) i r hb hr hv le =
    let b = get_or be k 0 in
    let byte = AllBytes-get_or be k hb in
    let top : b ≤ 255 = omega arith in
    let inside : ltb (i / 4) (length r) ≡ true = lt→ltb _ _ (omega arith) in
    let put = put_byte_lem r i b hr hv (omega arith) byte in
    let size = length-set r (i / 4) (bit_or (get_or r (i / 4) 0) (b * 2 ^ (i % 4 * 8) % 2 ^ 32)) in
    let next =
      from_be_loop_lem be k (suc i) (put_byte r i b) hb put.1
        (omega (arith, put.0, pow-suc 256 i, mul-le-mul top (le_refl (256 ^ i))))
        (omega (arith, size)) in
    rw inside (
      next.0 ∙ omega (arith, put.0, ap (λ (t : ℕ). big_endian be k * t) (pow-suc 256 i)),
      next.1,
      next.2 ∙ size,
    )

-- `bn_from_be` reads the number that the bytes spell, where it has the limbs for them.
pub bn_from_be_lem :
    (limbs : ℕ) (be : List ℕ) (len : ℕ)
    → AllBytes be
    → len ≤ 4 * limbs
    → (value (bn_from_be limbs be len) ≡ big_endian be len)
      × AllLimbs (bn_from_be limbs be len)
      × (length (bn_from_be limbs be len) ≡ limbs)
unfolding bn_from_be
bn_from_be_lem limbs be len hb le =
    let zeros = replicate limbs 0 in
    let size : length zeros ≡ limbs = length-replicate limbs 0 in
    let none = value-zeros limbs in
    let all =
      from_be_loop_lem be len 0 zeros hb (zeros-AllLimbs limbs) (omega (arith, none))
        (omega (arith, size)) in
    (omega (arith, all.0, none), all.1, all.2 ∙ size)

-- One more byte behind a number.
octets-snoc : (n v b : ℕ) → b < 256 → octets (suc n) (v * 256 + b) ≡ octets n v ++ (b ∷ [])
unfolding octets
octets-snoc zero v b hb = ap (λ x. x ∷ []) (omega arith)
octets-snoc (suc n) v b hb =
    let w = v * 256 + b in
    ap₂ (λ x xs. x ∷ xs)
      (ap (λ t. w / t % 256) {x = 256 ^ suc n} {y = 256 * 256 ^ n} (omega (arith, pow-suc 256 n))
        ∙ ap (λ t. t % 256) (sym (div-div-eq-div-mul w 256 (256 ^ n)))
        ∙ ap (λ t. t / 256 ^ n % 256) {x = w / 256} {y = v} (omega arith))
      (octets-snoc n v b hb)

take-snoc :
    (n : ℕ) (xs : List ℕ) → n < length xs → take (suc n) xs ≡ take n xs ++ (get_or xs n 0 ∷ [])
take-snoc n [] h = absurd (omega arith)
take-snoc zero (x ∷ xs) h = refl
take-snoc (suc n) (x ∷ xs) h = ap (λ r. x ∷ r) (take-snoc n xs (omega arith))

octets-big_endian :
    (n : ℕ) (be : List ℕ) → AllBytes be → n ≤ length be → octets n (big_endian be n) ≡ take n be
unfolding octets big_endian
octets-big_endian zero be hb le = refl
octets-big_endian (suc n) be hb le =
    octets-snoc n (big_endian be n) (get_or be n 0) (AllBytes-get_or be n hb)
    ∙ ap (λ l. l ++ (get_or be n 0 ∷ [])) (octets-big_endian n be hb (omega arith))
    ∙ sym (take-snoc n be (omega arith))

-- Of a number that was read from `len` bytes, where the limbs have room for them, `bn_to_be` writes
-- those bytes.
pub bn_to_be-from_be :
    (limbs len : ℕ) (be : List ℕ)
    → AllBytes be
    → len ≤ 4 * limbs
    → len ≤ length be
    → bn_to_be len (bn_from_be limbs be len) ≡ take len be
bn_to_be-from_be limbs len be hb fit le =
    let read = bn_from_be_lem limbs be len hb fit in
    bn_to_be_lem len (bn_from_be limbs be len) read.1
    ∙ ap (λ v. octets len v) read.0
    ∙ octets-big_endian len be hb le
