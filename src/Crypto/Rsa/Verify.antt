-- ===== src/Crypto/Rsa/Verify.antt =====
-- The signature check against arithmetic: the power of the signature by the modulus, in bytes.
use vyro_os.Base.{
  ℕ, ◌*◌, ◌^◌, ◌%◌, ◌≤◌, ◌<◌, ◌≡◌, sym, ap, ap₂, ◌∙◌, true, false, ◌||◌, not, List, length, ltb,
  le→ltb, ◌==◌, ==_iff, arith,
}
use vyro_os.Base.Bytes.{AllBytes}
use vyro_os.Crypto.Bignum.{bn_from_be, bn_to_be, bn_cmp, bn_modexp, at_least_zero}
use vyro_os.Crypto.Bignum.Value.{value, order, bn_cmp_lem}
use vyro_os.Crypto.Bignum.Power.{bn_modexp_lem}
use vyro_os.Crypto.Bignum.Bytes.{
  big_endian, octets, length-octets, octets-AllBytes, bn_from_be_lem, bn_to_be_lem,
}
use vyro_os.Crypto.Rsa.{check_encoding, rsa_pkcs1_v15_sha256_verify}
use vyro_os.Crypto.Rsa.Encoding.{encoding, encoding_lem, passed, from_not, neither, ltb-false}

order-lt : (x y : ℕ) → x < y → at_least_zero (order x y) ≡ false
order-lt x y h = ground arith

-- What is left to check when the sizes are right: the power of the signature, in bytes.
module _ (limbs : ℕ) (n e sig msg : List ℕ) (hn : AllBytes n) (he : AllBytes e) (hs : AllBytes sig)
    (fit : length n ≤ 4 * limbs) (fit_e : length e ≤ 4 * limbs) (same : length sig ≡ length n)
    (big : 1 < big_endian n (length n)) where
  power_bytes :
      bn_to_be (length n) (
        bn_modexp
          (bn_from_be limbs sig (length sig))
          (bn_from_be limbs e (length e))
          (bn_from_be limbs n (length n)))
      ≡ octets
          (length n)
          (big_endian sig (length sig) ^ big_endian e (length e) % big_endian n (length n))
  power_bytes =
      let k = length n in
      let m = bn_from_be limbs n k in
      let x = bn_from_be limbs e (length e) in
      let s = bn_from_be limbs sig (length sig) in
      let rm = bn_from_be_lem limbs n k hn fit in
      let rx = bn_from_be_lem limbs e (length e) he fit_e in
      let rs = bn_from_be_lem limbs sig (length sig) hs (omega arith) in
      let two : 1 < value m = rw rm.0 big in
      let power = bn_modexp_lem s x m rs.1 rx.1 rm.1 two in
      bn_to_be_lem k (bn_modexp s x m) power.1
      ∙ ap (octets k) power.0
      ∙ ap₂ (λ b c. octets k (b % c)) (ap₂ (λ b c. b ^ c) rs.0 rx.0) rm.0

  range_order :
      bn_cmp (bn_from_be limbs sig (length sig)) (bn_from_be limbs n (length n))
      ≡ order (big_endian sig (length sig)) (big_endian n (length n))
  range_order =
      let rm = bn_from_be_lem limbs n (length n) hn fit in
      let rs = bn_from_be_lem limbs sig (length sig) hs (omega arith) in
      bn_cmp_lem (bn_from_be limbs sig (length sig)) (bn_from_be limbs n (length n)) rs.1 rm.1
        (rs.2 ∙ sym rm.2)
      ∙ ap₂ order rs.0 rm.0

  -- For a modulus of at least 2 that fits in the limbs, an exponent that fits, and a signature as
  -- long as the modulus and below it, the result is that of the checks on the bytes of the power of
  -- the signature by the exponent, reduced by the modulus.
  pub rsa_pkcs1_v15_sha256_verify-octets :
      1 ≤ length n
      → big_endian sig (length sig) < big_endian n (length n)
      → rsa_pkcs1_v15_sha256_verify limbs n e sig msg
        ≡ check_encoding
            (octets
              (length n)
              (big_endian sig (length sig) ^ big_endian e (length e) % big_endian n (length n)))
            (length n)
            msg
  unfolding rsa_pkcs1_v15_sha256_verify
  rsa_pkcs1_v15_sha256_verify-octets some_n under =
      let not_empty : (length n == 0) ≡ false = ground arith in
      let right_size : (length sig == length n) ≡ true = (==_iff _ _).1 same in
      let lower = order-lt (big_endian sig (length sig)) (big_endian n (length n)) under in
      rw (not_empty, le→ltb (4 * limbs) (length n) fit, right_size, range_order, lower)
        (ap (λ em. check_encoding em (length n) msg) power_bytes)

below : (x y : ℕ) → at_least_zero (order x y) ≡ false → x < y
below x y h = ground arith

-- For a modulus of at least 2 and an exponent that fits in the limbs: a signature that is accepted
-- is below the modulus, and its power by the exponent, reduced by the modulus, is in bytes the
-- encoding of the SHA-256 digest of the message: 0, 1, bytes 0xFF, 0, the algorithm, the digest.
pub rsa_pkcs1_v15_sha256_verify_lem :
    (limbs : ℕ) (n e sig msg : List ℕ)
    → AllBytes n
    → AllBytes e
    → AllBytes sig
    → length e ≤ 4 * limbs
    → 1 < big_endian n (length n)
    → rsa_pkcs1_v15_sha256_verify limbs n e sig msg ≡ true
    → (big_endian sig (length sig) < big_endian n (length n))
      × (octets
            (length n)
            (big_endian sig (length sig) ^ big_endian e (length e) % big_endian n (length n))
          ≡ encoding (length n) msg)
unfolding rsa_pkcs1_v15_sha256_verify
rsa_pkcs1_v15_sha256_verify_lem limbs n e sig msg hn he hs le big h =
    let k = length n in
    let (size_test, h1) = passed (k == 0 || ltb (4 * limbs) k) _ h in
    let (sig_test, h2) = passed (not (length sig == k)) _ h1 in
    let (range_test, h3) = passed (at_least_zero (bn_cmp _ _)) _ h2 in
    let fits = ltb-false (4 * limbs) k (neither _ _ size_test).1 in
    let same = (==_iff (length sig) k).0 (from_not _ sig_test) in
    let em = power_bytes limbs n e sig msg hn he hs fits le same big in
    let v = big_endian sig (length sig) ^ big_endian e (length e) % big_endian n k in
    let size = length-octets k v in
    (
      below (big_endian sig (length sig)) (big_endian n k) (
          ap at_least_zero (sym (range_order limbs n e sig msg hn he hs fits le same big))
          ∙ range_test),
      encoding_lem (octets k v) msg (octets-AllBytes k v) (
            ap (λ l. check_encoding (octets k v) l msg) size
            ∙ ap (λ l. check_encoding l k msg) (sym em)
            ∙ h3)
          ∙ ap (λ l. encoding l msg) size,
    )
