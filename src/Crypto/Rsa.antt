-- ===== src/Crypto/Rsa.antt =====
-- kernel/rsa.c: the check of a PKCS #1 v1.5 signature over SHA-256. The number of limbs is an
-- argument: BN_LIMBS is 64, and rsa4k_pkcs1_v15_sha256_verify of kernel/bignum_4k.c is the same
-- code with 128. The arguments are arrays that are there: a null pointer is refused by the code.
use vyro_os.Base.{
  ℕ, zero, suc, ◌+◌, ◌-◌, ◌*◌, Bool, true, false, ◌||◌, ◌&&◌, not, List, [], ◌∷◌, ◌++◌, length,
  get_or, replicate, ltb, leb, ◌==◌, if◌then◌else◌, bit_or, bit_xor,
}
use vyro_os.Crypto.Bignum.{bn_from_be, bn_to_be, bn_cmp, bn_modexp, at_least_zero}
use vyro_os.Crypto.Sha256.{sha256}
pub mod Encoding
pub mod Verify
pub mod Tests

-- SHA256_DIGEST_PREFIX
abbrev pub digest_prefix : List ℕ
digest_prefix =
    0x30 ∷ 0x31 ∷ 0x30 ∷ 0x0d ∷ 0x06 ∷ 0x09 ∷ 0x60 ∷ 0x86 ∷ 0x48 ∷ 0x01 ∷ 0x65 ∷ 0x03 ∷ 0x04 ∷ 0x02
    ∷ 0x01 ∷ 0x05 ∷ 0x00 ∷ 0x04 ∷ 0x20 ∷ []

-- `while (p < n_len && em[p] == 0xFF) p++`, for at most `fuel` steps
pub skip_padding : ℕ → List ℕ → ℕ → ℕ → ℕ
skip_padding zero em n_len p = p
skip_padding (suc fuel) em n_len p =
    let rest = skip_padding fuel em n_len (p + 1) in
    if ltb p n_len && (get_or em p 0 == 0xFF) then rest else p

-- the comparison with SHA256_DIGEST_PREFIX from `em[p]` on
pub prefix_at : List ℕ → ℕ → List ℕ → Bool
prefix_at em p [] = true
prefix_at em p (x ∷ xs) =
    let rest = prefix_at em (p + 1) xs in if not (get_or em p 0 == x) then false else rest

-- `diff |= em[p + i] ^ h[i]` over the digest
pub diff_from : List ℕ → ℕ → List ℕ → ℕ → ℕ
diff_from em p [] diff = diff
diff_from em p (h ∷ hs) diff = diff_from em (p + 1) hs (bit_or diff (bit_xor (get_or em p 0) h))

-- The checks behind the separator at `p`.
pub check_digest : List ℕ → ℕ → ℕ → List ℕ → Bool
unfolding prefix_at diff_from
check_digest em n_len p msg =
    if not (get_or em p 0 == 0)
    then false
    else (if not (n_len - (p + 1) == 51)
        then false
        else (if not (prefix_at em (p + 1) digest_prefix)
            then false
            else diff_from em (p + 1 + 19) (sha256 msg) 0 == 0))

pub check_encoding : List ℕ → ℕ → List ℕ → Bool
unfolding skip_padding check_digest
check_encoding em n_len msg =
    if ltb n_len 62
    then false
    else (if not (get_or em 0 0 == 0) || not (get_or em 1 0 == 1)
        then false
        else (let p = skip_padding n_len em n_len 2 in
            if ltb p 10 || leb n_len p then false else check_digest em n_len p msg))

unfoldable pub rsa_pkcs1_v15_sha256_verify : ℕ → List ℕ → List ℕ → List ℕ → List ℕ → Bool
unfolding check_encoding
rsa_pkcs1_v15_sha256_verify limbs n e sig msg =
    if (length n == 0) || ltb (4 * limbs) (length n)
    then false
    else (if not (length sig == length n)
        then false
        else (let modulus = bn_from_be limbs n (length n) in
            let exp = bn_from_be limbs e (length e) in
            let s = bn_from_be limbs sig (length sig) in
            if at_least_zero (bn_cmp s modulus)
            then false
            else check_encoding (bn_to_be (length n) (bn_modexp s exp modulus)) (length n) msg))
