-- ===== src/Crypto/Sha256/Padding.antt =====
-- The padded message, and the size of the digest.
use vyro_os.Base.{
  ℕ, zero, suc, ◌+◌, ◌-◌, ◌*◌, ◌/◌, ◌%◌, ◌^◌, ◌≤◌, ◌<◌, ◌≡◌, refl, ap, ap₂, ◌∙◌, true, false, List,
  [], ◌∷◌, ◌++◌, length, get_or, take, drop, replicate, take_all, lt→ltb, le→ltb, ◌==◌, ==_refl,
  arith,
}
use vyro_os.Base.Split.{drop-cons}
use vyro_os.Base.Bytes.{AllBytes}
use vyro_os.Crypto.Bignum.Bytes.{octets}
use vyro_os.Crypto.Bignum.Reduce.{power_mul}
use vyro_os.Crypto.Sha256.{
  pad_loop, padded_length, padded_byte, padded_from, word_bytes, digest, sha256,
}

-- The loop stops at the next length that leaves room for 8 bytes, `k` bytes on.
pad_loop_lem :
    (fuel k total : ℕ) → k ≤ fuel → k < 64 → (total + k) % 64 ≡ 56 → pad_loop fuel total ≡ total + k
unfolding pad_loop
pad_loop_lem zero k total le lt h = omega arith
pad_loop_lem (suc fuel) zero total le lt h =
    let here : (total % 64 == 56) ≡ true = ground arith in rw here (omega arith)
pad_loop_lem (suc fuel) (suc k) total le lt h =
    let off : (total % 64 == 56) ≡ false = ground arith in
    rw off (pad_loop_lem fuel k (total + 1) (omega arith) (omega arith) (omega arith) ∙ omega arith)

-- Whole blocks, with room for the bit `1` and the length, and less than one block more.
pub padded_length_lem :
    (len : ℕ)
    → (padded_length len % 64 ≡ 0) × (len + 9 ≤ padded_length len) × (padded_length len < len + 73)
unfolding padded_length
padded_length_lem len =
    let k = (56 + 64 - (len + 1) % 64) % 64 in
    let e = pad_loop_lem 64 k (len + 1) (omega arith) (omega arith) (omega arith) in
    (omega (arith, e), omega (arith, e), omega (arith, e))

module _ (msg : List ℕ) (total : ℕ) where
  pub padded_from-append :
      (m n pos : ℕ)
      → padded_from msg total (m + n) pos
        ≡ padded_from msg total m pos ++ padded_from msg total n (pos + m)
  unfolding padded_from
  padded_from-append zero n pos = ap₂ (λ k p. padded_from msg total k p) (omega arith) (omega arith)
  padded_from-append (suc m) n pos =
      ap (λ k. padded_from msg total k pos) {x = suc m + n} {y = suc (m + n)} (omega arith)
      ∙ ap (λ r. padded_byte msg total pos ∷ r)
          (padded_from-append m n (suc pos)
            ∙ ap (λ p. padded_from msg total m (suc pos) ++ padded_from msg total n p)
                {x = suc pos + m} {y = pos + suc m} (omega arith))

  -- The message itself.
  message_part :
      (n pos : ℕ) → pos + n ≤ length msg → padded_from msg total n pos ≡ take n (drop pos msg)
  unfolding padded_from padded_byte
  message_part zero pos le = refl
  message_part (suc n) pos le =
      rw (lt→ltb pos (length msg) (omega arith), drop-cons pos msg 0 (omega arith))
        (ap (λ r. get_or msg pos 0 ∷ r) (message_part n (suc pos) (omega arith)))

  -- The zeros between.
  zero_part :
      (n pos : ℕ)
      → length msg < pos
      → pos + n ≤ total - 8
      → padded_from msg total n pos ≡ replicate n 0
  unfolding padded_from padded_byte
  zero_part zero pos lt le = refl
  zero_part (suc n) pos lt le =
      let past : (pos == length msg) ≡ false = ground arith in
      rw (le→ltb pos (length msg) (omega arith), past, lt→ltb pos (total - 8) (omega arith))
        (ap (λ r. 0 ∷ r) (zero_part n (suc pos) (omega arith) (omega arith)))

  -- The length in bits.
  length_part :
      (n pos : ℕ)
      → length msg < pos
      → total - 8 ≤ pos
      → pos + n ≡ total
      → padded_from msg total n pos ≡ octets n (length msg * 8 % 2 ^ 64)
  unfolding padded_from padded_byte octets
  length_part zero pos lt le e = refl
  length_part (suc n) pos lt le e =
      let past : (pos == length msg) ≡ false = ground arith in
      let left : total - 1 - pos ≡ n = omega arith in
      let bits = length msg * 8 % 2 ^ 64 in
      let shift : 2 ^ (8 * (total - 1 - pos)) ≡ 256 ^ n =
        ap (λ k. 2 ^ k) {x = 8 * (total - 1 - pos)} {y = n * 8} (omega arith) ∙ power_mul 2 8 n in
      rw (le→ltb pos (length msg) (omega arith), past, le→ltb pos (total - 8) (omega arith))
        (ap₂ (λ b bs. b ∷ bs) (ap (λ t. bits / t % 256) shift)
          (length_part n (suc pos) (omega arith) (omega arith) (omega arith)))

  end_byte : 9 + length msg ≤ total → padded_from msg total 1 (length msg) ≡ 0x80 ∷ []
  unfolding padded_from padded_byte
  end_byte le = rw (le→ltb (length msg) (length msg) (omega arith), ==_refl (length msg)) refl

-- What is hashed: the message, the byte 0x80, zeros, and the length in bits in 8 bytes.
pub padded : List ℕ → List ℕ
padded msg =
    let total = padded_length (length msg) in
    msg
    ++ ((0x80 ∷ []) ++ (replicate (total - 9 - length msg) 0 ++ octets 8 (length msg * 8 % 2 ^ 64)))

pub padded_from-padded :
    (msg : List ℕ)
    → padded_from msg (padded_length (length msg)) (padded_length (length msg)) 0 ≡ padded msg
unfolding padded
padded_from-padded msg =
    let len = length msg in
    let total = padded_length len in
    let size = padded_length_lem len in
    let zeros = total - 9 - len in
    let part = padded_from msg total in
    ap (λ n. part n 0) {x = total} {y = len + (1 + (zeros + 8))} (omega arith)
    ∙ padded_from-append msg total len (1 + (zeros + 8)) 0
    ∙ ap₂ (λ x y. x ++ y) (message_part msg total len 0 (omega arith) ∙ take_all msg)
        (ap (part (1 + (zeros + 8))) {x = 0 + len} {y = len} (omega arith)
          ∙ padded_from-append msg total 1 (zeros + 8) len
          ∙ ap₂ (λ x y. x ++ y) (end_byte msg total (omega arith))
              (padded_from-append msg total zeros 8 (len + 1)
                ∙ ap₂ (λ x y. x ++ y)
                    (zero_part msg total zeros (len + 1) (omega arith) (omega arith))
                    (length_part msg total 8 (len + 1 + zeros) (omega arith) (omega arith)
                      (omega arith))))

pub sha256-length : (msg : List ℕ) → length (sha256 msg) ≡ 32
unfolding sha256 digest word_bytes
sha256-length msg = refl

pub sha256-AllBytes : (msg : List ℕ) → AllBytes (sha256 msg)
unfolding sha256 digest word_bytes
sha256-AllBytes msg = omega arith
