-- ===== src/Crypto/Hkdf/Expand.antt =====
-- What HMAC and `hkdf_expand` compute.
use vyro_os.Base.{
  ℕ, zero, suc, ◌+◌, ◌-◌, ◌*◌, ◌%◌, ◌^◌, ◌≤◌, ◌<◌, ◌≡◌, refl, sym, ap, ap₂, ◌∙◌, inl, inr, true,
  false, List, [], ◌∷◌, ◌++◌, length, take, take_all, replicate, length-append, length-replicate,
  length-take, ltb, lt→ltb, le→ltb, if-holds, min, arith,
}
use vyro_os.Base.Split.{take-append_le, take-append_ge, append_nil}
use vyro_os.Crypto.Bignum.Digits.{within}
use vyro_os.Crypto.Sha256.{sha256}
use vyro_os.Crypto.Sha256.Padding.{sha256-length}
use vyro_os.Crypto.Hkdf.{
  xor_pad, key_block, hmac_buf, hmac_sha256, expand_input, expand_loop, hkdf_expand,
}

length-xor_pad : (pad : ℕ) (k : List ℕ) → length (xor_pad pad k) ≡ length k
unfolding xor_pad
length-xor_pad pad [] = refl
length-xor_pad pad (b ∷ bs) = ap suc (length-xor_pad pad bs)

length-key_block : (key : List ℕ) → length (key_block key) ≡ 64
unfolding key_block
length-key_block key =
    if-holds (λ (r : List ℕ). length r ≡ 64) (ltb 64 (length key))
      (λ yes. length-append (sha256 key) (replicate 32 0) ∙ omega (arith, sha256-length key))
      (λ no.
        length-append key (replicate (64 - length key) 0)
        ∙ ground (arith, length-replicate {A = ℕ} (64 - length key) 0))

-- HMAC as RFC 2104 has it, for a message that fits in the buffer.
pub hmac_sha256_lem :
    (key msg : List ℕ)
    → 64 + length msg ≤ hmac_buf
    → hmac_sha256 key msg
      ≡ sha256 (xor_pad 0x5c (key_block key) ++ sha256 (xor_pad 0x36 (key_block key) ++ msg))
unfolding hmac_sha256
hmac_sha256_lem key msg le =
    let fits : ltb hmac_buf ((64 + length msg) % 2 ^ 32) ≡ false = le→ltb _ _ (omega arith) in
    rw fits refl

pub hmac_sha256-length : (key msg : List ℕ) → length (hmac_sha256 key msg) ≡ 32
unfolding hmac_sha256
hmac_sha256-length key msg =
    if-holds (λ (r : List ℕ). length r ≡ 32) (ltb hmac_buf ((64 + length msg) % 2 ^ 32))
      (λ yes. refl)
      (λ no.
        sha256-length
          (xor_pad 0x5c (key_block key) ++ sha256 (xor_pad 0x36 (key_block key) ++ msg)))

-- T(i) of RFC 5869: T(0) is empty, and each other block is the HMAC of the one before, the info
-- and its own number.
unfoldable pub t_block : List ℕ → List ℕ → ℕ → List ℕ
t_block prk info zero = []
t_block prk info (suc i) = hmac_sha256 prk (t_block prk info i ++ (info ++ (suc i ∷ [])))

-- T(i + 1), …, T(i + n) one after the other.
unfoldable pub t_blocks : List ℕ → List ℕ → ℕ → ℕ → List ℕ
unfolding t_block
t_blocks prk info i zero = []
t_blocks prk info i (suc n) = t_block prk info (suc i) ++ t_blocks prk info (suc i) n

expand_done :
    (fuel : ℕ) (prk info prev : List ℕ) (counter off out_len : ℕ)
    → out_len ≤ off
    → expand_loop fuel prk info prev counter off out_len ≡ []
unfolding expand_loop
expand_done zero prk info prev counter off out_len le = refl
expand_done (suc fuel) prk info prev counter off out_len le = rw (le→ltb off out_len le) refl

module _ (prk info : List ℕ) where
  expand_input_lem :
      (i : ℕ)
      → hmac_sha256 prk (expand_input (t_block prk info i) info (suc i)) ≡ t_block prk info (suc i)
  unfolding expand_input t_block
  expand_input_lem zero = refl
  expand_input_lem (suc i) =
      let later : ltb 1 (suc (suc i)) ≡ true = lt→ltb _ _ (omega arith) in rw later refl

  t_block-length : (i : ℕ) → length (t_block prk info (suc i)) ≡ 32
  unfolding t_block
  t_block-length i = hmac_sha256-length prk (t_block prk info i ++ (info ++ (suc i ∷ [])))

  no_more :
      (fuel i out_len : ℕ) (blocks : List ℕ)
      → out_len ≤ 32 * i
      → expand_loop fuel prk info (t_block prk info i) (suc i) (32 * i) out_len
        ≡ take (out_len - 32 * i) blocks
  no_more fuel i out_len blocks le =
      let none : out_len - 32 * i ≡ 0 = omega arith in
      expand_done fuel prk info (t_block prk info i) (suc i) (32 * i) out_len le
      ∙ ap (λ k. take k blocks) (sym none)

  -- One round that adds bytes.
  round :
      (fuel i out_len : ℕ)
      → 32 * i < out_len
      → expand_loop (suc fuel) prk info (t_block prk info i) (suc i) (32 * i) out_len
        ≡ take (min (out_len - 32 * i) 32) (t_block prk info (suc i))
          ++ expand_loop fuel prk info
              (t_block prk info (suc i))
              ((suc i + 1) % 256)
              (32 * i + min (out_len - 32 * i) 32)
              out_len
  unfolding expand_loop
  round fuel i out_len lt =
      let want = min (out_len - 32 * i) 32 in
      rw (lt→ltb (32 * i) out_len lt) (
        ap
          (λ t.
            take want t ++ expand_loop fuel prk info t ((suc i + 1) % 256) (32 * i + want) out_len)
          (expand_input_lem i))

  expand_loop_lem :
      (n fuel i out_len : ℕ)
      → i + n ≤ 255
      → out_len ≤ 32 * (i + n)
      → out_len ≤ fuel + 32 * i
      → expand_loop fuel prk info (t_block prk info i) (suc i) (32 * i) out_len
        ≡ take (out_len - 32 * i) (t_blocks prk info i n)
  unfolding expand_loop t_blocks
  expand_loop_lem zero fuel i out_len few le enough = no_more fuel i out_len [] (omega arith)
  expand_loop_lem (suc n) zero i out_len few le enough =
      no_more zero i out_len (t_blocks prk info i (suc n)) (omega arith)
  expand_loop_lem (suc n) (suc fuel) i out_len few le enough =
      let t = t_block prk info (suc i) in
      let size = t_block-length i in
      let rest = t_blocks prk info (suc i) n in
      elim (within (suc (32 * i)) out_len) [
        | inl done ↦ no_more (suc fuel) i out_len (t ++ rest) (omega arith)
        | inr more ↦ elim (within (32 * i + 33) out_len) [
          | inl last ↦
              let want : min (out_len - 32 * i) 32 ≡ out_len - 32 * i = omega arith in
              round fuel i out_len (omega arith)
              ∙ rw want (
                  ap (λ r. take (out_len - 32 * i) t ++ r)
                    (expand_done fuel prk info t ((suc i + 1) % 256) (32 * i + (out_len - 32 * i))
                      out_len (omega arith))
                  ∙ append_nil (take (out_len - 32 * i) t)
                  ∙ sym (take-append_le (out_len - 32 * i) t rest (omega arith)))
          | inr full ↦
              let want : min (out_len - 32 * i) 32 ≡ 32 = omega arith in
              let count : (suc i + 1) % 256 ≡ suc (suc i) = omega arith in
              let off : 32 * i + 32 ≡ 32 * suc i = omega arith in
              round fuel i out_len (omega arith)
              ∙ rw (want, count, off)
                  (ap₂ (λ x y. x ++ y) (ap (λ k. take k t) (sym size) ∙ take_all t)
                      (expand_loop_lem n fuel (suc i) out_len (omega arith) (omega arith)
                          (omega arith)
                        ∙ ap (λ k. take k rest) {x = out_len - 32 * suc i}
                            {y = out_len - 32 * i - length t} (omega arith))
                    ∙ sym (take-append_ge (out_len - 32 * i) t rest (omega arith)))
        ]
      ]

-- For at most 255 blocks, `hkdf_expand` gives the first `out_len` bytes of the blocks T(1), T(2), …
-- of RFC 5869 one after the other.
pub hkdf_expand_lem :
    (prk info : List ℕ) (n out_len : ℕ)
    → n ≤ 255
    → out_len ≤ 32 * n
    → hkdf_expand prk info out_len ≡ take out_len (t_blocks prk info 0 n)
unfolding hkdf_expand t_block
hkdf_expand_lem prk info n out_len few le =
    expand_loop_lem prk info n out_len 0 out_len (omega arith) (omega arith) (omega arith)
    ∙ ap (λ k. take k (t_blocks prk info 0 n)) {x = out_len - 32 * 0} {y = out_len} (omega arith)

length-t_blocks : (prk info : List ℕ) (i n : ℕ) → length (t_blocks prk info i n) ≡ 32 * n
unfolding t_blocks
length-t_blocks prk info i zero = refl
length-t_blocks prk info i (suc n) =
    length-append (t_block prk info (suc i)) (t_blocks prk info (suc i) n)
    ∙ omega (arith, t_block-length prk info i, length-t_blocks prk info (suc i) n)

pub hkdf_expand-length :
    (prk info : List ℕ) (out_len : ℕ)
    → out_len ≤ 8160
    → length (hkdf_expand prk info out_len) ≡ out_len
hkdf_expand-length prk info out_len le =
    ap length (hkdf_expand_lem prk info 255 out_len (omega arith) (omega arith))
    ∙ length-take out_len (t_blocks prk info 0 255)
    ∙ omega (arith, length-t_blocks prk info 0 255)
