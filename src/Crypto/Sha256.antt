-- ===== src/Crypto/Sha256.antt =====
-- kernel/sha256.c: the hash, block by block. A message is the list of its bytes (`data` in C); its length is
-- below 2 ^ 61, as for any array in memory, so that `total` does not wrap.
use vyro_os.Base.{
  ℕ, zero, suc, ◌+◌, ◌-◌, ◌*◌, ◌/◌, ◌%◌, ◌^◌, Bool, true, false, List, [], ◌∷◌, ◌++◌, length,
  get_or, ltb, ◌==◌, if◌then◌else◌, bit_and, bit_or, bit_xor,
}
pub mod Padding
pub mod Chain
pub mod Tests

abbrev pub k_table : List ℕ
k_table =
    0x428a2f98 ∷ 0x71374491 ∷ 0xb5c0fbcf ∷ 0xe9b5dba5 ∷ 0x3956c25b ∷ 0x59f111f1 ∷ 0x923f82a4
    ∷ 0xab1c5ed5 ∷ 0xd807aa98 ∷ 0x12835b01 ∷ 0x243185be ∷ 0x550c7dc3 ∷ 0x72be5d74 ∷ 0x80deb1fe
    ∷ 0x9bdc06a7 ∷ 0xc19bf174 ∷ 0xe49b69c1 ∷ 0xefbe4786 ∷ 0x0fc19dc6 ∷ 0x240ca1cc ∷ 0x2de92c6f
    ∷ 0x4a7484aa ∷ 0x5cb0a9dc ∷ 0x76f988da ∷ 0x983e5152 ∷ 0xa831c66d ∷ 0xb00327c8 ∷ 0xbf597fc7
    ∷ 0xc6e00bf3 ∷ 0xd5a79147 ∷ 0x06ca6351 ∷ 0x14292967 ∷ 0x27b70a85 ∷ 0x2e1b2138 ∷ 0x4d2c6dfc
    ∷ 0x53380d13 ∷ 0x650a7354 ∷ 0x766a0abb ∷ 0x81c2c92e ∷ 0x92722c85 ∷ 0xa2bfe8a1 ∷ 0xa81a664b
    ∷ 0xc24b8b70 ∷ 0xc76c51a3 ∷ 0xd192e819 ∷ 0xd6990624 ∷ 0xf40e3585 ∷ 0x106aa070 ∷ 0x19a4c116
    ∷ 0x1e376c08 ∷ 0x2748774c ∷ 0x34b0bcb5 ∷ 0x391c0cb3 ∷ 0x4ed8aa4a ∷ 0x5b9cca4f ∷ 0x682e6ff3
    ∷ 0x748f82ee ∷ 0x78a5636f ∷ 0x84c87814 ∷ 0x8cc70208 ∷ 0x90befffa ∷ 0xa4506ceb ∷ 0xbef9a3f7
    ∷ 0xc67178f2 ∷ []

pub rotr : ℕ → ℕ → ℕ
rotr x n = bit_or (x / 2 ^ n) (x * 2 ^ (32 - n) % 2 ^ 32)

-- The eight words, `a` to `h`.
pub record Words : Type 0 where
  pub a : ℕ
  pub b : ℕ
  pub c : ℕ
  pub d : ℕ
  pub e : ℕ
  pub f : ℕ
  pub g : ℕ
  pub h : ℕ

abbrev pub initial : Words
initial = record {
  a = 0x6a09e667;
  b = 0xbb67ae85;
  c = 0x3c6ef372;
  d = 0xa54ff53a;
  e = 0x510e527f;
  f = 0x9b05688c;
  g = 0x1f83d9ab;
  h = 0x5be0cd19;
}

-- `while (total % 64 != 56) total++`, for at most `fuel` steps.
pub pad_loop : ℕ → ℕ → ℕ
pad_loop zero total = total
pad_loop (suc fuel) total =
    let rest = pad_loop fuel (total + 1) in if total % 64 == 56 then total else rest

-- `total` after the loop and `total += 8`
pub padded_length : ℕ → ℕ
unfolding pad_loop
padded_length len = pad_loop 64 (len + 1) + 8

-- The byte that goes to `block[i]`, where `pos = off + i`.
pub padded_byte : List ℕ → ℕ → ℕ → ℕ
padded_byte msg total pos =
    let len = length msg in
    if ltb pos len
    then get_or msg pos 0
    else (if pos == len
        then 0x80
        else (if ltb pos (total - 8)
            then 0
            else len * 8 % 2 ^ 64 / 2 ^ (8 * (total - 1 - pos)) % 256))

-- `n` bytes of the padded message from `pos` on.
pub padded_from : List ℕ → ℕ → ℕ → ℕ → List ℕ
unfolding padded_byte
padded_from msg total zero pos = []
padded_from msg total (suc n) pos = padded_byte msg total pos ∷ padded_from msg total n (suc pos)

-- `w[i]` for `i` below 16: four bytes of the block each.
pub block_words : List ℕ → List ℕ
block_words (p ∷ q ∷ r ∷ s ∷ rest) =
    bit_or (bit_or (bit_or (p * 2 ^ 24 % 2 ^ 32) (q * 2 ^ 16)) (r * 2 ^ 8)) s ∷ block_words rest
block_words _ = []

-- `w[i]` from 16 on, `n` of them, behind the ones there are.
pub schedule : ℕ → List ℕ → List ℕ
unfolding rotr
schedule zero w = w
schedule (suc n) w =
    let i = length w in
    let w15 = get_or w (i - 15) 0 in
    let w2 = get_or w (i - 2) 0 in
    let s0 = bit_xor (bit_xor (rotr w15 7) (rotr w15 18)) (w15 / 2 ^ 3) in
    let s1 = bit_xor (bit_xor (rotr w2 17) (rotr w2 19)) (w2 / 2 ^ 10) in
    schedule n (w ++ ((get_or w (i - 16) 0 + s0 + get_or w (i - 7) 0 + s1) % 2 ^ 32 ∷ []))

pub round : Words → ℕ → ℕ → Words
unfolding rotr
round v k w =
    let s1 = bit_xor (bit_xor (rotr v.e 6) (rotr v.e 11)) (rotr v.e 25) in
    let ch = bit_xor (bit_and v.e v.f) (bit_and (2 ^ 32 - 1 - v.e) v.g) in
    let t1 = (v.h + s1 + ch + k + w) % 2 ^ 32 in
    let s0 = bit_xor (bit_xor (rotr v.a 2) (rotr v.a 13)) (rotr v.a 22) in
    let maj = bit_xor (bit_xor (bit_and v.a v.b) (bit_and v.a v.c)) (bit_and v.b v.c) in
    let t2 = (s0 + maj) % 2 ^ 32 in
    record {
      a = (t1 + t2) % 2 ^ 32;
      b = v.a;
      c = v.b;
      d = v.c;
      e = (v.d + t1) % 2 ^ 32;
      f = v.e;
      g = v.f;
      h = v.g;
    }

pub rounds : List ℕ → List ℕ → Words → Words
unfolding round
rounds (k ∷ ks) (w ∷ ws) v = rounds ks ws (round v k w)
rounds [] ws v = v
rounds (k ∷ ks) [] v = v

pub compress : Words → List ℕ → Words
unfolding block_words schedule rounds
compress v block =
    let r = rounds k_table (schedule 48 (block_words block)) v in
    record {
      a = (v.a + r.a) % 2 ^ 32;
      b = (v.b + r.b) % 2 ^ 32;
      c = (v.c + r.c) % 2 ^ 32;
      d = (v.d + r.d) % 2 ^ 32;
      e = (v.e + r.e) % 2 ^ 32;
      f = (v.f + r.f) % 2 ^ 32;
      g = (v.g + r.g) % 2 ^ 32;
      h = (v.h + r.h) % 2 ^ 32;
    }

-- The blocks from `off` on, `n` of them.
pub blocks_loop : ℕ → List ℕ → ℕ → ℕ → Words → Words
unfolding padded_from compress
blocks_loop zero msg total off v = v
blocks_loop (suc n) msg total off v =
    blocks_loop n msg total (off + 64) (compress v (padded_from msg total 64 off))

pub word_bytes : ℕ → List ℕ
word_bytes x = x / 2 ^ 24 % 256 ∷ x / 2 ^ 16 % 256 ∷ x / 2 ^ 8 % 256 ∷ x % 256 ∷ []

pub digest : Words → List ℕ
unfolding word_bytes
digest v =
    word_bytes v.a
    ++ word_bytes v.b
    ++ word_bytes v.c
    ++ word_bytes v.d
    ++ word_bytes v.e
    ++ word_bytes v.f
    ++ word_bytes v.g
    ++ word_bytes v.h

unfoldable pub sha256 : List ℕ → List ℕ
unfolding padded_length blocks_loop digest
sha256 msg =
    let total = padded_length (length msg) in digest (blocks_loop (total / 64) msg total 0 initial)

-- `hx[d]`
pub hex_digit : ℕ → ℕ
hex_digit d = if ltb d 10 then 48 + d else 87 + d

-- The text of a digest, without the 0 behind it.
pub sha256_hex : List ℕ → List ℕ
unfolding hex_digit
sha256_hex [] = []
sha256_hex (d ∷ ds) = hex_digit (d / 2 ^ 4) ∷ hex_digit (d % 2 ^ 4) ∷ sha256_hex ds
