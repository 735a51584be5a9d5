-- ===== src/Crypto/Sha256/Chain.antt =====
-- The hash is the compression function folded over the blocks of the padded message.
use vyro_os.Base.{
  ℕ, zero, suc, ◌+◌, ◌*◌, ◌/◌, ◌≡◌, refl, sym, ap, ap₂, ◌∙◌, List, ◌++◌, length, take, drop, arith,
}
use vyro_os.Base.Split.{take-append, drop-append}
use vyro_os.Crypto.Sha256.{
  padded_length, padded_from, compress, blocks_loop, digest, initial, sha256, Words,
}
use vyro_os.Crypto.Sha256.Padding.{
  padded, padded_from-padded, padded_from-append, padded_length_lem,
}

-- `n` blocks of 64 bytes, each compressed into the words.
unfoldable pub hash_blocks : ℕ → List ℕ → Words → Words
hash_blocks zero bytes v = v
hash_blocks (suc n) bytes v = hash_blocks n (drop 64 bytes) (compress v (take 64 bytes))

length-padded_from : (msg : List ℕ) (total n pos : ℕ) → length (padded_from msg total n pos) ≡ n
unfolding padded_from
length-padded_from msg total zero pos = refl
length-padded_from msg total (suc n) pos = ap suc (length-padded_from msg total n (suc pos))

blocks_loop_lem :
    (n : ℕ) (msg : List ℕ) (total off : ℕ) (v : Words)
    → blocks_loop n msg total off v ≡ hash_blocks n (padded_from msg total (n * 64) off) v
unfolding blocks_loop hash_blocks
blocks_loop_lem zero msg total off v = refl
blocks_loop_lem (suc n) msg total off v =
    let block = padded_from msg total 64 off in
    let rest = padded_from msg total (n * 64) (off + 64) in
    let size : length block ≡ 64 = length-padded_from msg total 64 off in
    let split : padded_from msg total (suc n * 64) off ≡ block ++ rest =
      ap (λ k. padded_from msg total k off) {x = suc n * 64} {y = 64 + n * 64} (omega arith)
      ∙ padded_from-append msg total 64 (n * 64) off in
    blocks_loop_lem n msg total (off + 64) (compress v block)
    ∙ sym (
        ap (λ l. hash_blocks n (drop 64 l) (compress v (take 64 l))) split
        ∙ ap₂ (λ d t. hash_blocks n d (compress v t)) (drop-append 64 block rest size)
            (take-append 64 block rest size))

-- `sha256` compresses, in order, the 64-byte blocks of the message with 0x80, zeros and its length
-- in bits behind it, and gives the words as 32 bytes.
pub sha256_lem :
    (msg : List ℕ)
    → sha256 msg ≡ digest (hash_blocks (padded_length (length msg) / 64) (padded msg) initial)
unfolding sha256
sha256_lem msg =
    let total = padded_length (length msg) in
    let size = padded_length_lem (length msg) in
    ap digest (
      blocks_loop_lem (total / 64) msg total 0 initial
      ∙ ap (λ bytes. hash_blocks (total / 64) bytes initial)
          (ap (λ n. padded_from msg total n 0) {x = total / 64 * 64} {y = total} (omega arith)
            ∙ padded_from-padded msg))
