-- ===== src/Crypto/Chacha20.antt =====
-- kernel/chacha20.c: the block function on sixteen 32-bit words, and the stream cipher.
pub mod Stream
pub mod Tests
use vyro_os.Base.{
  ℕ, zero, suc, ◌+◌, ◌-◌, ◌*◌, ◌/◌, ◌%◌, ◌^◌, List, [], ◌∷◌, ◌++◌, length, get_or, set, drop,
  bit_or, bit_xor,
}
use vyro_os.Base.Bytes.{little_endian}

pub rotl32 : ℕ → ℕ → ℕ
rotl32 x n = bit_or (x * 2 ^ n % 2 ^ 32) (x / 2 ^ (32 - n))

pub load32_le : List ℕ → ℕ
load32_le p = little_endian 4 p

pub store32_le : ℕ → List ℕ
store32_le v = v % 256 ∷ v / 2 ^ 8 % 256 ∷ v / 2 ^ 16 % 256 ∷ v / 2 ^ 24 % 256 ∷ []

-- One line of `QR`: `x += y; z ^= x; z = rotl32(z, n);`
pub quarter_step : List ℕ → ℕ → ℕ → ℕ → ℕ → List ℕ
unfolding rotl32
quarter_step w x y z n =
    let w' = set w x ((get_or w x 0 + get_or w y 0) % 2 ^ 32) in
    set w' z (rotl32 (bit_xor (get_or w' z 0) (get_or w' x 0)) n)

-- `QR`
pub quarter_round : List ℕ → ℕ → ℕ → ℕ → ℕ → List ℕ
unfolding quarter_step
quarter_round w a b c d =
    quarter_step (quarter_step (quarter_step (quarter_step w a b d 16) c d b 12) a b d 8) c d b 7

-- The body of the loop over `r`.
pub double_round : List ℕ → List ℕ
unfolding quarter_round
double_round w0 =
    let w1 = quarter_round w0 0 4 8 12 in
    let w2 = quarter_round w1 1 5 9 13 in
    let w3 = quarter_round w2 2 6 10 14 in
    let w4 = quarter_round w3 3 7 11 15 in
    let w5 = quarter_round w4 0 5 10 15 in
    let w6 = quarter_round w5 1 6 11 12 in
    let w7 = quarter_round w6 2 7 8 13 in quarter_round w7 3 4 9 14

pub rounds : ℕ → List ℕ → List ℕ
unfolding double_round
rounds zero w = w
rounds (suc n) w = rounds n (double_round w)

-- `load32_le(p + i * 4)` for `n` words
pub load_words : ℕ → List ℕ → List ℕ
unfolding load32_le
load_words zero p = []
load_words (suc n) p = load32_le p ∷ load_words n (drop 4 p)

-- the array `s`
pub initial_state : List ℕ → ℕ → List ℕ → List ℕ
unfolding load_words
initial_state key counter nonce =
    (0x61707865 ∷ 0x3320646e ∷ 0x79622d32 ∷ 0x6b206574 ∷ [])
    ++ (load_words 8 key ++ (counter ∷ load_words 3 nonce))

-- The last loop, over the words of `w` and of `s`.
pub add_words : List ℕ → List ℕ → List ℕ
unfolding store32_le
add_words [] s = []
add_words (x ∷ w) [] = []
add_words (x ∷ w) (y ∷ s) = store32_le ((x + y) % 2 ^ 32) ++ add_words w s

pub chacha20_block : List ℕ → ℕ → List ℕ → List ℕ
unfolding initial_state rounds add_words
chacha20_block key counter nonce =
    add_words (rounds 10 (initial_state key counter nonce)) (initial_state key counter nonce)

-- `for (i = 0; i < n; i++) out[i] = in[i] ^ block[i];` over the bytes that both have
pub xor_bytes : List ℕ → List ℕ → List ℕ
xor_bytes [] block = []
xor_bytes (c ∷ cs) [] = []
xor_bytes (c ∷ cs) (b ∷ bs) = bit_xor c b ∷ xor_bytes cs bs

-- The loop of `chacha20_xor` for `n` rounds at most; a round takes up to 64 bytes.
pub xor_loop : ℕ → List ℕ → ℕ → List ℕ → List ℕ → List ℕ
unfolding xor_bytes chacha20_block
xor_loop zero key counter nonce data' = []
xor_loop (suc n) key counter nonce [] = []
xor_loop (suc n) key counter nonce (c ∷ cs) =
    xor_bytes (c ∷ cs) (chacha20_block key counter nonce)
    ++ xor_loop n key ((counter + 1) % 2 ^ 32) nonce (drop 64 (c ∷ cs))

-- `chacha20_xor`: each round takes a byte or more, so there are no more rounds than bytes.
pub chacha20_xor : List ℕ → ℕ → List ℕ → List ℕ → List ℕ
unfolding xor_loop
chacha20_xor key counter_start nonce data' = xor_loop (length data') key counter_start nonce data'
