-- ===== src/Crypto/Hkdf.antt =====
-- kernel/hkdf.c: HMAC and the key derivation of TLS 1.3, over SHA-256.
use vyro_os.Base.{
  ℕ, zero, suc, ◌+◌, ◌-◌, ◌*◌, ◌/◌, ◌%◌, ◌^◌, Bool, true, false, Option, none, some, List, [], ◌∷◌,
  ◌++◌, length, take, replicate, ltb, ◌==◌, if◌then◌else◌, bit_xor, min,
}
use vyro_os.Crypto.Sha256.{sha256}
pub mod Expand
pub mod Tests

-- every byte of the block `^ pad`
pub xor_pad : ℕ → List ℕ → List ℕ
xor_pad pad [] = []
xor_pad pad (b ∷ bs) = bit_xor b pad ∷ xor_pad pad bs

-- The key in a block of 64 bytes, hashed first where it is longer.
pub key_block : List ℕ → List ℕ
unfolding sha256
key_block key =
    if ltb 64 (length key)
    then sha256 key ++ replicate 32 0
    else key ++ replicate (64 - length key) 0

-- The buffer for the padded key and the message.
abbrev pub hmac_buf : ℕ
hmac_buf = 16 * 1024

unfoldable pub hmac_sha256 : List ℕ → List ℕ → List ℕ
unfolding xor_pad key_block
hmac_sha256 key msg =
    let k = key_block key in
    if ltb hmac_buf ((64 + length msg) % 2 ^ 32)
    then replicate 32 0
    else sha256 (xor_pad 0x5c k ++ sha256 (xor_pad 0x36 k ++ msg))

-- `salt` is none for a null pointer.
pub hkdf_extract : Option (List ℕ) → List ℕ → List ℕ
hkdf_extract none ikm = hmac_sha256 (replicate 32 0) ikm
hkdf_extract (some salt) ikm = hmac_sha256 (if length salt == 0 then replicate 32 0 else salt) ikm

-- What one round of `hkdf_expand` hashes: the block before, unless the 8-bit counter is at most 1.
pub expand_input : List ℕ → List ℕ → ℕ → List ℕ
expand_input prev info counter = (if ltb 1 counter then prev else []) ++ (info ++ (counter ∷ []))

-- The loop of `hkdf_expand`, from `off` bytes on: each round adds at least one byte, so `out_len`
-- rounds are enough.
pub expand_loop : ℕ → List ℕ → List ℕ → List ℕ → ℕ → ℕ → ℕ → List ℕ
unfolding expand_input
expand_loop zero prk info prev counter off out_len = []
expand_loop (suc fuel) prk info prev counter off out_len =
    let t = hmac_sha256 prk (expand_input prev info counter) in
    let want = min (out_len - off) 32 in
    let rest = expand_loop fuel prk info t ((counter + 1) % 256) (off + want) out_len in
    if ltb off out_len then take want t ++ rest else []

unfoldable pub hkdf_expand : List ℕ → List ℕ → ℕ → List ℕ
unfolding expand_loop
hkdf_expand prk info out_len = expand_loop out_len prk info [] 1 0 out_len

-- The text `tls13 ` before every label.
abbrev pub tls13_prefix : List ℕ
tls13_prefix = 116 ∷ 108 ∷ 115 ∷ 49 ∷ 51 ∷ 32 ∷ []

unfoldable pub tls13_info : List ℕ → List ℕ → ℕ → List ℕ
tls13_info label_suffix ctx out_len =
    (out_len / 2 ^ 8 % 256 ∷ out_len % 256 ∷ (6 + length label_suffix) % 256 ∷ [])
    ++ (tls13_prefix ++ (label_suffix ++ (length ctx % 256 ∷ ctx)))

unfoldable pub tls13_hkdf_expand_label : List ℕ → List ℕ → List ℕ → ℕ → List ℕ
unfolding tls13_info
tls13_hkdf_expand_label prk label_suffix ctx out_len =
    hkdf_expand prk (tls13_info label_suffix ctx out_len) out_len

unfoldable pub tls13_derive_secret : List ℕ → List ℕ → List ℕ → List ℕ
tls13_derive_secret prk label_suffix messages =
    tls13_hkdf_expand_label prk label_suffix (sha256 messages) 32
