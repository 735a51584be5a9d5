-- ===== src/Crypto/Aead.antt =====
-- kernel/aead.c: ChaCha20 and Poly1305 as authenticated encryption.
pub mod Open
pub mod Tests
use vyro_os.Base.{
  ℕ, zero, suc, ◌+◌, ◌-◌, ◌*◌, ◌/◌, ◌%◌, ◌^◌, Bool, true, false, Option, none, some, List, [], ◌∷◌,
  ◌++◌, length, take, replicate, ltb, ◌==◌, if◌then◌else◌, bit_or, bit_xor,
}
use vyro_os.Crypto.Chacha20.{chacha20_block, chacha20_xor, xor_bytes}
use vyro_os.Crypto.Poly1305.{poly1305_mac}

pub derive_poly_key : List ℕ → List ℕ → List ℕ
derive_poly_key key nonce = xor_bytes (take 32 (chacha20_block key 0 nonce)) (replicate 32 0)

-- `put_le64`: the lowest `n` bytes of `v`, for `n` of 8
pub put_le : ℕ → ℕ → List ℕ
put_le zero v = []
put_le (suc n) v = v % 256 ∷ put_le n (v / 256)

-- `while (mp % 16) mac_in[mp++] = 0;`
pub padded : List ℕ → List ℕ
padded xs = xs ++ replicate ((16 - length xs % 16) % 16) 0

-- `sizeof(mac_in)`
abbrev pub mac_in_size : ℕ
mac_in_size = 16384

pub too_long : ℕ → ℕ → Bool
too_long aad_len len = ltb mac_in_size (aad_len + 15 + len + 15 + 16)

-- the bytes of `mac_in` in use
pub mac_input : List ℕ → List ℕ → List ℕ
unfolding padded put_le
mac_input aad cipher =
    padded (padded aad ++ cipher) ++ (put_le 8 (length aad) ++ put_le 8 (length cipher))

-- `aead_seal`: the cipher text and the tag
pub aead_seal : List ℕ → List ℕ → List ℕ → List ℕ → List ℕ × List ℕ
unfolding derive_poly_key mac_input too_long
aead_seal key nonce aad plain =
    let cipher = chacha20_xor key 1 nonce plain in
    (
      cipher,
      (if too_long (length aad) (length plain)
          then replicate 16 0
          else poly1305_mac (mac_input aad cipher) (derive_poly_key key nonce)),
    )

-- `for (i = 0; i < 16; i++) diff |= expected[i] ^ tag[i];`
pub difference : List ℕ → List ℕ → ℕ → ℕ
difference [] tag diff = diff
difference (e ∷ es) [] diff = diff
difference (e ∷ es) (t ∷ ts) diff = difference es ts (bit_or diff (bit_xor e t))

-- `aead_open`: the plain text, or none for the result 0; the tag has 16 bytes
pub aead_open : List ℕ → List ℕ → List ℕ → List ℕ → List ℕ → Option (List ℕ)
unfolding derive_poly_key mac_input too_long difference
aead_open key nonce aad cipher tag =
    if too_long (length aad) (length cipher)
    then none
    else if difference (poly1305_mac (mac_input aad cipher) (derive_poly_key key nonce)) tag 0 == 0
    then some (chacha20_xor key 1 nonce cipher)
    else none
