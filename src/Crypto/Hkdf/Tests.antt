-- ===== src/Crypto/Hkdf/Tests.antt =====
-- The HMAC vector of hkdf_selftest, and the theorems of this part at concrete inputs.
use vyro_os.Base.{ℕ, ◌≡◌, refl, List, [], ◌∷◌, take, replicate, arith}
use vyro_os.Crypto.Sha256.{sha256}
use vyro_os.Crypto.Hkdf.{xor_pad, key_block, hmac_sha256, hkdf_expand}
use vyro_os.Crypto.Hkdf.Expand.{t_blocks, hkdf_expand_lem}

abbrev hi_there : List ℕ
hi_there = 72 ∷ 105 ∷ 32 ∷ 84 ∷ 104 ∷ 101 ∷ 114 ∷ 101 ∷ []

hmac_hi_there : hmac_sha256 (replicate 20 0x0b) hi_there ≡ (
    0xb0 ∷ 0x34 ∷ 0x4c ∷ 0x61 ∷ 0xd8 ∷ 0xdb ∷ 0x38 ∷ 0x53 ∷ 0x5c ∷ 0xa8 ∷ 0xaf ∷ 0xce ∷ 0xaf ∷ 0x0b
    ∷ 0xf1 ∷ 0x2b ∷ 0x88 ∷ 0x1d ∷ 0xc2 ∷ 0x00 ∷ 0xc9 ∷ 0x83 ∷ 0x3d ∷ 0xa7 ∷ 0x26 ∷ 0xe9 ∷ 0x37
    ∷ 0x6c ∷ 0x2e ∷ 0x32 ∷ 0xcf ∷ 0xf7 ∷ [])
unfolding hmac_sha256 key_block xor_pad sha256
hmac_hi_there = refl

abbrev prk : List ℕ
prk = replicate 32 7

abbrev info : List ℕ
info = 0xf0 ∷ 0xf1 ∷ []

hkdf_expand_lem_example : hkdf_expand prk info 42 ≡ take 42 (t_blocks prk info 0 2)
hkdf_expand_lem_example = hkdf_expand_lem prk info 2 42 (omega arith) (omega arith)
