-- ===== src/Crypto/Sha256/Tests.antt =====
-- The published digests.
use vyro_os.Base.{ℕ, ◌/◌, ◌≡◌, refl, List, [], ◌∷◌, length}
use vyro_os.Crypto.Sha256.{padded_length, digest, initial, sha256}
use vyro_os.Crypto.Sha256.Padding.{padded}
use vyro_os.Crypto.Sha256.Chain.{hash_blocks, sha256_lem}

abbrev abc : List ℕ
abc = 97 ∷ 98 ∷ 99 ∷ []

sha256-abc : sha256 abc ≡ (
    0xba ∷ 0x78 ∷ 0x16 ∷ 0xbf ∷ 0x8f ∷ 0x01 ∷ 0xcf ∷ 0xea ∷ 0x41 ∷ 0x41 ∷ 0x40 ∷ 0xde ∷ 0x5d ∷ 0xae
    ∷ 0x22 ∷ 0x23 ∷ 0xb0 ∷ 0x03 ∷ 0x61 ∷ 0xa3 ∷ 0x96 ∷ 0x17 ∷ 0x7a ∷ 0x9c ∷ 0xb4 ∷ 0x10 ∷ 0xff
    ∷ 0x61 ∷ 0xf2 ∷ 0x00 ∷ 0x15 ∷ 0xad ∷ [])
unfolding sha256
sha256-abc = refl

sha256_lem_example :
    sha256 abc ≡ digest (hash_blocks (padded_length (length abc) / 64) (padded abc) initial)
sha256_lem_example = sha256_lem abc
