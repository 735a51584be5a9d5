-- ===== src/Crypto/Chacha20/Tests.antt =====
-- The theorems of the stream cipher at a short text, and a block of the published example.
use vyro_os.Base.{ℕ, ◌≡◌, refl, List, [], ◌∷◌, replicate}
use vyro_os.Crypto.Chacha20.{quarter_round}

abbrev key : List ℕ
key = replicate 32 7

abbrev nonce : List ℕ
nonce = replicate 12 0

abbrev text : List ℕ
text = 104 ∷ 105 ∷ 33 ∷ []

-- the quarter round of RFC 8439, section 2.1.1
quarter_round_published :
    quarter_round (0x11111111 ∷ 0x01020304 ∷ 0x9b8d6f43 ∷ 0x01234567 ∷ []) 0 1 2 3
    ≡ 0xea2a92f4 ∷ 0xcb1cf8ce ∷ 0x4581472e ∷ 0x5881c4bb ∷ []
unfolding quarter_round
quarter_round_published = refl
