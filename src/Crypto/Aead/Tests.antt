-- ===== src/Crypto/Aead/Tests.antt =====
-- The theorems of the authenticated encryption at a short text.
use vyro_os.Base.{
  ℕ, ◌+◌, ◌%◌, ◌∙◌, ◌≡◌, ◌≢◌, refl, ap, none, some, List, [], ◌∷◌, get_or, length, replicate, arith,
}
use vyro_os.Base.Bytes.{AllBytes}
use vyro_os.Crypto.Poly1305.{poly1305_mac, poly1305_mac-AllBytes}
use vyro_os.Crypto.Aead.{derive_poly_key, mac_input, aead_seal, aead_open}
use vyro_os.Crypto.Aead.Open.{aead_open-seal, aead_open_forged}

abbrev key : List ℕ
key = replicate 32 7

abbrev nonce : List ℕ
nonce = replicate 12 0

abbrev text : List ℕ
text = 104 ∷ 105 ∷ []

aead_open-seal_example :
    let (cipher, tag) = aead_seal key nonce [] text in aead_open key nonce [] cipher tag ≡ some text
aead_open-seal_example =
    aead_open-seal key nonce [] text (omega arith, (omega arith, tt)) (omega arith)

-- A tag with its first byte changed.
abbrev changed : List ℕ → List ℕ
changed [] = []
changed (x ∷ xs) = (x + 1) % 256 ∷ xs

changed-AllBytes : (xs : List ℕ) → AllBytes xs → AllBytes (changed xs)
changed-AllBytes [] h = h
changed-AllBytes (x ∷ xs) h = (omega arith, h.1)

length-changed : (xs : List ℕ) → length (changed xs) ≡ length xs
length-changed [] = refl
length-changed (x ∷ xs) = refl

changed_differs : (xs : List ℕ) → AllBytes xs → length xs ≡ 16 → changed xs ≢ xs
changed_differs [] h l e = absurd (omega arith)
changed_differs (x ∷ xs) h l e =
    let e' : (x + 1) % 256 ≡ x = ap (λ ys. get_or ys 0 0) e in omega (arith, h.0)

abbrev right_tag : List ℕ
right_tag = poly1305_mac (mac_input [] text) (derive_poly_key key nonce)

right_tag-AllBytes : AllBytes right_tag × (length right_tag ≡ 16)
right_tag-AllBytes = poly1305_mac-AllBytes (mac_input [] text) (derive_poly_key key nonce)

aead_open_forged_example : aead_open key nonce [] text (changed right_tag) ≡ none
aead_open_forged_example =
    aead_open_forged key nonce [] text (changed right_tag)
      (changed-AllBytes right_tag right_tag-AllBytes.0)
      (length-changed right_tag ∙ right_tag-AllBytes.1)
      (changed_differs right_tag right_tag-AllBytes.0 right_tag-AllBytes.1)
