-- ===== src/Crypto/Aead/Open.antt =====
-- What `aead_open` accepts: what `aead_seal` made, and no other tag.
use vyro_os.Base.{
  ℕ, ◌+◌, ◌≤◌, ◌<◌, ◌≡◌, ◌≢◌, inl, inr, refl, sym, ap, ap₂, ◌∙◌, true, false, none, some, List, [],
  ◌∷◌, length, arith, ◌==◌, ==_iff, ne→==, ltb, if◌then◌else◌, bit_or, bit_xor, Bool-cases,
}
use vyro_os.Base.Bits.{all_below, all_below-holds}
use vyro_os.Base.Bytes.{AllBytes}
use vyro_os.Crypto.Chacha20.{chacha20_xor}
use vyro_os.Crypto.Chacha20.Stream.{length-chacha20_xor, chacha20_xor_twice}
use vyro_os.Crypto.Poly1305.{poly1305_mac, poly1305_mac-AllBytes}
use vyro_os.Crypto.Aead.{
  derive_poly_key, mac_input, too_long, mac_in_size, aead_seal, difference, aead_open,
}

self_table : all_below 256 (λ a. bit_xor a a == 0) ≡ true
unfolding all_below
self_table = refl

-- `bit_or a b` is 0 only if both are, and `bit_xor a b` only if they are the same.
zero_table :
    all_below 256 (λ a.
      all_below 256 (λ b. (if bit_or a b == 0 then (if a == 0 then b == 0 else false) else true)))
    ≡ true
unfolding all_below
zero_table = refl

same_table :
    all_below 256 (λ a. all_below 256 (λ b. (if bit_xor a b == 0 then a == b else true))) ≡ true
unfolding all_below
same_table = refl

byte_table :
    all_below 256
      (λ a. all_below 256 (λ b. (if ltb (bit_or a b) 256 then ltb (bit_xor a b) 256 else false)))
    ≡ true
unfolding all_below
byte_table = refl

pub or_zero : (a b : ℕ) → a < 256 → b < 256 → bit_or a b ≡ 0 → (a ≡ 0) × (b ≡ 0)
or_zero a b h k e =
    let t = all_below-holds 256 _ b (all_below-holds 256 _ a zero_table h) k in ground (arith, t, e)

pub xor_zero : (a b : ℕ) → a < 256 → b < 256 → bit_xor a b ≡ 0 → a ≡ b
xor_zero a b h k e =
    let t = all_below-holds 256 _ b (all_below-holds 256 _ a same_table h) k in ground (arith, t, e)

pub bytes : (a b : ℕ) → a < 256 → b < 256 → (bit_or a b < 256) × (bit_xor a b < 256)
bytes a b h k =
    let t = all_below-holds 256 _ b (all_below-holds 256 _ a byte_table h) k in ground (arith, t)

difference_same : (t : List ℕ) → AllBytes t → difference t t 0 ≡ 0
unfolding difference
difference_same [] h = refl
difference_same (x ∷ t) h =
    rw ((==_iff (bit_xor x x) 0).0 (all_below-holds 256 _ x self_table h.0)) (difference_same t h.1)

difference_zero :
    (e t : List ℕ) (d : ℕ)
    → AllBytes e
    → AllBytes t
    → d < 256
    → length e ≡ length t
    → difference e t d ≡ 0
    → (d ≡ 0) × (e ≡ t)
unfolding difference
difference_zero [] [] d he ht hd l z = (z, refl)
difference_zero [] (y ∷ t) d he ht hd l z = absurd (omega arith)
difference_zero (x ∷ e) [] d he ht hd l z = absurd (omega arith)
difference_zero (x ∷ e) (y ∷ t) d he ht hd l z =
    let small = (bytes x y he.0 ht.0).1 in
    let (now, rest) =
      difference_zero e t (bit_or d (bit_xor x y)) he.1 ht.1 (bytes d (bit_xor x y) hd small).0
        (omega arith) z in
    let (d0, x0) = or_zero d (bit_xor x y) hd small now in
    (d0, ap₂ ◌∷◌ (xor_zero x y he.0 ht.0 x0) rest)

open_accepted :
    (key nonce aad cipher tag : List ℕ)
    → too_long (length aad) (length cipher) ≡ false
    → difference (poly1305_mac (mac_input aad cipher) (derive_poly_key key nonce)) tag 0 ≡ 0
    → aead_open key nonce aad cipher tag ≡ some (chacha20_xor key 1 nonce cipher)
unfolding aead_open
open_accepted key nonce aad cipher tag fits e = rw (fits, e, aead_open) refl

open_refused :
    (key nonce aad cipher tag : List ℕ)
    → too_long (length aad) (length cipher) ≡ false
    → difference (poly1305_mac (mac_input aad cipher) (derive_poly_key key nonce)) tag 0 ≢ 0
    → aead_open key nonce aad cipher tag ≡ none
unfolding aead_open
open_refused key nonce aad cipher tag fits ne = rw (fits, aead_open, ne→== _ 0 ne) refl

open_long :
    (key nonce aad cipher tag : List ℕ)
    → too_long (length aad) (length cipher) ≡ true
    → aead_open key nonce aad cipher tag ≡ none
unfolding aead_open
open_long key nonce aad cipher tag long = rw (long, aead_open) refl

-- What is sealed opens to the plain text, with the same key, nonce and additional data, as long as
-- the two texts fit the buffer of 16384 bytes with their padding.
pub aead_open-seal :
    (key nonce aad plain : List ℕ)
    → AllBytes plain
    → length aad + length plain + 46 ≤ mac_in_size
    → let (cipher, tag) = aead_seal key nonce aad plain in
      aead_open key nonce aad cipher tag ≡ some plain
unfolding aead_seal
aead_open-seal key nonce aad plain h fits =
    let fine : too_long (length aad) (length plain) ≡ false =
      short (length aad) (length plain) fits in
    let same : length (chacha20_xor key 1 nonce plain) ≡ length plain =
      length-chacha20_xor key 1 nonce plain in
    rw fine (
      open_accepted key nonce aad (chacha20_xor key 1 nonce plain) _
        (ap (too_long (length aad)) same ∙ fine)
        (difference_same _
          (poly1305_mac-AllBytes (mac_input aad (chacha20_xor key 1 nonce plain))
            (derive_poly_key key nonce)).0)
      ∙ ap some (chacha20_xor_twice key 1 nonce plain (omega arith) h))
  where
    short : (a n : ℕ) → a + n + 46 ≤ mac_in_size → too_long a n ≡ false
    short a n le = unfold too_long in ground arith

-- A tag of 16 bytes that is not the authenticator of the cipher text and the additional data is
-- refused.
pub aead_open_forged :
    (key nonce aad cipher tag : List ℕ)
    → AllBytes tag
    → length tag ≡ 16
    → tag ≢ poly1305_mac (mac_input aad cipher) (derive_poly_key key nonce)
    → aead_open key nonce aad cipher tag ≡ none
aead_open_forged key nonce aad cipher tag h l ne =
    elim (Bool-cases (too_long (length aad) (length cipher))) [
      | inl long ↦ open_long key nonce aad cipher tag long
      | inr fits ↦ open_refused key nonce aad cipher tag fits (λ z.
          let (hm, lm) = poly1305_mac-AllBytes (mac_input aad cipher) (derive_poly_key key nonce) in
          ne (sym (difference_zero _ tag 0 hm h (omega arith) (lm ∙ sym l) z).1))
    ]
