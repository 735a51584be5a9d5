-- ===== src/Crypto/Rsa/Tests.antt =====
-- A signature with exponent 1 and a modulus of 62 bytes, and one with a byte of the padding wrong.
use vyro_os.Base.{
  ℕ, ◌≡◌, ◌<◌, ◌^◌, ◌%◌, refl, true, List, [], ◌∷◌, ltb→lt, length, replicate, arith,
}
use vyro_os.Crypto.Bignum.Bytes.{big_endian, octets}
use vyro_os.Crypto.Sha256.{sha256}
use vyro_os.Crypto.Rsa.{check_encoding, rsa_pkcs1_v15_sha256_verify}
use vyro_os.Crypto.Rsa.Encoding.{encoding}
use vyro_os.Crypto.Rsa.Verify.{rsa_pkcs1_v15_sha256_verify-octets, rsa_pkcs1_v15_sha256_verify_lem}

abbrev modulus : List ℕ
modulus = replicate 62 0xFF

abbrev exponent : List ℕ
exponent = 1 ∷ []

abbrev text : List ℕ
text = 97 ∷ 98 ∷ 99 ∷ []

abbrev signature : List ℕ
signature =
    0 ∷ 1 ∷ 255 ∷ 255 ∷ 255 ∷ 255 ∷ 255 ∷ 255 ∷ 255 ∷ 255 ∷ 0 ∷ 0x30 ∷ 0x31 ∷ 0x30 ∷ 0x0d ∷ 0x06
    ∷ 0x09 ∷ 0x60 ∷ 0x86 ∷ 0x48 ∷ 0x01 ∷ 0x65 ∷ 0x03 ∷ 0x04 ∷ 0x02 ∷ 0x01 ∷ 0x05 ∷ 0x00 ∷ 0x04
    ∷ 0x20 ∷ 0xba ∷ 0x78 ∷ 0x16 ∷ 0xbf ∷ 0x8f ∷ 0x01 ∷ 0xcf ∷ 0xea ∷ 0x41 ∷ 0x41 ∷ 0x40 ∷ 0xde
    ∷ 0x5d ∷ 0xae ∷ 0x22 ∷ 0x23 ∷ 0xb0 ∷ 0x03 ∷ 0x61 ∷ 0xa3 ∷ 0x96 ∷ 0x17 ∷ 0x7a ∷ 0x9c ∷ 0xb4
    ∷ 0x10 ∷ 0xff ∷ 0x61 ∷ 0xf2 ∷ 0x00 ∷ 0x15 ∷ 0xad ∷ []

accepted : rsa_pkcs1_v15_sha256_verify 16 modulus exponent signature text ≡ true
unfolding check_encoding sha256 big_endian octets
accepted =
    rsa_pkcs1_v15_sha256_verify-octets 16 modulus exponent signature text (omega arith)
      (omega arith) (omega arith) (omega arith) (omega arith) refl (ltb→lt _ _ refl) (omega arith)
      (ltb→lt _ _ refl)

rsa_pkcs1_v15_sha256_verify-octets_example :
    rsa_pkcs1_v15_sha256_verify 16 modulus exponent signature text
    ≡ check_encoding
        (octets (length modulus) (
          big_endian signature (length signature) ^ big_endian exponent (length exponent)
          % big_endian modulus (length modulus)))
        (length modulus)
        text
unfolding big_endian
rsa_pkcs1_v15_sha256_verify-octets_example =
    rsa_pkcs1_v15_sha256_verify-octets 16 modulus exponent signature text (omega arith)
      (omega arith) (omega arith) (omega arith) (omega arith) refl (ltb→lt _ _ refl) (omega arith)
      (ltb→lt _ _ refl)

rsa_pkcs1_v15_sha256_verify_lem_example :
    (big_endian signature (length signature) < big_endian modulus (length modulus))
    × (octets (length modulus) (
          big_endian signature (length signature) ^ big_endian exponent (length exponent)
          % big_endian modulus (length modulus))
        ≡ encoding (length modulus) text)
unfolding big_endian
rsa_pkcs1_v15_sha256_verify_lem_example =
    rsa_pkcs1_v15_sha256_verify_lem 16 modulus exponent signature text (omega arith) (omega arith)
      (omega arith) (omega arith) (ltb→lt _ _ refl) accepted
