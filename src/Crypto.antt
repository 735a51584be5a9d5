-- ===== src/Crypto.antt =====
-- The cryptographic parts of the kernel.
pub mod Chacha20
pub mod Poly1305
pub mod Aead
pub mod Bignum
pub mod Sha256
pub mod Hkdf
pub mod Rsa
