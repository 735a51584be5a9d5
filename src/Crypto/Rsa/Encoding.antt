-- ===== src/Crypto/Rsa/Encoding.antt =====
-- What the checks on the bytes of a power accept: the encoding of the digest, padding and all.
use vyro_os.Base.{
  ℕ, zero, suc, ◌+◌, ◌-◌, ◌≤◌, ◌<◌, ◌≡◌, refl, sym, ap, ap₂, ◌∙◌, Bool, true, false, ◌||◌, ◌&&◌,
  not, List, [], ◌∷◌, ◌++◌, length, get_or, drop, replicate, length-replicate, length-append, ltb,
  leb, ◌==◌, ==_iff, if◌then◌else◌, if-holds, bit_or, bit_xor, arith,
}
use vyro_os.Base.Bytes.{AllBytes, AllBytes-get_or}
use vyro_os.Base.Split.{drop-cons, append_nil, append_assoc, drop_past}
use vyro_os.Crypto.Aead.Open.{or_zero, xor_zero, bytes}
use vyro_os.Crypto.Sha256.{sha256}
use vyro_os.Crypto.Sha256.Padding.{sha256-length, sha256-AllBytes}
use vyro_os.Crypto.Rsa.{
  digest_prefix, skip_padding, prefix_at, diff_from, check_digest, check_encoding,
}

-- EMSA-PKCS1-v1_5 for `n_len` bytes.
unfoldable pub encoding : ℕ → List ℕ → List ℕ
encoding n_len msg = 0 ∷ 1 ∷ (replicate (n_len - 54) 0xFF ++ (0 ∷ (digest_prefix ++ sha256 msg)))

pub ltb-false : (a b : ℕ) → ltb a b ≡ false → b ≤ a
ltb-false a b h = ground arith

leb-false : (a b : ℕ) → leb a b ≡ false → b < a
leb-false a b h = ground arith

-- A test that passed had every early return behind it.
pub passed : (b x : Bool) → (if b then false else x) ≡ true → (b ≡ false) × (x ≡ true)
passed b x h = ground arith

pub from_not : (b : Bool) → not b ≡ false → b ≡ true
from_not b h = ground arith

pub neither : (a b : Bool) → a || b ≡ false → (a ≡ false) × (b ≡ false)
neither a b h = ground arith

module _ (em : List ℕ) where
  -- `xs` stands in `em` from `p` on.
  abbrev StandsAt : ℕ → List ℕ → Type 0
  StandsAt p xs = drop p em ≡ xs ++ drop (p + length xs) em

  StandsAt-cons :
      (p x : ℕ) (xs : List ℕ)
      → p < length em
      → get_or em p 0 ≡ x
      → StandsAt (p + 1) xs
      → StandsAt p (x ∷ xs)
  StandsAt-cons p x xs lt e h =
      drop-cons p em 0 lt
      ∙ ap₂ (λ b bs. b ∷ bs) e
          (ap (λ k. drop k em) {x = suc p} {y = p + 1} (omega arith)
            ∙ h
            ∙ ap (λ k. xs ++ drop k em) (omega arith))

  StandsAt-append :
      (p q : ℕ) (xs ys : List ℕ)
      → q ≡ p + length xs
      → StandsAt p xs
      → StandsAt q ys
      → StandsAt p (xs ++ ys)
  StandsAt-append p q xs ys e hx hy =
      hx
      ∙ ap (λ k. xs ++ drop k em) (sym e)
      ∙ ap (λ r. xs ++ r) (hy ∙ ap (λ k. ys ++ drop k em) (omega (arith, length-append xs ys)))
      ∙ sym (append_assoc xs ys (drop (p + length (xs ++ ys)) em))

  -- What stands at the start and fills the array is the array.
  StandsAt-whole : (xs : List ℕ) → length xs ≡ length em → StandsAt 0 xs → em ≡ xs
  StandsAt-whole xs e h =
      h ∙ ap (λ r. xs ++ r) (drop_past (0 + length xs) em (omega arith)) ∙ append_nil xs

  prefix_at-StandsAt :
      (p : ℕ) (xs : List ℕ) → p + length xs ≤ length em → prefix_at em p xs ≡ true → StandsAt p xs
  unfolding prefix_at
  prefix_at-StandsAt p [] le h = ap (λ k. drop k em) (omega arith)
  prefix_at-StandsAt p (x ∷ xs) le h =
      let (first, rest) = passed (not (get_or em p 0 == x)) (prefix_at em (p + 1) xs) h in
      StandsAt-cons p x xs (omega arith) ((==_iff (get_or em p 0) x).0 (from_not _ first))
        (prefix_at-StandsAt (p + 1) xs (omega arith) rest)

  diff_from-StandsAt :
      (p : ℕ) (hs : List ℕ) (diff : ℕ)
      → AllBytes em
      → AllBytes hs
      → diff < 256
      → p + length hs ≤ length em
      → diff_from em p hs diff ≡ 0
      → (diff ≡ 0) × StandsAt p hs
  unfolding diff_from
  diff_from-StandsAt p [] diff he hh hd le z = (z, ap (λ k. drop k em) (omega arith))
  diff_from-StandsAt p (h ∷ hs) diff he hh hd le z =
      let b = get_or em p 0 in
      let byte = AllBytes-get_or em p he in
      let small = (bytes b h byte hh.0).1 in
      let (now, rest) =
        diff_from-StandsAt (p + 1) hs (bit_or diff (bit_xor b h)) he hh.1
          (bytes diff (bit_xor b h) hd small).0 (omega arith) z in
      let (d0, x0) = or_zero diff (bit_xor b h) hd small now in
      (d0, StandsAt-cons p h hs (omega arith) (xor_zero b h byte hh.0 x0) rest)

  nothing : (p : ℕ) → StandsAt p (replicate (p - p) 0xFF)
  nothing p = let none : p - p ≡ 0 = omega arith in rw none (ap (λ k. drop k em) (omega arith))

  skip_padding-StandsAt :
      (fuel n_len p : ℕ)
      → n_len ≡ length em
      → (p ≤ skip_padding fuel em n_len p)
        × StandsAt p (replicate (skip_padding fuel em n_len p - p) 0xFF)
  unfolding skip_padding
  skip_padding-StandsAt zero n_len p e = (omega arith, nothing p)
  skip_padding-StandsAt (suc fuel) n_len p e =
      let q = skip_padding fuel em n_len (p + 1) in
      let later = skip_padding-StandsAt fuel n_len (p + 1) e in
      if-holds (λ (q : ℕ). (p ≤ q) × StandsAt p (replicate (q - p) 0xFF))
        (ltb p n_len && (get_or em p 0 == 0xFF))
        (λ yes.
          let one : q - p ≡ suc (q - (p + 1)) = omega (arith, later.0) in
          let inside : p < length em = ground (arith, e) in
          let here : get_or em p 0 ≡ 0xFF = ground arith in
          (
            omega (arith, later.0),
            rw one (StandsAt-cons p 0xFF (replicate (q - (p + 1)) 0xFF) inside here later.1),
          ))
        (λ no. (omega arith, nothing p))

  check_digest-StandsAt :
      (n_len p : ℕ) (msg : List ℕ)
      → n_len ≡ length em
      → p < n_len
      → AllBytes em
      → check_digest em n_len p msg ≡ true
      → (n_len ≡ p + 52) × StandsAt p (0 ∷ (digest_prefix ++ sha256 msg))
  unfolding check_digest
  check_digest-StandsAt n_len p msg e lt he h =
      let (zero_test, h1) = passed (not (get_or em p 0 == 0)) _ h in
      let (size_test, h2) = passed (not (n_len - (p + 1) == 51)) _ h1 in
      let (prefix_test, h3) = passed (not (prefix_at em (p + 1) digest_prefix)) _ h2 in
      let sep = (==_iff (get_or em p 0) 0).0 (from_not _ zero_test) in
      let size = (==_iff (n_len - (p + 1)) 51).0 (from_not _ size_test) in
      let len = sha256-length msg in
      let prefix =
        prefix_at-StandsAt (p + 1) digest_prefix (omega arith) (from_not _ prefix_test) in
      let digest =
        diff_from-StandsAt (p + 1 + 19) (sha256 msg) 0 he (sha256-AllBytes msg) (omega arith)
          (omega (arith, len)) ((==_iff _ 0).0 h3) in
      (
        omega arith,
        StandsAt-cons p 0 (digest_prefix ++ sha256 msg) (omega arith) sep (
            StandsAt-append (p + 1) (p + 1 + 19) digest_prefix (sha256 msg) (omega arith) prefix
              digest.1),
      )

  pub encoding_lem :
      (msg : List ℕ)
      → AllBytes em
      → check_encoding em (length em) msg ≡ true
      → em ≡ encoding (length em) msg
  unfolding check_encoding encoding
  encoding_lem msg he h =
      let n_len = length em in
      let (long, h1) = passed (ltb n_len 62) _ h in
      let (start, h2) = passed (not (get_or em 0 0 == 0) || not (get_or em 1 0 == 1)) _ h1 in
      let (zero_test, one_test) = neither _ _ start in
      let q = skip_padding n_len em n_len 2 in
      let (range, h3) = passed (ltb q 10 || leb n_len q) _ h2 in
      let (ten, inside) = neither _ _ range in
      let first = (==_iff (get_or em 0 0) 0).0 (from_not _ zero_test) in
      let second = (==_iff (get_or em 1 0) 1).0 (from_not _ one_test) in
      let padding = skip_padding-StandsAt n_len n_len 2 refl in
      let at_least : 10 ≤ q = ltb-false q 10 ten in
      let in_array : q < n_len = leb-false n_len q inside in
      let (size, rest) = check_digest-StandsAt n_len q msg refl in_array he h3 in
      let count : n_len - 54 ≡ q - 2 = omega arith in
      let pads : List ℕ = replicate (q - 2) 0xFF in
      let tail : List ℕ = 0 ∷ (digest_prefix ++ sha256 msg) in
      let len : length pads ≡ q - 2 = length-replicate (q - 2) 0xFF in
      rw count (
        StandsAt-whole (0 ∷ 1 ∷ (pads ++ tail))
          (omega (
            arith,
            length-append pads tail,
            length-append digest_prefix (sha256 msg),
            sha256-length msg,
            len,
          ))
          (StandsAt-cons 0 0 (1 ∷ (pads ++ tail)) (omega arith) first (
            StandsAt-cons 1 1 (pads ++ tail) (omega arith) second
              (StandsAt-append 2 q pads tail (omega (arith, len, padding.0)) padding.1 rest))))
