-- ===== src/Base/Bytes.antt =====
-- Little-endian numbers in a byte array, as the C code reads them.
use Prim.Native.Nat.{ℕ, zero, suc, ◌+◌, ◌*◌, ◌^◌, ◌<◌}
use mathlib.Core.List.{List, [], ◌∷◌}
use native.Mathlib.Omega.{arith}
use vyro_os.Base.Lists.{get_or, drop}

-- The number in the first `n` bytes, the lowest first; bytes that are not there read as 0.
abbrev pub little_endian : ℕ → List ℕ → ℕ
little_endian zero bs = 0
little_endian (suc n) bs = get_or bs 0 0 + 256 * little_endian n (drop 1 bs)

abbrev pub AllBytes : List ℕ → Type 0
AllBytes [] = Unit
AllBytes (b ∷ bs) = (b < 256) × AllBytes bs

pub AllBytes-get_or : (bs : List ℕ) (i : ℕ) → AllBytes bs → get_or bs i 0 < 256
AllBytes-get_or [] i h = omega arith
AllBytes-get_or (b ∷ bs) zero h = h.0
AllBytes-get_or (b ∷ bs) (suc i) h = AllBytes-get_or bs i h.1

pub AllBytes-drop : (n : ℕ) (bs : List ℕ) → AllBytes bs → AllBytes (drop n bs)
AllBytes-drop zero bs h = h
AllBytes-drop (suc n) [] h = tt
AllBytes-drop (suc n) (b ∷ bs) h = AllBytes-drop n bs h.1

-- Four bytes make a 32-bit number, eight a 64-bit one.
pub little_endian_four-lt : (bs : List ℕ) → AllBytes bs → little_endian 4 bs < 2 ^ 32
little_endian_four-lt bs h = omega (
  arith,
  AllBytes-get_or bs 0 h,
  AllBytes-get_or (drop 1 bs) 0 (AllBytes-drop 1 bs h),
  AllBytes-get_or (drop 1 (drop 1 bs)) 0 (AllBytes-drop 1 _ (AllBytes-drop 1 bs h)),
  AllBytes-get_or (drop 1 (drop 1 (drop 1 bs))) 0
      (AllBytes-drop 1 _ (AllBytes-drop 1 _ (AllBytes-drop 1 bs h))),
)
