-- ===== src/Base/Bits.antt =====
-- Bits of a byte, and exclusive or of numbers of any width.
use Prim.Native.Nat.{ℕ, zero, suc, ◌-◌, ◌%◌, ◌^◌, ◌<◌, bit_and, bit_or}
use mathlib.Core.Path.{◌≡◌, refl}
use mathlib.Core.Bool.{Bool, true, false, ◌&&◌, not}
use native.Mathlib.Omega.{arith}
use vyro_os.Base.Tests.{ltb, ltb→lt, ◌==◌, ==_iff, if◌then◌else◌}

-- Whether `p` holds of every number below `n`.
unfoldable pub all_below : ℕ → (ℕ → Bool) → Bool
all_below zero p = true
all_below (suc n) p = p n && all_below n p

pub all_below-holds : (n : ℕ) (p : ℕ → Bool) (x : ℕ) → all_below n p ≡ true → x < n → p x ≡ true
unfolding all_below
all_below-holds zero p x h lt = absurd (omega arith)
all_below-holds (suc n) p x h lt = ground (arith, all_below-holds n p x)

-- `b & (1 << k)`, as a test
abbrev pub bit_test : ℕ → ℕ → Bool
bit_test b k = not (bit_and b (2 ^ k) == 0)

-- `b | (1 << k)`, kept in a byte
abbrev pub bit_set : ℕ → ℕ → ℕ
bit_set b k = bit_or b (2 ^ k) % 256

-- `b & ~(1 << k)`, kept in a byte
abbrev pub bit_clear : ℕ → ℕ → ℕ
bit_clear b k = bit_and b (255 - 2 ^ k)

abbrev bool_eq : Bool → Bool → Bool
bool_eq true b = b
bool_eq false b = not b

bool_eq→eq : (a b : Bool) → bool_eq a b ≡ true → a ≡ b
bool_eq→eq true b h = ground arith
bool_eq→eq false b h = ground arith

set_table :
    all_below 256 (λ b. all_below 8 (λ k.
      all_below 8
        (λ j. bool_eq (bit_test (bit_set b k) j) (if k == j then true else bit_test b j))))
    ≡ true
unfolding all_below
set_table = refl

clear_table :
    all_below 256 (λ b. all_below 8 (λ k.
      all_below 8
        (λ j. bool_eq (bit_test (bit_clear b k) j) (if k == j then false else bit_test b j))))
    ≡ true
unfolding all_below
clear_table = refl

pub bit_test-set :
    (b k j : ℕ)
    → b < 256
    → k < 8
    → j < 8
    → bit_test (bit_set b k) j ≡ (if k == j then true else bit_test b j)
bit_test-set b k j hb hk hj =
    bool_eq→eq _ _
      (all_below-holds 8 _ j (all_below-holds 8 _ k (all_below-holds 256 _ b set_table hb) hk) hj)

pub bit_test-clear :
    (b k j : ℕ)
    → b < 256
    → k < 8
    → j < 8
    → bit_test (bit_clear b k) j ≡ (if k == j then false else bit_test b j)
bit_test-clear b k j hb hk hj =
    bool_eq→eq _ _
      (all_below-holds 8 _ j (all_below-holds 8 _ k (all_below-holds 256 _ b clear_table hb) hk) hj)

clear_lt_table : all_below 256 (λ b. all_below 8 (λ k. ltb (bit_clear b k) 256)) ≡ true
unfolding all_below
clear_lt_table = refl

pub bit_clear-lt : (b k : ℕ) → b < 256 → k < 8 → bit_clear b k < 256
bit_clear-lt b k hb hk =
    ltb→lt _ _ (all_below-holds 8 _ k (all_below-holds 256 _ b clear_lt_table hb) hk)

undo_table :
    all_below 256
      (λ b. all_below 8 (λ k. if bit_test b k then true else bit_clear (bit_set b k) k == b))
    ≡ true
unfolding all_below
undo_table = refl

-- Clearing a bit that was just set gives the byte back.
pub bit_clear-set :
    (b k : ℕ) → b < 256 → k < 8 → bit_test b k ≡ false → bit_clear (bit_set b k) k ≡ b
bit_clear-set b k hb hk clear =
    (==_iff _ _).0 (rw clear at (all_below-holds 8 _ k (all_below-holds 256 _ b undo_table hb) hk))

full_table : all_below 8 (λ k. bit_test 255 k) ≡ true
unfolding all_below
full_table = refl

pub bit_test-full : (k : ℕ) → k < 8 → bit_test 255 k ≡ true
bit_test-full k hk = all_below-holds 8 _ k full_table hk

empty_table : all_below 8 (λ k. not (bit_test 0 k)) ≡ true
unfolding all_below
empty_table = refl

pub bit_test-empty : (k : ℕ) → k < 8 → bit_test 0 k ≡ false
bit_test-empty k hk = let e = all_below-holds 8 _ k empty_table hk in ground arith
