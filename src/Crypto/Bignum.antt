-- ===== src/Crypto/Bignum.antt =====
-- kernel/bignum.c: unsigned numbers in limbs of 32 bits, the lowest first, and arithmetic by a
-- modulus. An array of BN_LIMBS limbs is a list; the length of the list stands for BN_LIMBS, so
-- the definitions also read as kernel/bignum_4k.c, the same code on twice as many limbs.
use vyro_os.Base.{
  ℕ, zero, suc, ◌+◌, ◌-◌, ◌*◌, ◌/◌, ◌%◌, ◌^◌, Bool, true, false, ◌||◌, not, Option, none, some,
  List, [], ◌∷◌, length, get_or, set, drop, replicate, ltb, ◌==◌, if◌then◌else◌, bit_or, ℤ, pos,
  negsuc, minus_one,
}
pub mod Value
pub mod Digits
pub mod Multiply
pub mod Reduce
pub mod Power
pub mod Bytes
pub mod Tests

pub bn_is_zero : List ℕ → Bool
bn_is_zero [] = true
bn_is_zero (x ∷ xs) = let rest = bn_is_zero xs in if x == 0 then rest else false

-- The limbs below `i` compared, the highest first.
pub compare_limbs : ℕ → List ℕ → List ℕ → ℤ
compare_limbs zero a b = pos 0
compare_limbs (suc i) a b =
    let rest = compare_limbs i a b in
    if get_or a i 0 == get_or b i 0
    then rest
    else (if ltb (get_or a i 0) (get_or b i 0) then minus_one else pos 1)

unfoldable pub bn_cmp : List ℕ → List ℕ → ℤ
unfolding compare_limbs
bn_cmp a b = compare_limbs (length a) a b

-- `x >= 0`
abbrev pub at_least_zero : ℤ → Bool
at_least_zero (pos n) = true
at_least_zero (negsuc n) = false

-- The loops of `add_in_place` and `sub_in_place` from a limb on: the limbs they leave, and the
-- carry or borrow behind the last. The second array is as long as the first.
pub add_limbs : List ℕ → List ℕ → ℕ → List ℕ × ℕ
add_limbs [] bs carry = ([], carry)
add_limbs (r ∷ rs) [] carry = (r ∷ rs, carry)
add_limbs (r ∷ rs) (b ∷ bs) carry =
    let s = (r + b + carry) % 2 ^ 64 in
    let rest = add_limbs rs bs (s / 2 ^ 32) in (s % 2 ^ 32 ∷ rest.0, rest.1)

pub sub_limbs : List ℕ → List ℕ → ℕ → List ℕ × ℕ
sub_limbs [] bs borrow = ([], borrow)
sub_limbs (r ∷ rs) [] borrow = (r ∷ rs, borrow)
sub_limbs (r ∷ rs) (b ∷ bs) borrow =
    let rest = sub_limbs rs bs (if ltb r (b + borrow) then 1 else 0) in
    ((r + 2 ^ 32 - (b + borrow)) % 2 ^ 32 ∷ rest.0, rest.1)

abbrev pub add_in_place : List ℕ → List ℕ → List ℕ × ℕ
add_in_place r b = add_limbs r b 0

abbrev pub sub_in_place : List ℕ → List ℕ → List ℕ × ℕ
sub_in_place r b = sub_limbs r b 0

-- `if (carry || bn_cmp(r, m) >= 0) sub_in_place(r, m)`, which ends both reductions
pub reduce_once : List ℕ × ℕ → List ℕ → List ℕ
unfolding bn_cmp
reduce_once r m =
    if not (r.1 == 0) || at_least_zero (bn_cmp r.0 m) then (sub_in_place r.0 m).0 else r.0

pub bn_addmod : List ℕ → List ℕ → List ℕ → List ℕ
unfolding reduce_once
bn_addmod a b m = reduce_once (add_in_place a b) m

-- One row of the product: `a` times the limbs `bs` added to the limbs of `r` from `r[i]` on, and
-- the carry written behind them.
pub multiply_row : ℕ → List ℕ → List ℕ → ℕ → List ℕ
multiply_row a bs [] carry = []
multiply_row a [] (r ∷ rs) carry = carry ∷ rs
multiply_row a (b ∷ bs) (r ∷ rs) carry =
    let t = (r + a * b + carry) % 2 ^ 64 in t % 2 ^ 32 ∷ multiply_row a bs rs (t / 2 ^ 32)

-- The rows from `r[i]` on: the limb `r[i]` is done after its row.
pub multiply_rows : List ℕ → List ℕ → List ℕ → List ℕ
unfolding multiply_row
multiply_rows [] bs r = r
multiply_rows (x ∷ xs) bs r =
    let row = multiply_row x bs r 0 in get_or row 0 0 ∷ multiply_rows xs bs (drop 1 row)

pub bn2_mul : List ℕ → List ℕ → List ℕ
unfolding multiply_rows
bn2_mul a b = multiply_rows a b (replicate (length a + length b) 0)

pub shift_limbs : List ℕ → ℕ → List ℕ × ℕ
shift_limbs [] carry = ([], carry)
shift_limbs (r ∷ rs) carry =
    let rest = shift_limbs rs (r / 2 ^ 31) in (bit_or (r * 2 % 2 ^ 32) carry ∷ rest.0, rest.1)

-- `(a[bit >> 5] >> (bit & 31)) & 1`
pub bn_bit : List ℕ → ℕ → ℕ
bn_bit a bit = get_or a (bit / 32) 0 / 2 ^ (bit % 32) % 2

-- The remainder shifted by one, with the next bit of the product.
pub shift_in : List ℕ → ℕ → List ℕ × ℕ
unfolding shift_limbs
shift_in rem bit =
    let shifted = shift_limbs rem 0 in
    (set shifted.0 0 (bit_or (get_or shifted.0 0 0) bit), shifted.1)

pub mod_loop : ℕ → List ℕ → List ℕ → List ℕ → List ℕ
unfolding bn_bit shift_in reduce_once
mod_loop zero prod m rem = rem
mod_loop (suc bit) prod m rem = mod_loop bit prod m (reduce_once (shift_in rem (bn_bit prod bit)) m)

pub bn2_mod : List ℕ → List ℕ → List ℕ
unfolding mod_loop
bn2_mod prod m = mod_loop (length prod * 32) prod m (replicate (length m) 0)

pub bn_mulmod : List ℕ → List ℕ → List ℕ → List ℕ
unfolding bn2_mul bn2_mod
bn_mulmod a b m = bn2_mod (bn2_mul a b) m

-- The highest bit of the exponent that is set, below `i`.
pub top_bit : ℕ → List ℕ → Option ℕ
unfolding bn_bit
top_bit zero exp = none
top_bit (suc i) exp = let rest = top_bit i exp in if not (bn_bit exp i == 0) then some i else rest

pub exp_step : List ℕ → List ℕ → List ℕ → List ℕ → ℕ → List ℕ
unfolding bn_bit bn_mulmod
exp_step exp m result b i = if not (bn_bit exp i == 0) then bn_mulmod result b m else result

-- The bits of the exponent from `i` on, `left` more after bit `i`.
pub exp_loop : ℕ → ℕ → List ℕ → List ℕ → List ℕ → List ℕ → List ℕ
unfolding exp_step bn_mulmod
exp_loop zero i exp m result b = exp_step exp m result b i
exp_loop (suc left) i exp m result b =
    exp_loop left (suc i) exp m (exp_step exp m result b i) (bn_mulmod b b m)

abbrev pub modexp_from : Option ℕ → List ℕ → List ℕ → List ℕ → List ℕ → List ℕ
unfolding exp_loop
modexp_from none base exp m one = one
modexp_from (some top) base exp m one = exp_loop top 0 exp m one base

unfoldable pub bn_modexp : List ℕ → List ℕ → List ℕ → List ℕ
unfolding top_bit
bn_modexp base exp m =
    modexp_from (top_bit (length exp * 32) exp) base exp m (set (replicate (length m) 0) 0 1)

-- `bn_from_be`: byte `k - 1` goes to position `i`, until `k` is 0.
pub from_be_loop : List ℕ → ℕ → ℕ → List ℕ → List ℕ
from_be_loop be zero i r = r
from_be_loop be (suc k) i r = from_be_loop be k (suc i) (
    if ltb (i / 4) (length r)
    then set r (i / 4) (bit_or (get_or r (i / 4) 0) (get_or be k 0 * 2 ^ (i % 4 * 8) % 2 ^ 32))
    else r)

unfoldable pub bn_from_be : ℕ → List ℕ → ℕ → List ℕ
unfolding from_be_loop
bn_from_be limbs be len = from_be_loop be len 0 (replicate limbs 0)

-- `bn_to_be` from the byte with `n - 1` bytes behind it on; a limb that is not there reads as 0.
unfoldable pub bn_to_be : ℕ → List ℕ → List ℕ
bn_to_be zero a = []
bn_to_be (suc n) a = get_or a (n / 4) 0 / 2 ^ (n % 4 * 8) % 256 ∷ bn_to_be n a
