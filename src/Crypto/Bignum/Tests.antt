-- ===== src/Crypto/Bignum/Tests.antt =====
-- The powers of rsa_selftest, on one limb, and runs of the other operations.
use vyro_os.Base.{ℕ, ◌^◌, ◌≡◌, refl, List, [], ◌∷◌, take, arith}
use vyro_os.Crypto.Bignum.{
  bn_cmp, bn_mulmod, bn_modexp, bn2_mul, bn_from_be, bn_to_be, reduce_once, modexp_from, top_bit,
  exp_loop, exp_step, bn2_mod, mod_loop, bn_bit, shift_in, shift_limbs, multiply_row, multiply_rows,
  sub_limbs, compare_limbs,
}
use vyro_os.Crypto.Bignum.Value.{value}
use vyro_os.Crypto.Bignum.Reduce.{IsReduced}
use vyro_os.Crypto.Bignum.Power.{bn_modexp_lem}
use vyro_os.Crypto.Bignum.Bytes.{bn_to_be-from_be}

abbrev three : List ℕ
three = 3 ∷ []

abbrev seven : List ℕ
seven = 7 ∷ []

abbrev hundred : List ℕ
hundred = 100 ∷ []

abbrev high : List ℕ
high = 0 ∷ 1 ∷ []

abbrev low : List ℕ
low = 0xffffffff ∷ 0 ∷ []

-- 3 ^ 7 by 100, as rsa_selftest wants it
selftest_three : bn_modexp three seven hundred ≡ 87 ∷ []
unfolding bn_modexp modexp_from top_bit exp_loop exp_step bn_mulmod bn2_mod mod_loop bn_bit shift_in
    shift_limbs sub_limbs reduce_once bn_cmp compare_limbs bn2_mul multiply_row multiply_rows
selftest_three = refl

-- 2 ^ 10 by 1000
selftest_two : bn_modexp (2 ∷ []) (10 ∷ []) (1000 ∷ []) ≡ 24 ∷ []
unfolding bn_modexp modexp_from top_bit exp_loop exp_step bn_mulmod bn2_mod mod_loop bn_bit shift_in
    shift_limbs sub_limbs reduce_once bn_cmp compare_limbs bn2_mul multiply_row multiply_rows
selftest_two = refl

-- The power 0 by the modulus 1 is 1 in the code, though every remainder by 1 is 0.
power_zero_of_one : bn_modexp three (0 ∷ []) (1 ∷ []) ≡ 1 ∷ []
unfolding bn_modexp modexp_from top_bit bn_bit
power_zero_of_one = refl

square_of_low : bn2_mul (0xffffffff ∷ []) (0xffffffff ∷ []) ≡ 1 ∷ 0xfffffffe ∷ []
unfolding bn2_mul multiply_row multiply_rows
square_of_low = refl

bn_modexp_lem_example :
    IsReduced (bn_modexp three seven hundred) hundred (value three ^ value seven)
unfolding value
bn_modexp_lem_example =
    bn_modexp_lem three seven hundred (omega arith) (omega arith) (omega arith) (omega arith)

abbrev five_bytes : List ℕ
five_bytes = 1 ∷ 2 ∷ 3 ∷ 4 ∷ 5 ∷ []

bn_to_be-from_be_example : bn_to_be 5 (bn_from_be 2 five_bytes 5) ≡ take 5 five_bytes
bn_to_be-from_be_example = bn_to_be-from_be 2 5 five_bytes (omega arith) (omega arith) (omega arith)
