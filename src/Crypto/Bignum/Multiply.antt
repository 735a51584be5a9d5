-- ===== src/Crypto/Bignum/Multiply.antt =====
-- `bn2_mul` multiplies, and its 64-bit sums never wrap.
use vyro_os.Base.{
  ℕ, zero, suc, ◌+◌, ◌*◌, ◌/◌, ◌%◌, ◌^◌, ◌≤◌, ◌<◌, ◌≡◌, refl, sym, ap, ◌∙◌, List, [], ◌∷◌, length,
  get_or, drop, replicate, length-replicate, length-drop, get_or-drop, arith,
}
use native.Mathlib.Nat.{mul-le-mul}
use vyro_os.Crypto.Bignum.{multiply_row, multiply_rows, bn2_mul}
use vyro_os.Crypto.Bignum.Value.{AllLimbs, value, value-zeros, zeros-AllLimbs}

-- The sum of a limb, a product of limbs and a carry fits in 64 bits.
sum_fits :
    (r a b carry : ℕ)
    → r < 2 ^ 32
    → a < 2 ^ 32
    → b < 2 ^ 32
    → carry < 2 ^ 32
    → r + a * b + carry < 2 ^ 64
sum_fits r a b carry hr ha hb hc =
    let ha' : a ≤ 4294967295 = omega arith in
    let hb' : b ≤ 4294967295 = omega arith in omega (arith, mul-le-mul ha' hb')

shift : (bs : List ℕ) (k : ℕ) → suc (length bs) + k ≡ suc (length bs + k)
shift bs k = omega arith

multiply_row_lem :
    (a : ℕ) (bs r : List ℕ) (carry : ℕ)
    → a < 2 ^ 32
    → AllLimbs bs
    → AllLimbs r
    → carry < 2 ^ 32
    → length bs < length r
    → get_or r (length bs) 0 ≡ 0
    → (value (multiply_row a bs r carry) ≡ value r + a * value bs + carry)
      × AllLimbs (multiply_row a bs r carry)
      × (length (multiply_row a bs r carry) ≡ length r)
      × ((k : ℕ)
          → get_or (multiply_row a bs r carry) (suc (length bs + k)) 0
            ≡ get_or r (suc (length bs + k)) 0)
unfolding multiply_row value
multiply_row_lem a bs [] carry ha hb hr hc lt z = absurd (omega arith)
multiply_row_lem a [] (r ∷ rs) carry ha hb hr hc lt z = (omega arith, (hc, hr.1), refl, λ k. refl)
multiply_row_lem a (b ∷ bs) (r ∷ rs) carry ha hb hr hc lt z =
    let t = (r + a * b + carry) % 2 ^ 64 in
    let fits = sum_fits r a b carry hr.0 ha hb.0 hc in
    let rest = multiply_row_lem a bs rs (t / 2 ^ 32) ha hb.1 hr.1 (omega arith) (omega arith) z in
    (
      omega (arith, rest.0, fits),
      (omega arith, rest.1),
      ap suc rest.2,
      λ k.
          ap (λ i. get_or (multiply_row a bs rs (t / 2 ^ 32)) i 0) (shift bs k)
          ∙ rest.3 k
          ∙ sym (ap (λ i. get_or rs i 0) (shift bs k)),
    )

drop-AllLimbs : (xs : List ℕ) → AllLimbs xs → AllLimbs (drop 1 xs)
drop-AllLimbs [] h = tt
drop-AllLimbs (x ∷ xs) h = h.1

head-IsLimb : (xs : List ℕ) → AllLimbs xs → get_or xs 0 0 < 2 ^ 32
head-IsLimb [] h = omega arith
head-IsLimb (x ∷ xs) h = h.0

get_or-zeros : (n i : ℕ) → get_or {A = ℕ} (replicate n 0) i 0 ≡ 0
get_or-zeros zero i = refl
get_or-zeros (suc n) zero = refl
get_or-zeros (suc n) (suc i) = get_or-zeros n i

head_tail : (xs : List ℕ) → 0 < length xs → value xs ≡ get_or xs 0 0 + 2 ^ 32 * value (drop 1 xs)
unfolding value
head_tail [] h = absurd (omega arith)
head_tail (x ∷ xs) h = refl

multiply_rows_lem :
    (xs bs r : List ℕ)
    → AllLimbs xs
    → AllLimbs bs
    → AllLimbs r
    → length r ≡ length xs + length bs
    → ((k : ℕ) → get_or r (length bs + k) 0 ≡ 0)
    → (value (multiply_rows xs bs r) ≡ value r + value xs * value bs)
      × AllLimbs (multiply_rows xs bs r)
      × (length (multiply_rows xs bs r) ≡ length r)
unfolding multiply_rows value
multiply_rows_lem [] bs r ha hb hr len z = (omega arith, hr, refl)
multiply_rows_lem (x ∷ xs) bs r ha hb hr len z =
    let row = multiply_row x bs r 0 in
    let step =
      multiply_row_lem x bs r 0 ha.0 hb hr (omega arith) (omega arith)
        (ap (λ i. get_or r i 0) {x = length bs} {y = length bs + 0} (omega arith) ∙ z 0) in
    let rest =
      multiply_rows_lem xs bs (drop 1 row) ha.1 hb (drop-AllLimbs row step.1)
        (omega (arith, length-drop 1 row))
        (λ k.
          get_or-drop 1 (length bs + k) row 0
          ∙ ap (λ i. get_or row i 0) {x = 1 + (length bs + k)} {y = suc (length bs + k)}
              (omega arith)
          ∙ step.3 k
          ∙ ap (λ i. get_or r i 0) {x = suc (length bs + k)} {y = length bs + suc k} (omega arith)
          ∙ z (suc k)) in
    (
      omega (arith, rest.0, step.0, head_tail row (omega arith)),
      (head-IsLimb row step.1, rest.1),
      omega (arith, rest.2, step.2, length-drop 1 row),
    )

pub bn2_mul_lem :
    (a b : List ℕ)
    → AllLimbs a
    → AllLimbs b
    → (value (bn2_mul a b) ≡ value a * value b)
      × AllLimbs (bn2_mul a b)
      × (length (bn2_mul a b) ≡ length a + length b)
unfolding bn2_mul
bn2_mul_lem a b ha hb =
    let n = length a + length b in
    let product =
      multiply_rows_lem a b (replicate n 0) ha hb (zeros-AllLimbs n) (length-replicate n 0)
        (λ k. get_or-zeros n (length b + k)) in
    (omega (arith, product.0, value-zeros n), product.1, product.2 ∙ length-replicate n 0)
