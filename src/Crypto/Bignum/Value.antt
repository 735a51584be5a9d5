-- ===== src/Crypto/Bignum/Value.antt =====
-- The number that limbs stand for, and what comparing, adding and subtracting limbs do to it.
use vyro_os.Base.{
  ℕ, zero, suc, ◌+◌, ◌-◌, ◌*◌, ◌/◌, ◌%◌, ◌^◌, ◌≤◌, ◌<◌, ◌≡◌, refl, ap, ◌∙◌, Bool, true, false, List,
  [], ◌∷◌, length, get_or, replicate, ltb, ◌==◌, if◌then◌else◌, ℤ, pos, negsuc, minus_one, arith,
}
use native.Mathlib.Nat.{pow-suc}
use vyro_os.Base.Every.{Every}
use vyro_os.Crypto.Bignum.{compare_limbs, bn_cmp, add_limbs, sub_limbs}

abbrev pub IsLimb : ℕ → Type 0
IsLimb x = x < 2 ^ 32

-- Every limb fits in 32 bits.
abbrev pub AllLimbs : List ℕ → Type 0
AllLimbs = Every IsLimb

unfoldable pub value : List ℕ → ℕ
value [] = 0
value (x ∷ xs) = x + 2 ^ 32 * value xs

pub value-lt : (a : List ℕ) → AllLimbs a → value a < (2 ^ 32) ^ length a
unfolding value
value-lt [] h = omega arith
value-lt (x ∷ xs) h = omega (arith, value-lt xs h.1, pow-suc (2 ^ 32) (length xs))

pub value-zeros : (n : ℕ) → value (replicate n 0) ≡ 0
unfolding value
value-zeros zero = refl
value-zeros (suc n) = omega (arith, value-zeros n)

pub zeros-AllLimbs : (n : ℕ) → AllLimbs (replicate n 0)
zeros-AllLimbs zero = tt
zeros-AllLimbs (suc n) = (omega arith, zeros-AllLimbs n)

-- The order of two numbers, as the C code returns it.
abbrev pub order : ℕ → ℕ → ℤ
order x y = if x == y then pos 0 else (if ltb x y then minus_one else pos 1)

-- The lowest limb decides only where the others are the same.
combine : ℤ → ℤ → ℤ
combine (pos zero) low = low
combine (pos (suc n)) low = pos (suc n)
combine (negsuc n) low = negsuc n

combine-if :
    (c l : Bool) (rest low : ℤ)
    → (if c then combine rest low else (if l then minus_one else pos 1))
      ≡ combine (if c then rest else (if l then minus_one else pos 1)) low
unfolding combine
combine-if true l rest low = refl
combine-if false true rest low = refl
combine-if false false rest low = refl

compare_limbs-cons :
    (i x y : ℕ) (xs ys : List ℕ)
    → compare_limbs (suc i) (x ∷ xs) (y ∷ ys) ≡ combine (compare_limbs i xs ys) (order x y)
unfolding compare_limbs combine
compare_limbs-cons zero x y xs ys = refl
compare_limbs-cons (suc i) x y xs ys =
    ap
      (λ r.
        if get_or xs i 0 == get_or ys i 0
        then r
        else (if ltb (get_or xs i 0) (get_or ys i 0) then minus_one else pos 1))
      (compare_limbs-cons i x y xs ys)
    ∙ combine-if (get_or xs i 0 == get_or ys i 0) (ltb (get_or xs i 0) (get_or ys i 0))
        (compare_limbs i xs ys) (order x y)

combine-order :
    (x y p q : ℕ)
    → x < 2 ^ 32
    → y < 2 ^ 32
    → combine (order p q) (order x y) ≡ order (x + 2 ^ 32 * p) (y + 2 ^ 32 * q)
unfolding combine
combine-order x y p q hx hy = ground arith

pub bn_cmp_lem :
    (a b : List ℕ)
    → AllLimbs a
    → AllLimbs b
    → length a ≡ length b
    → bn_cmp a b ≡ order (value a) (value b)
unfolding bn_cmp compare_limbs value
bn_cmp_lem [] [] ha hb len = refl
bn_cmp_lem [] (y ∷ ys) ha hb len = absurd (omega arith)
bn_cmp_lem (x ∷ xs) [] ha hb len = absurd (omega arith)
bn_cmp_lem (x ∷ xs) (y ∷ ys) ha hb len =
    compare_limbs-cons (length xs) x y xs ys
    ∙ ap (λ r. combine r (order x y)) (bn_cmp_lem xs ys ha.1 hb.1 (omega arith))
    ∙ combine-order x y (value xs) (value ys) ha.0 hb.0

-- A carry out of `n + 1` limbs counts 2 ^ 32 times as much as one out of `n`.
pub carried : (c n : ℕ) → c * (2 ^ 32) ^ suc n ≡ c * (2 ^ 32) ^ n * 2 ^ 32
carried c n = omega (arith, ap (λ (t : ℕ). c * t) (pow-suc (2 ^ 32) n))

pub add_limbs_lem :
    (r b : List ℕ) (carry : ℕ)
    → AllLimbs r
    → AllLimbs b
    → length r ≡ length b
    → carry ≤ 1
    → (value (add_limbs r b carry).0 + (add_limbs r b carry).1 * (2 ^ 32) ^ length r
        ≡ value r + value b + carry)
      × AllLimbs (add_limbs r b carry).0
      × (length (add_limbs r b carry).0 ≡ length r)
      × ((add_limbs r b carry).1 ≤ 1)
unfolding add_limbs value
add_limbs_lem [] [] carry hr hb len le = (omega arith, tt, refl, le)
add_limbs_lem [] (b ∷ bs) carry hr hb len le = absurd (omega arith)
add_limbs_lem (r ∷ rs) [] carry hr hb len le = absurd (omega arith)
add_limbs_lem (r ∷ rs) (b ∷ bs) carry hr hb len le =
    let s = (r + b + carry) % 2 ^ 64 in
    let rest = add_limbs_lem rs bs (s / 2 ^ 32) hr.1 hb.1 (omega arith) (omega arith) in
    (
      omega (arith, rest.0, carried (add_limbs rs bs (s / 2 ^ 32)).1 (length rs)),
      (omega arith, rest.1),
      ap suc rest.2,
      rest.3,
    )

sub_step :
    (r b borrow : ℕ)
    → r < 2 ^ 32
    → b < 2 ^ 32
    → borrow ≤ 1
    → ((r + 2 ^ 32 - (b + borrow)) % 2 ^ 32 + (b + borrow)
        ≡ r + (if ltb r (b + borrow) then 1 else 0) * 2 ^ 32)
      × ((if ltb r (b + borrow) then 1 else 0) ≤ 1)
sub_step r b borrow hr hb le = ground arith

pub sub_limbs_lem :
    (r b : List ℕ) (borrow : ℕ)
    → AllLimbs r
    → AllLimbs b
    → length r ≡ length b
    → borrow ≤ 1
    → (value (sub_limbs r b borrow).0 + value b + borrow
        ≡ value r + (sub_limbs r b borrow).1 * (2 ^ 32) ^ length r)
      × AllLimbs (sub_limbs r b borrow).0
      × (length (sub_limbs r b borrow).0 ≡ length r)
      × ((sub_limbs r b borrow).1 ≤ 1)
unfolding sub_limbs value
sub_limbs_lem [] [] borrow hr hb len le = (omega arith, tt, refl, le)
sub_limbs_lem [] (b ∷ bs) borrow hr hb len le = absurd (omega arith)
sub_limbs_lem (r ∷ rs) [] borrow hr hb len le = absurd (omega arith)
sub_limbs_lem (r ∷ rs) (b ∷ bs) borrow hr hb len le =
    let next : ℕ = if ltb r (b + borrow) then 1 else 0 in
    let step = sub_step r b borrow hr.0 hb.0 le in
    let rest = sub_limbs_lem rs bs next hr.1 hb.1 (omega arith) step.1 in
    (
      omega (arith, rest.0, step.0, carried (sub_limbs rs bs next).1 (length rs)),
      (omega arith, rest.1),
      ap suc rest.2,
      rest.3,
    )
