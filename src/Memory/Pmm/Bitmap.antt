-- ===== src/Memory/Pmm/Bitmap.antt =====
-- The bits of the map under a write, and the number of those set.
use native.Mathlib.Decide.{ℕ_discrete}
use vyro_os.Base.{
  ℕ, zero, suc, ◌+◌, ◌/◌, ◌%◌, ◌≤◌, ◌<◌, ◌≡◌, refl, ap, ◌∙◌, true, false, List, [], ◌∷◌, length,
  get_or, set, length-set, get_or-set_self, get_or-set_ne, arith, ltb, ◌==◌, if◌then◌else◌, ne→==,
}
use vyro_os.Base.Bits.{
  bit_test, bit_set, bit_clear, bit_test-set, bit_test-clear, bit_clear-lt, bit_clear-set,
  bit_test-full, bit_test-empty,
}
use vyro_os.Base.Bytes.{AllBytes, AllBytes-get_or}
use vyro_os.Memory.Pmm.{bitmap_set, bitmap_clear, bitmap_test}

AllBytes-set : (m : List ℕ) (i v : ℕ) → AllBytes m → v < 256 → AllBytes (set m i v)
AllBytes-set [] i v h lt = tt
AllBytes-set (b ∷ m) zero v h lt = (lt, h.1)
AllBytes-set (b ∷ m) (suc i) v h lt = (h.0, AllBytes-set m i v h.1 lt)

pub AllBytes-bitmap_set : (m : List ℕ) (p : ℕ) → AllBytes m → AllBytes (bitmap_set m p)
unfolding bitmap_set
AllBytes-bitmap_set m p h = AllBytes-set m (p / 8) _ h (omega arith)

pub AllBytes-bitmap_clear : (m : List ℕ) (p : ℕ) → AllBytes m → AllBytes (bitmap_clear m p)
unfolding bitmap_clear
AllBytes-bitmap_clear m p h =
    AllBytes-set m (p / 8) _ h
      (bit_clear-lt (get_or m (p / 8) 0) (p % 8) (AllBytes-get_or m (p / 8) h) (omega arith))

same_byte : (p q : ℕ) → p / 8 ≡ q / 8 → (p % 8 == q % 8) ≡ (p == q)
same_byte p q e = ground arith

-- Setting a page's bit sets that bit and no other.
pub bitmap_test-set :
    (m : List ℕ) (p q : ℕ)
    → AllBytes m
    → p / 8 < length m
    → bitmap_test (bitmap_set m p) q ≡ (if p == q then true else bitmap_test m q)
unfolding bitmap_set bitmap_test
bitmap_test-set m p q h lt = elim (ℕ_discrete (p / 8) (q / 8)) [
  | yes same ↦
      rw (← same, get_or-set_self m (p / 8) (bit_set (get_or m (p / 8) 0) (p % 8)) 0 lt)
        (bit_test-set (get_or m (p / 8) 0) (p % 8) (q % 8) (AllBytes-get_or m (p / 8) h)
            (omega arith) (omega arith)
          ∙ ap (λ t. if t then true else bit_test (get_or m (p / 8) 0) (q % 8))
              (same_byte p q same))
  | no other ↦ rw (
    get_or-set_ne m (p / 8) (q / 8) (bit_set (get_or m (p / 8) 0) (p % 8)) 0 other,
    ne→== p q (λ e. other (ap (λ n. n / 8) e)),
  )
]

-- Clearing a page's bit clears that bit and no other.
pub bitmap_test-clear :
    (m : List ℕ) (p q : ℕ)
    → AllBytes m
    → p / 8 < length m
    → bitmap_test (bitmap_clear m p) q ≡ (if p == q then false else bitmap_test m q)
unfolding bitmap_clear bitmap_test
bitmap_test-clear m p q h lt = elim (ℕ_discrete (p / 8) (q / 8)) [
  | yes same ↦
      rw (← same, get_or-set_self m (p / 8) (bit_clear (get_or m (p / 8) 0) (p % 8)) 0 lt)
        (bit_test-clear (get_or m (p / 8) 0) (p % 8) (q % 8) (AllBytes-get_or m (p / 8) h)
            (omega arith) (omega arith)
          ∙ ap (λ t. if t then false else bit_test (get_or m (p / 8) 0) (q % 8))
              (same_byte p q same))
  | no other ↦ rw (
    get_or-set_ne m (p / 8) (q / 8) (bit_clear (get_or m (p / 8) 0) (p % 8)) 0 other,
    ne→== p q (λ e. other (ap (λ n. n / 8) e)),
  )
]

set-set : (m : List ℕ) (i v w : ℕ) → set (set m i v) i w ≡ set m i w
set-set [] i v w = refl
set-set (b ∷ m) zero v w = refl
set-set (b ∷ m) (suc i) v w = ap (λ r. b ∷ r) (set-set m i v w)

set-get_or : (m : List ℕ) (i : ℕ) → set m i (get_or m i 0) ≡ m
set-get_or [] i = refl
set-get_or (b ∷ m) zero = refl
set-get_or (b ∷ m) (suc i) = ap (λ r. b ∷ r) (set-get_or m i)

-- Clearing a bit that was just set gives the map back.
pub bitmap_clear-set :
    (m : List ℕ) (p : ℕ)
    → AllBytes m
    → p / 8 < length m
    → bitmap_test m p ≡ false
    → bitmap_clear (bitmap_set m p) p ≡ m
unfolding bitmap_set bitmap_clear bitmap_test
bitmap_clear-set m p h lt clear =
    rw
      (
        get_or-set_self m (p / 8) (bit_set (get_or m (p / 8) 0) (p % 8)) 0 lt,
        bit_clear-set (get_or m (p / 8) 0) (p % 8) (AllBytes-get_or m (p / 8) h) (omega arith)
            clear,
        set-set m (p / 8) (bit_set (get_or m (p / 8) 0) (p % 8)) (get_or m (p / 8) 0),
      )
      (set-get_or m (p / 8))

pub length-bitmap_set : (m : List ℕ) (p : ℕ) → length (bitmap_set m p) ≡ length m
unfolding bitmap_set
length-bitmap_set m p = length-set m (p / 8) _

pub length-bitmap_clear : (m : List ℕ) (p : ℕ) → length (bitmap_clear m p) ≡ length m
unfolding bitmap_clear
length-bitmap_clear m p = length-set m (p / 8) _

-- How many of the first `n` pages are marked.
unfoldable pub marked : List ℕ → ℕ → ℕ
marked m zero = 0
marked m (suc n) = (if bitmap_test m n then 1 else 0) + marked m n

pub marked-le : (m : List ℕ) (n : ℕ) → marked m n ≤ n
unfolding marked
marked-le m zero = omega arith
marked-le m (suc n) = ground (arith, marked-le m n)

-- Marks outside the first `n` pages do not count, one inside counts once.
pub marked-set :
    (m : List ℕ) (p n : ℕ)
    → AllBytes m
    → p / 8 < length m
    → bitmap_test m p ≡ false
    → marked (bitmap_set m p) n ≡ marked m n + (if ltb p n then 1 else 0)
unfolding marked
marked-set m p zero h lt clear = ground arith
marked-set m p (suc n) h lt clear =
    ground (arith, marked-set m p n h lt clear, bitmap_test-set m p n h lt)

pub marked-clear :
    (m : List ℕ) (p n : ℕ)
    → AllBytes m
    → p / 8 < length m
    → bitmap_test m p ≡ true
    → marked (bitmap_clear m p) n + (if ltb p n then 1 else 0) ≡ marked m n
unfolding marked
marked-clear m p zero h lt full = ground arith
marked-clear m p (suc n) h lt full =
    ground (arith, marked-clear m p n h lt full, bitmap_test-clear m p n h lt)

pub marked_of_test : (m : List ℕ) (p n : ℕ) → p < n → bitmap_test m p ≡ false → marked m n < n
unfolding marked
marked_of_test m p zero lt clear = absurd (omega arith)
marked_of_test m p (suc n) lt clear = elim (ℕ_discrete p n) [
  | yes same ↦ rw (← same, clear) (omega (arith, marked-le m p))
  | no other ↦ ground (arith, marked_of_test m p n (omega arith) clear)
]

pub marked_all : (m : List ℕ) (n : ℕ) → ((q : ℕ) → q < n → bitmap_test m q ≡ true) → marked m n ≡ n
unfolding marked
marked_all m zero h = refl
marked_all m (suc n) h =
    rw (h n (omega arith)) (omega (arith, marked_all m n (λ q lt. h q (omega arith))))

pub marked_none :
    (m : List ℕ) (n : ℕ) → ((q : ℕ) → q < n → bitmap_test m q ≡ false) → marked m n ≡ 0
unfolding marked
marked_none m zero h = refl
marked_none m (suc n) h =
    rw (h n (omega arith)) (omega (arith, marked_none m n (λ q lt. h q (omega arith))))

pub test_of_get : (m : List ℕ) (q : ℕ) → get_or m (q / 8) 0 ≡ 255 → bitmap_test m q ≡ true
unfolding bitmap_test
test_of_get m q e = rw e (bit_test-full (q % 8) (omega arith))

pub test_of_empty : (m : List ℕ) (q : ℕ) → get_or m (q / 8) 0 ≡ 0 → bitmap_test m q ≡ false
unfolding bitmap_test
test_of_empty m q e = rw e (bit_test-empty (q % 8) (omega arith))
