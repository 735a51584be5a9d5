-- ===== src/Base/Text.antt =====
-- C strings: the bytes up to the first NUL, and the bounded copies that the kernel's parts repeat
-- (`scpy`, `tstrcpy`, `vstrcpy`), and their comparisons (`scmp`, `vstrcmp`, `pkg_strcmp`).
use Prim.Native.Nat.{ℕ, zero, suc, ◌+◌, ◌-◌, ◌≤◌, ◌<◌}
use mathlib.Core.Path.{◌≡◌, refl, sym, ap, ◌∙◌}
use mathlib.Core.Bool.{Bool, true, false}
use mathlib.Core.Logic.{◌≢◌, ◌↔◌}
use mathlib.Core.List.{List, [], ◌∷◌, ◌++◌, append-nil, append_assoc}
use native.Mathlib.Numerals.{add-one}
use native.Mathlib.Omega.{arith}
use vyro_os.Base.Tests.{ltb, ◌==◌, if◌then◌else◌}
use vyro_os.Base.Lists.{length, set, take, length-set}

-- What a C string function sees of an array: the bytes before the first NUL.
abbrev pub c_str : List ℕ → List ℕ
c_str [] = []
c_str (c ∷ cs) = if c == 0 then [] else c ∷ c_str cs

-- `i = 0; while (src[i] && i < max - 1) { dst[i] = src[i]; i++; } dst[i] = 0;`
unfoldable pub copy_from : List ℕ → ℕ → List ℕ → ℕ → List ℕ
copy_from dst i [] max = set dst i 0
copy_from dst i (c ∷ cs) max = elim (c == 0) [
  | true ↦ set dst i 0
  | false ↦ elim (ltb i (max - 1)) [
    | true ↦ copy_from (set dst i c) (i + 1) cs max
    | false ↦ set dst i 0
  ]
]

unfoldable pub copy_str : List ℕ → List ℕ → ℕ → List ℕ
copy_str dst src max = copy_from dst 0 src max

-- `while (*a && *b && *a == *b) { a++; b++; } return *a - *b;`, read as equal to 0.
unfoldable pub str_eq : List ℕ → List ℕ → Bool
str_eq [] [] = true
str_eq [] (b ∷ bs) = b == 0
str_eq (a ∷ as') [] = a == 0
str_eq (a ∷ as') (b ∷ bs) =
    if a == 0 then b == 0 else if b == 0 then false else if a == b then str_eq as' bs else false

pub length-copy_from :
    (dst : List ℕ) (i : ℕ) (src : List ℕ) (max : ℕ) → length (copy_from dst i src max) ≡ length dst
unfolding copy_from
length-copy_from dst i [] max = length-set dst i 0
length-copy_from dst i (c ∷ cs) max =
    ground
      (arith, length-set dst i 0, length-set dst i c, length-copy_from (set dst i c) (i + 1) cs max)

-- The comparison says equal exactly for equal C strings.
pub str_eq_iff : (s t : List ℕ) → (str_eq s t ≡ true) ↔ (c_str s ≡ c_str t)
unfolding str_eq
str_eq_iff [] [] = (λ h. refl, λ h. refl)
str_eq_iff [] (b ∷ bs) = ground arith
str_eq_iff (a ∷ as') [] = ground arith
str_eq_iff (a ∷ as') (b ∷ bs) = ground (arith, str_eq_iff as' bs)

take-set :
    (dst : List ℕ) (i c : ℕ) → i < length dst → take (suc i) (set dst i c) ≡ take i dst ++ (c ∷ [])
take-set [] i c h = absurd (omega arith)
take-set (x ∷ xs) zero c h = refl
take-set (x ∷ xs) (suc i) c h = ap (λ r. x ∷ r) (take-set xs i c (omega arith))

c_str-set_zero :
    (dst : List ℕ) (i : ℕ)
    → i < length dst
    → c_str (take i dst) ≡ take i dst
    → c_str (set dst i 0) ≡ take i dst
c_str-set_zero [] i h e = absurd (omega arith)
c_str-set_zero (x ∷ xs) zero h e = refl
c_str-set_zero (x ∷ xs) (suc i) h e = ground (arith, c_str-set_zero xs i)

c_str-snoc : (xs : List ℕ) (c : ℕ) → c ≢ 0 → c_str xs ≡ xs → c_str (xs ++ (c ∷ [])) ≡ xs ++ (c ∷ [])
c_str-snoc [] c h e = ground arith
c_str-snoc (x ∷ xs) c h e = ground (arith, c_str-snoc xs c h)

pub take-suc : (k b : ℕ) (bs : List ℕ) → 0 < k → take k (b ∷ bs) ≡ b ∷ take (k - 1) bs
take-suc zero b bs h = absurd (omega arith)
take-suc (suc k) b bs h = ap (λ n. b ∷ take n bs) (omega arith)

pub take-nil : (n : ℕ) (xs : List ℕ) → xs ++ take n [] ≡ xs
take-nil zero xs = append-nil xs
take-nil (suc n) xs = append-nil xs

-- The code counts up to the bound, `take` counts down.
pub take_pos :
    (n x : ℕ) (xs : List ℕ) → take n (x ∷ xs) ≡ (if n == 0 then [] else x ∷ take (n - 1) xs)
take_pos zero x xs = refl
take_pos (suc n) x xs = ground arith

c_str-copy_from :
    (dst : List ℕ) (i : ℕ) (src : List ℕ) (max : ℕ)
    → i < max
    → max ≤ length dst
    → c_str (take i dst) ≡ take i dst
    → c_str (copy_from dst i src max) ≡ take i dst ++ take (max - 1 - i) (c_str src)
unfolding copy_from
c_str-copy_from dst i [] max hi hm e =
    c_str-set_zero dst i (omega arith) e ∙ sym (take-nil (max - 1 - i) (take i dst))
c_str-copy_from dst i (c ∷ cs) max hi hm e = ground (
  arith,
  c_str-set_zero dst i,
  c_str-copy_from (set dst i c) (i + 1) cs max,
  length-set dst i c,
  add-one i,
  take-set dst i c,
  c_str-snoc (take i dst) c,
  append_assoc (take i dst) (c ∷ []) (take (max - 1 - (i + 1)) (c_str cs)),
  take-nil (max - 1 - i) (take i dst),
  take_pos (max - 1 - i) c (c_str cs),
  append-nil (take i dst),
)

-- A copy into an array of at least `max` bytes leaves the string cut to `max - 1` bytes there.
pub c_str-copy_str :
    (dst src : List ℕ) (max : ℕ)
    → 0 < max
    → max ≤ length dst
    → c_str (copy_str dst src max) ≡ take (max - 1) (c_str src)
unfolding copy_str
c_str-copy_str dst src max h hm =
    c_str-copy_from dst 0 src max h hm refl ∙ ap (λ n. take n (c_str src)) (omega arith)
