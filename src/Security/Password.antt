-- ===== src/Security/Password.antt =====
-- `store_pw` and `check_pw`: which passwords are accepted.
use vyro_os.Base.{
  ℕ, zero, suc, ◌≤◌, ◌<◌, ◌≡◌, ◌≢◌, refl, sym, ap, ◌∙◌, Bool, true, false, List, [], ◌∷◌, ◌++◌,
  length, replicate, arith, ◌==◌, ==_refl, ==_iff, ne→==, if◌then◌else◌, bit_xor,
}
use native.Mathlib.Decide.{ℕ_discrete}
use vyro_os.Base.Bits.{all_below, all_below-holds}
use vyro_os.Base.Text.{c_str, str_eq}
use vyro_os.Security.{pw_max, store_from, store_pw, check_from, check_pw}

-- Bytes, none of them 0xA5, the byte that the code stores as 0.
abbrev pub Plain : List ℕ → Type 0
Plain [] = Unit
Plain (c ∷ cs) = (c < 256) × (c ≢ 0xA5) × Plain cs

back_table : all_below 256 (λ c. bit_xor (bit_xor c 0xA5) 0xA5 == c) ≡ true
unfolding all_below
back_table = refl

xor_back : (c : ℕ) → c < 256 → bit_xor (bit_xor c 0xA5) 0xA5 ≡ c
xor_back c h = (==_iff _ c).0 (all_below-holds 256 _ c back_table h)

xor_nonzero : (c : ℕ) → c < 256 → c ≢ 0xA5 → bit_xor c 0xA5 ≢ 0
xor_nonzero c h ne e = ne (sym (xor_back c h) ∙ ap (λ x. bit_xor x 0xA5) e)

-- Two bytes are stored alike only if they are the same.
xor_== : (c d : ℕ) → c < 256 → d < 256 → (bit_xor c 0xA5 == bit_xor d 0xA5) ≡ (c == d)
xor_== c d h k = elim (ℕ_discrete c d) [
  | yes e ↦ rw (e, ==_refl (bit_xor d 0xA5), ==_refl d) refl
  | no ne ↦
      ne→== _ _ (λ e. ne (sym (xor_back c h) ∙ ap (λ x. bit_xor x 0xA5) e ∙ xor_back d k))
      ∙ sym (ne→== c d ne)
]

store_step :
    (d : ℕ) (ds : List ℕ) (n : ℕ)
    → d ≢ 0
    → store_from (d ∷ ds) (suc n) ≡ bit_xor d 0xA5 ∷ store_from ds n
unfolding store_from
store_step d ds n nz = rw (ne→== d 0 nz, store_from) refl

check_step :
    (c : ℕ) (cs : List ℕ) (s : ℕ) (ss : List ℕ) (n : ℕ)
    → c ≢ 0
    → check_from (c ∷ cs) (s ∷ ss) (suc n)
      ≡ (if bit_xor c 0xA5 == s then check_from cs ss n else false)
unfolding check_from
check_step c cs s ss n nz = rw (ne→== c 0 nz, check_from) refl

-- A stored password that leaves a byte of the array free accepts what is equal to it and nothing
-- else, whatever stands behind the array.
pub check_from-store_from :
    (q p : List ℕ) (n beyond : ℕ)
    → Plain q
    → Plain p
    → length (c_str p) < n
    → check_from q (store_from p n ++ (beyond ∷ [])) n ≡ str_eq q p
unfolding check_from store_from str_eq
check_from-store_from q p zero beyond hq hp lt = absurd (omega arith)
check_from-store_from [] [] (suc n) beyond hq hp lt = refl
check_from-store_from [] (d ∷ ds) (suc n) beyond hq hp lt = elim (ℕ_discrete d 0) [
  | yes z ↦ rw z refl
  | no nz ↦
      rw (store_step d ds n nz, ne→== d 0 nz) (ne→== (bit_xor d 0xA5) 0 (xor_nonzero d hp.0 hp.1))
]
check_from-store_from (c ∷ cs) [] (suc n) beyond hq hp lt = elim (ℕ_discrete c 0) [
  | yes z ↦ rw z refl
  | no nz ↦
      rw
        (
          check_step c cs 0 (replicate n 0 ++ (beyond ∷ [])) n nz,
          ne→== c 0 nz,
          ne→== (bit_xor c 0xA5) 0 (xor_nonzero c hq.0 hq.1),
        )
        refl
]
check_from-store_from (c ∷ cs) (d ∷ ds) (suc n) beyond hq hp lt = elim (ℕ_discrete d 0) [
  | yes z ↦ elim (ℕ_discrete c 0) [
    | yes y ↦ rw (z, y) refl
    | no nz ↦
        rw
          (
            z,
            check_step c cs 0 (replicate n 0 ++ (beyond ∷ [])) n nz,
            ne→== c 0 nz,
            ne→== (bit_xor c 0xA5) 0 (xor_nonzero c hq.0 hq.1),
          )
          refl
  ]
  | no nz ↦ elim (ℕ_discrete c 0) [
    | yes y ↦
        rw (y, store_step d ds n nz, ne→== d 0 nz)
          (ne→== (bit_xor d 0xA5) 0 (xor_nonzero d hp.0 hp.1))
    | no ny ↦
        rw
          (
            store_step d ds n nz,
            check_step c cs (bit_xor d 0xA5) (store_from ds n ++ (beyond ∷ [])) n ny,
            ne→== c 0 ny,
            ne→== d 0 nz,
            xor_== c d hq.0 hp.0,
          )
          (if_cong (c == d) (check_from-store_from cs ds n beyond hq.2 hp.2 (shorter d ds nz lt)))
  ]
]
  where
    shorter :
        (d : ℕ) (ds : List ℕ) → d ≢ 0 → length (c_str (d ∷ ds)) < suc n → length (c_str ds) < n
    shorter d ds nz lt = let lt' = rw (ne→== d 0 nz) at lt in omega arith

    if_cong : (b : Bool) {x y : Bool} → x ≡ y → (if b then x else false) ≡ (if b then y else false)
    if_cong b e = ap (λ z. if b then z else false) e

-- A password of less than 32 bytes without the byte 0xA5: what was stored accepts the same
-- password and, of the others without that byte, none.
pub check_pw-store_pw :
    (q p : List ℕ) (beyond : ℕ)
    → Plain q
    → Plain p
    → length (c_str p) < pw_max
    → check_pw q (store_pw p ++ (beyond ∷ [])) ≡ str_eq q p
unfolding check_pw store_pw
check_pw-store_pw q p beyond hq hp lt = check_from-store_from q p pw_max beyond hq hp lt

check_from_full :
    (q p : List ℕ) (n beyond : ℕ)
    → Plain p
    → beyond ≢ 0
    → n ≤ length (c_str p)
    → check_from q (store_from p n ++ (beyond ∷ [])) n ≡ false
unfolding check_from store_from
check_from_full [] p zero beyond hp ne le = ne→== beyond 0 ne
check_from_full (c ∷ cs) p zero beyond hp ne le = ne→== beyond 0 ne
check_from_full q [] (suc n) beyond hp ne le = absurd (omega arith)
check_from_full q (d ∷ ds) (suc n) beyond hp ne le = elim (ℕ_discrete d 0) [
  | yes z ↦ absurd (let le' = rw z at le in omega arith)
  | no nz ↦
      rw (store_step d ds n nz)
        (by_head (λ cs. check_from_full cs ds n beyond hp.2 ne (longer nz)) nz q)
]
  where
    longer : d ≢ 0 → n ≤ length (c_str ds)
    longer nz = let le' = rw (ne→== d 0 nz) at le in omega arith

    either : (b : Bool) {x : Bool} → x ≡ false → (if b then x else false) ≡ false
    either b e = ground arith

    by_head :
        ((cs : List ℕ) → check_from cs (store_from ds n ++ (beyond ∷ [])) n ≡ false)
        → d ≢ 0
        → (q : List ℕ)
        → check_from q (bit_xor d 0xA5 ∷ store_from ds n ++ (beyond ∷ [])) (suc n) ≡ false
    by_head rest nz [] = ne→== (bit_xor d 0xA5) 0 (xor_nonzero d hp.0 hp.1)
    by_head rest nz (c ∷ cs) = elim (ℕ_discrete c 0) [
      | yes z ↦ rw z (ne→== (bit_xor d 0xA5) 0 (xor_nonzero d hp.0 hp.1))
      | no ny ↦
          check_step c cs (bit_xor d 0xA5) (store_from ds n ++ (beyond ∷ [])) n ny
          ∙ either (bit_xor c 0xA5 == bit_xor d 0xA5) (rest cs)
    ]

-- A password of 32 bytes or more without the byte 0xA5 is stored so that nothing is accepted, the
-- password itself included, as long as the byte behind the array is not 0.
pub check_pw_full :
    (q p : List ℕ) (beyond : ℕ)
    → Plain p
    → beyond ≢ 0
    → pw_max ≤ length (c_str p)
    → check_pw q (store_pw p ++ (beyond ∷ [])) ≡ false
unfolding check_pw store_pw
check_pw_full q p beyond hp ne le = check_from_full q p pw_max beyond hp ne le
