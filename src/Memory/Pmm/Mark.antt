-- ===== src/Memory/Pmm/Mark.antt =====
-- `mark_range` and `pmm_apply_memmap`: which pages are free once the firmware's map is applied.
use native.Mathlib.Decide.{ℕ_discrete, dec_lt}
use vyro_os.Base.{
  ℕ, zero, suc, ◌+◌, ◌-◌, ◌*◌, ◌/◌, ◌%◌, ◌^◌, ◌≤◌, ◌<◌, ◌≡◌, ◌⊎◌, inl, inr, refl, ap, ◌∙◌, Bool,
  true, false, ◌&&◌, length, arith, ltb, leb, ◌==◌, ne→==, if◌then◌else◌, Bool-cases,
}
use vyro_os.Memory.Pmm.{
  Pmm, page_size, mem_start, bitmap_test, mark_page, mark_pages, mark_from, mark_range,
}
use vyro_os.Memory.Pmm.Bitmap.{
  AllBytes-bitmap_clear, bitmap_test-set, bitmap_test-clear, length-bitmap_clear, marked-clear,
}
use vyro_os.Memory.Pmm.Alloc.{IsValid, taken-IsValid}

-- What a marking leaves: a valid state over as many pages, with the given test for each of them.
abbrev pub Marked : Pmm → Pmm → (ℕ → Bool) → Type 0
Marked s s' test =
    IsValid s'
    × (s'.total_pages ≡ s.total_pages)
    × ((q : ℕ) → q < s.total_pages → bitmap_test s'.bitmap q ≡ test q)

pub mark_page_lem :
    (busy : Bool) (s : Pmm) (p : ℕ)
    → IsValid s
    → p < s.total_pages
    → Marked s (mark_page busy s p) (λ q. if p == q then busy else bitmap_test s.bitmap q)
unfolding mark_page
mark_page_lem true s p v lt = elim (Bool-cases (bitmap_test s.bitmap p)) [
  | inl full ↦ rw (full, mark_page) (v, refl, λ q h. same full q)
  | inr clear ↦
      rw (clear, mark_page)
        (
          taken-IsValid s p v lt clear,
          refl,
          λ q h. bitmap_test-set s.bitmap p q v.bytes (omega (arith, v.reach)),
        )
]
  where
    same :
        bitmap_test s.bitmap p ≡ true
        → (q : ℕ) → bitmap_test s.bitmap q ≡ (if p == q then true else bitmap_test s.bitmap q)
    same full q = elim (ℕ_discrete p q) [
      | yes e ↦ rw (← e, full) (ground arith)
      | no ne ↦ rw (ne→== p q ne)
    ]
mark_page_lem false s p v lt = elim (Bool-cases (bitmap_test s.bitmap p)) [
  | inr clear ↦ rw (clear, mark_page) (v, refl, λ q h. same clear q)
  | inl full ↦
      let count = marked-clear s.bitmap p s.total_pages v.bytes (omega (arith, v.reach)) full in
      rw (full, mark_page)
        (
          record {
            bytes = AllBytes-bitmap_clear s.bitmap p v.bytes;
            reach = omega (arith, length-bitmap_clear s.bitmap p, v.reach);
            small = v.small;
            counted = ground (arith, count, v.counted);
          },
          refl,
          λ q h. bitmap_test-clear s.bitmap p q v.bytes (omega (arith, v.reach)),
        )
]
  where
    same :
        bitmap_test s.bitmap p ≡ false
        → (q : ℕ) → bitmap_test s.bitmap q ≡ (if p == q then false else bitmap_test s.bitmap q)
    same clear q = elim (ℕ_discrete p q) [
      | yes e ↦ rw (← e, clear) (ground arith)
      | no ne ↦ rw (ne→== p q ne)
    ]

mark_pages_lem :
    (busy : Bool) (s : Pmm) (p n : ℕ)
    → IsValid s
    → p + n ≤ s.total_pages ⊎ (n ≡ 0)
    → Marked s
        (mark_pages busy s p n)
        (λ q. if leb p q && ltb q (p + n) then busy else bitmap_test s.bitmap q)
unfolding mark_pages
mark_pages_lem busy s p zero v le = (v, refl, λ q h. ground arith)
mark_pages_lem busy s p (suc n) v le =
    let (v', t', each) = mark_page_lem busy s p v (omega arith) in
    let (v'', t'', each') = mark_pages_lem busy (mark_page busy s p) (p + 1) n v' (omega arith) in
    (v'', t'' ∙ t', λ q h. each' q (omega arith) ∙ merged q (each q h))
  where
    merged :
        (q : ℕ)
        → bitmap_test (mark_page busy s p).bitmap q
          ≡ (if p == q then busy else bitmap_test s.bitmap q)
        → (if leb (p + 1) q && ltb q (p + 1 + n)
            then busy
            else bitmap_test (mark_page busy s p).bitmap q)
          ≡ (if leb p q && ltb q (p + suc n) then busy else bitmap_test s.bitmap q)
    merged q e = ground arith

-- Whether page `q` holds a byte of the `length` bytes from `base` on.
abbrev pub touches : ℕ → ℕ → ℕ → Bool
touches base length q =
    ltb (mem_start + q * page_size) (base + length)
    && (ltb base (mem_start + (q + 1) * page_size) && ltb 0 length)

first_of_range :
    (base : ℕ)
    → base ≤ 2 ^ 44
    → (base - mem_start) / page_size % 2 ^ 32 ≡ (base - mem_start) / page_size
first_of_range base h = omega arith

last_of_range :
    (top : ℕ)
    → mem_start ≤ top
    → top ≤ 2 ^ 44
    → (top % 2 ^ 64 + 2 ^ 64 - mem_start + page_size - 1) % 2 ^ 64 / page_size % 2 ^ 32
      ≡ (top - mem_start + page_size - 1) / page_size
last_of_range top h k = omega arith

-- The pages from the first to the last, cut at the total, are those touched.
range_touches :
    (base length total last q : ℕ)
    → mem_start ≤ base
    → 0 < length
    → q < total
    → last ≡ (
        if ltb total ((base + length - mem_start + page_size - 1) / page_size)
        then total
        else (base + length - mem_start + page_size - 1) / page_size)
    → (leb ((base - mem_start) / page_size) q
        && ltb q ((base - mem_start) / page_size + (last - (base - mem_start) / page_size)))
      ≡ touches base length q
range_touches base length total last q lo pos lt e = ground arith

room :
    (total l f : ℕ)
    → (f + ((if ltb total l then total else l) - f) ≤ total)
      ⊎ ((if ltb total l then total else l) - f ≡ 0)
room total l f = elim (dec_lt f total) [
  | yes below ↦ inl (ground arith)
  | no beyond ↦ inr (ground arith)
]

mark_from_lem :
    (busy : Bool) (s : Pmm) (base length : ℕ)
    → IsValid s
    → mem_start ≤ base
    → 0 < length
    → base + length ≤ 2 ^ 44
    → Marked s
        (mark_from busy s base length)
        (λ q. if touches base length q then busy else bitmap_test s.bitmap q)
unfolding mark_from
mark_from_lem busy s base length v lo pos le =
    rw (first_of_range base (omega arith), last_of_range (base + length) (omega arith) le)
      (let last =
          (if ltb s.total_pages ((base + length - mem_start + page_size - 1) / page_size)
            then s.total_pages
            else (base + length - mem_start + page_size - 1) / page_size) in
        let (v', t, each) =
          mark_pages_lem busy s ((base - mem_start) / page_size)
            (last - (base - mem_start) / page_size) v
            (room s.total_pages ((base + length - mem_start + page_size - 1) / page_size)
              ((base - mem_start) / page_size)) in
        (
          v',
          t,
          λ q h.
              each q h
              ∙ ap (λ b. if b then busy else bitmap_test s.bitmap q)
                  (range_touches base length s.total_pages last q lo pos h refl),
        ))

-- A range that ends below 2 ^ 44 marks exactly the pages that it touches, whole or in part.
pub mark_range_lem :
    (busy : Bool) (s : Pmm) (base length : ℕ)
    → IsValid s
    → base + length ≤ 2 ^ 44
    → Marked s
        (mark_range busy s base length)
        (λ q. if touches base length q then busy else bitmap_test s.bitmap q)
mark_range_lem busy s base length v le = elim (Bool-cases (length == 0)) [
  | inl empty ↦ unfold mark_range in rw (empty, mark_range) (v, refl, λ q h. rw (untouched empty q))
  | inr full ↦ elim (Bool-cases (ltb base mem_start)) [
    | inr high ↦
        unfold mark_range in
        rw (full, mark_range, high)
          (mark_from_lem busy s base length v (ground arith) (ground arith) le)
    | inl low ↦ elim (Bool-cases (leb length (mem_start - base))) [
      | inl short ↦
          unfold mark_range in
          rw (full, mark_range, low, short) (v, refl, λ q h. rw (below short q))
      | inr long ↦
          let (v', t, each) =
            mark_from_lem busy s mem_start (length - (mem_start - base)) v (omega arith)
              (ground arith) (ground arith) in
          unfold mark_range in
          rw (full, mark_range, low, long)
            (
              v',
              t,
              λ q h.
                  each q h ∙ ap (λ b. if b then busy else bitmap_test s.bitmap q) (cut low long q),
            )
    ]
  ]
]
  where
    untouched : (length == 0) ≡ true → (q : ℕ) → touches base length q ≡ false
    untouched e q = ground arith

    below : leb length (mem_start - base) ≡ true → (q : ℕ) → touches base length q ≡ false
    below e q = ground arith

    cut :
        ltb base mem_start ≡ true
        → leb length (mem_start - base) ≡ false
        → (q : ℕ) → touches mem_start (length - (mem_start - base)) q ≡ touches base length q
    cut e e' q = ground arith
