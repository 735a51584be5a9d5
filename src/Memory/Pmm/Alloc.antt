-- ===== src/Memory/Pmm/Alloc.antt =====
-- `pmm_alloc_page` and `pmm_free_page`: the lowest free page is handed out, the counter keeps to the
-- bitmap, and freeing a page just handed out gives back the state as it was.
use mathlib.Core.Bool.{false≢true}
use native.Mathlib.Decide.{ℕ_discrete, dec_lt}
use vyro_os.Base.{
  ℕ, zero, suc, ◌+◌, ◌-◌, ◌*◌, ◌/◌, ◌%◌, ◌^◌, ◌≤◌, ◌<◌, ◌≡◌, ◌⊎◌, inl, inr, refl, sym, ap, ◌∙◌,
  true, false, ◌&&◌, length, arith, ltb, lt→ltb, ◌==◌, ne→==, ==_refl, if◌then◌else◌, Bool-cases,
}
use vyro_os.Base.Bytes.{AllBytes}
use vyro_os.Memory.Pmm.{
  Pmm, page_size, mem_start, total_pages_default, bitmap_set, bitmap_clear, bitmap_test, alloc_from,
  pmm_alloc_page, page_of, pmm_free_page, pmm_used_pages,
}
use vyro_os.Memory.Pmm.Bitmap.{
  AllBytes-bitmap_set, AllBytes-bitmap_clear, bitmap_test-set, bitmap_test-clear, bitmap_clear-set,
  length-bitmap_set, length-bitmap_clear, marked, marked-le, marked-set, marked-clear,
  marked_of_test, marked_all,
}

-- The bitmap reaches as far as the pages do, and `used_count` counts the marked pages.
pub record IsValid (s : Pmm) : Type 0 where
  pub bytes : AllBytes s.bitmap
  pub reach : s.total_pages / 8 < length s.bitmap
  pub small : s.total_pages ≤ total_pages_default
  pub counted : s.used_count ≡ marked s.bitmap s.total_pages

-- What `pmm_alloc_page` leaves when it takes page `p`.
abbrev pub taken : Pmm → ℕ → Pmm
taken s p = record s { bitmap = bitmap_set s.bitmap p; used_count = (s.used_count + 1) % 2 ^ 32 }

-- The loop takes the first page that is not marked, or finds none.
alloc_from_lem :
    (s : Pmm) (i n : ℕ)
    → ((alloc_from s i n ≡ (s, 0)) × ((q : ℕ) → i ≤ q → q < i + n → bitmap_test s.bitmap q ≡ true))
      ⊎ ((p : ℕ) × (i ≤ p)
          × (p < i + n)
          × (bitmap_test s.bitmap p ≡ false)
          × ((q : ℕ) → i ≤ q → q < p → bitmap_test s.bitmap q ≡ true)
          × (alloc_from s i n ≡ (taken s p, mem_start + p * page_size)))
unfolding alloc_from
alloc_from_lem s i zero = inl (refl, λ q a b. absurd (omega arith))
alloc_from_lem s i (suc n) = elim (Bool-cases (bitmap_test s.bitmap i)) [
  | inr clear ↦
      inr (
        i,
        omega arith,
        omega arith,
        clear,
        (λ q a b. absurd (omega arith)),
        rw (clear, alloc_from),
      )
  | inl full ↦ elim (alloc_from_lem s (i + 1) n) [
    | inl (e, all) ↦
        inl (rw (full, alloc_from) e, λ q a b. first_or full q a (λ c. all q c (omega arith)))
    | inr (p, lo, hi, clear, below, e) ↦ inr (
      p,
      omega arith,
      omega arith,
      clear,
      (λ q a b. first_or full q a (λ c. below q c b)),
      rw (full, alloc_from) e,
    )
  ]
]
  where
    first_or :
        bitmap_test s.bitmap i ≡ true
        → (q : ℕ) → i ≤ q
        → (i + 1 ≤ q → bitmap_test s.bitmap q ≡ true)
        → bitmap_test s.bitmap q ≡ true
    first_or full q a more = elim (ℕ_discrete i q) [
      | yes same ↦ rw (← same) full
      | no other ↦ more (omega arith)
    ]

pub taken-IsValid :
    (s : Pmm) (p : ℕ)
    → IsValid s
    → p < s.total_pages
    → bitmap_test s.bitmap p ≡ false
    → IsValid (taken s p)
taken-IsValid s p v lt clear = record {
  bytes = AllBytes-bitmap_set s.bitmap p v.bytes;
  reach = omega (arith, length-bitmap_set s.bitmap p, v.reach);
  small = v.small;
  counted = ground (
    arith,
    v.counted,
    v.small,
    marked-le s.bitmap s.total_pages,
    marked-set s.bitmap p s.total_pages v.bytes (omega (arith, v.reach)) clear,
  );
}

-- What a successful allocation gives: the first page that was not marked, its address, and a state
-- in which that page alone has changed and one more page is counted.
abbrev pub Granted : Pmm → Pmm → ℕ → Type 0
Granted s s' addr =
    (p : ℕ) × (p < s.total_pages)
    × (bitmap_test s.bitmap p ≡ false)
    × (marked s.bitmap p ≡ p)
    × (addr ≡ mem_start + p * page_size)
    × ((q : ℕ) → bitmap_test s'.bitmap q ≡ (if p == q then true else bitmap_test s.bitmap q))
    × (pmm_used_pages s' ≡ pmm_used_pages s + 1)
    × IsValid s'

-- On a valid state `pmm_alloc_page` returns null exactly where every page is in use, and then
-- changes nothing; otherwise it grants the lowest free page.
pub pmm_alloc_page_lem :
    (s : Pmm)
    → IsValid s
    → ((pmm_used_pages s ≡ s.total_pages) × (pmm_alloc_page s ≡ (s, 0)))
      ⊎ ((pmm_used_pages s < s.total_pages) × Granted s (pmm_alloc_page s).0 (pmm_alloc_page s).1)
unfolding pmm_alloc_page pmm_used_pages
pmm_alloc_page_lem s v = elim (alloc_from_lem s 0 s.total_pages) [
  | inl (e, all) ↦
      inl (
        v.counted ∙ marked_all s.bitmap s.total_pages (λ q lt. all q (omega arith) (omega arith)),
        e,
      )
  | inr (p, lo, hi, clear, below, e) ↦
      let room = marked_of_test s.bitmap p s.total_pages (omega arith) clear in
      inr (
        omega (arith, v.counted, room),
        rw e (
          p,
          omega arith,
          clear,
          marked_all s.bitmap p (λ q lt. below q (omega arith) lt),
          refl,
          (λ q. bitmap_test-set s.bitmap p q v.bytes (omega (arith, v.reach))),
          omega (arith, v.counted, v.small, room),
          taken-IsValid s p v (omega arith) clear,
        ),
      )
]

-- A page's address leads back to the page.
page_of_address : (p : ℕ) → p < total_pages_default → page_of (mem_start + p * page_size) ≡ p
unfolding page_of
page_of_address p h = omega arith

pmm_free_page_marked :
    (s : Pmm) (addr : ℕ)
    → page_of addr < s.total_pages
    → bitmap_test s.bitmap (page_of addr) ≡ true
    → pmm_free_page s addr
      ≡ record s { bitmap = bitmap_clear s.bitmap (page_of addr); used_count = s.used_count - 1 }
unfolding pmm_free_page
pmm_free_page_marked s addr lt full = rw (lt→ltb _ _ lt, full, pmm_free_page)

pmm_free_page_ignored :
    (s : Pmm) (addr : ℕ)
    → (s.total_pages ≤ page_of addr) ⊎ (bitmap_test s.bitmap (page_of addr) ≡ false)
    → pmm_free_page s addr ≡ s
unfolding pmm_free_page
pmm_free_page_ignored s addr h = ground arith

-- Whatever the address, `pmm_free_page` keeps the invariant, clears at most the mark of the page
-- that the low 32 bits of the address fall in, and counts one page less exactly if it was marked.
pub pmm_free_page_lem :
    (s : Pmm) (addr : ℕ)
    → IsValid s
    → let s' = pmm_free_page s addr in
      IsValid s'
      × ((q : ℕ)
          → bitmap_test s'.bitmap q ≡ (
              if (page_of addr == q) && ltb q s.total_pages then false else bitmap_test s.bitmap q))
      × (pmm_used_pages s'
            + (if ltb (page_of addr) s.total_pages && bitmap_test s.bitmap (page_of addr)
                then 1
                else 0)
          ≡ pmm_used_pages s)
pmm_free_page_lem s addr v =
    elim (Bool-cases (ltb (page_of addr) s.total_pages && bitmap_test s.bitmap (page_of addr))) [
      | inl full ↦
          let lt : page_of addr < s.total_pages = ground arith in
          let there : bitmap_test s.bitmap (page_of addr) ≡ true = ground arith in
          let count =
            marked-clear s.bitmap (page_of addr) s.total_pages v.bytes (omega (arith, v.reach))
              there in
          rw (pmm_free_page_marked s addr lt there, full)
            (
              record {
                bytes = AllBytes-bitmap_clear s.bitmap (page_of addr) v.bytes;
                reach = omega (arith, length-bitmap_clear s.bitmap (page_of addr), v.reach);
                small = v.small;
                counted = ground (arith, count, v.counted);
              },
              (λ q.
                  bitmap_test-clear s.bitmap (page_of addr) q v.bytes (omega (arith, v.reach))
                  ∙ inside lt q),
              unfold pmm_used_pages in ground (arith, count, v.counted),
            )
      | inr not_full ↦
          rw (pmm_free_page_ignored s addr (ground arith), not_full)
            (v, (λ q. unmarked not_full q), omega arith)
    ]
  where
    inside :
        page_of addr < s.total_pages
        → (q : ℕ)
        → (if page_of addr == q then false else bitmap_test s.bitmap q)
          ≡ (if (page_of addr == q) && ltb q s.total_pages then false else bitmap_test s.bitmap q)
    inside lt q = ground arith

    unmarked :
        (ltb (page_of addr) s.total_pages && bitmap_test s.bitmap (page_of addr)) ≡ false
        → (q : ℕ)
        → bitmap_test s.bitmap q
          ≡ (if (page_of addr == q) && ltb q s.total_pages then false else bitmap_test s.bitmap q)
    unmarked e q = elim (ℕ_discrete (page_of addr) q) [
      | yes same ↦ rw (← same) (ground arith)
      | no other ↦ rw (ne→== (page_of addr) q other)
    ]

-- Freeing the page just handed out, or the null pointer where there was none, gives the state back.
pub pmm_free_page-alloc :
    (s : Pmm) → IsValid s → pmm_free_page (pmm_alloc_page s).0 (pmm_alloc_page s).1 ≡ s
pmm_free_page-alloc s v = elim (alloc_from_lem s 0 s.total_pages) [
  | inl (e, all) ↦
      unfold pmm_alloc_page in
      rw e (pmm_free_page_ignored s 0 (inl (unfold page_of in omega (arith, v.small))))
  | inr (p, lo, hi, clear, below, e) ↦
      let page : page_of (mem_start + p * page_size) ≡ p =
        page_of_address p (omega (arith, v.small)) in
      let test_p = bitmap_test-set s.bitmap p p v.bytes (omega (arith, v.reach)) in
      unfold pmm_alloc_page in
      rw e (
        pmm_free_page_marked (taken s p) (mem_start + p * page_size) (omega (arith, page))
          (ap (bitmap_test (bitmap_set s.bitmap p)) page ∙ rw (==_refl p) at test_p)
        ∙ rw page (
            undone p clear (omega (arith, v.reach))
              (marked_of_test s.bitmap p s.total_pages (omega arith) clear)))
]
  where
    undone :
        (p : ℕ)
        → bitmap_test s.bitmap p ≡ false
        → p / 8 < length s.bitmap
        → marked s.bitmap s.total_pages < s.total_pages
        → ◌≡◌ {A = Pmm}
            (record s {
              bitmap = bitmap_clear (bitmap_set s.bitmap p) p;
              used_count = (s.used_count + 1) % 2 ^ 32 - 1;
            })
            s
    undone p clear lt room =
        ground (arith, bitmap_clear-set s.bitmap p v.bytes lt clear, v.counted, v.small)

-- The first page that is not marked is the one handed out.
pub alloc_first :
    (s : Pmm) (p : ℕ)
    → IsValid s
    → p < s.total_pages
    → marked s.bitmap p ≡ p
    → bitmap_test s.bitmap p ≡ false
    → (pmm_alloc_page s).1 ≡ mem_start + p * page_size
unfolding pmm_alloc_page
alloc_first s p v lt below clear = elim (alloc_from_lem s 0 s.total_pages) [
  | inl (e, all) ↦ absurd (false≢true (sym clear ∙ all p (omega arith) (omega arith)))
  | inr (r, lo, hi, clear_r, below_r, e) ↦ elim (lt_trichotomy r p) [
    | inl less ↦ absurd (omega (arith, marked_of_test s.bitmap r p less clear_r))
    | inr (inl same) ↦ rw e (ap (λ n. mem_start + n * page_size) same)
    | inr (inr more) ↦ absurd (false≢true (sym clear ∙ below_r p (omega arith) more))
  ]
]
  where
    lt_trichotomy : (a b : ℕ) → (a < b) ⊎ ((a ≡ b) ⊎ (b < a))
    lt_trichotomy a b = elim (dec_lt a b) [
      | yes l ↦ inl l
      | no ge ↦ elim (ℕ_discrete a b) [ yes e ↦ inr (inl e) | no ne ↦ inr (inr (omega arith)) ]
    ]
