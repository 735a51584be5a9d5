-- ===== src/Memory/Pmm/Apply.antt =====
-- `pmm_init` and `pmm_apply_memmap`: which pages are free once the firmware's map is applied.
use vyro_os.Base.{
  ℕ, zero, suc, ◌+◌, ◌-◌, ◌/◌, ◌%◌, ◌^◌, ◌≤◌, ◌<◌, ◌≡◌, refl, sym, ap, ◌∙◌, Bool, true, false, ◌&&◌,
  ◌||◌, not, List, [], ◌∷◌, length, get_or, arith, ltb, lt→leb, ◌==◌, if◌then◌else◌, Bool-cases,
  inl, inr,
}
use vyro_os.Base.Bytes.{AllBytes}
use vyro_os.Memory.Memmap.{Entry, Memmap, usable, reserved, acpi_nvs, bad}
use vyro_os.Memory.Pmm.{
  Pmm, page_size, mem_start, mem_end_default, total_pages_default, bitmap_test, mark_page,
  mark_range, fill, pmm_init, free_usable, mark_reserved, all_marked, apply_entries, cap_end,
  pmm_apply_memmap,
}
use vyro_os.Memory.Pmm.Bitmap.{marked_all, marked_none, test_of_get, test_of_empty}
use vyro_os.Memory.Pmm.Alloc.{IsValid}
use vyro_os.Memory.Pmm.Mark.{Marked, touches, mark_page_lem, mark_range_lem}

-- Every entry ends below 16 TB, where page numbers are 32-bit numbers.
abbrev pub Small : List Entry → Type 0
Small [] = Unit
Small (e ∷ es) = (e.base + e.length ≤ 2 ^ 44) × Small es

abbrev pub must_not_use : ℕ → Bool
must_not_use kind = (kind == reserved) || ((kind == acpi_nvs) || (kind == bad))

-- Whether some usable entry, or some entry that must not be handed out, touches page `q`.
abbrev pub any_usable : List Entry → ℕ → Bool
any_usable [] q = false
any_usable (e ∷ es) q = ((e.kind == usable) && touches e.base e.length q) || any_usable es q

abbrev pub any_reserved : List Entry → ℕ → Bool
any_reserved [] q = false
any_reserved (e ∷ es) q = (must_not_use e.kind && touches e.base e.length q) || any_reserved es q

free_usable_lem :
    (es : List Entry) (s : Pmm)
    → IsValid s
    → Small es
    → Marked s (free_usable es s) (λ q. if any_usable es q then false else bitmap_test s.bitmap q)
unfolding free_usable
free_usable_lem [] s v small = (v, refl, λ q h. refl)
free_usable_lem (e ∷ es) s v small = elim (Bool-cases (e.kind == usable)) [
  | inr other ↦
      let (v', t, each) = free_usable_lem es s v small.1 in
      rw (other, free_usable) (v', t, λ q h. each q h)
  | inl use_it ↦
      let (v', t, each) = mark_range_lem false s e.base e.length v small.0 in
      let (v'', t', each') = free_usable_lem es (mark_range false s e.base e.length) v' small.1 in
      rw (use_it, free_usable)
        (
          v'',
          t' ∙ t,
          λ q h.
              each' q (omega (arith, t))
              ∙ both (touches e.base e.length q) (any_usable es q) (bitmap_test s.bitmap q)
                  (each q h),
        )
]
  where
    both :
        (a b c : Bool) {d : Bool}
        → d ≡ (if a then false else c)
        → (if b then false else d) ≡ (if (true && a) || b then false else c)
    both a b c e' = ground arith

mark_reserved_lem :
    (es : List Entry) (s : Pmm)
    → IsValid s
    → Small es
    → Marked s
        (mark_reserved es s)
        (λ q. if any_reserved es q then true else bitmap_test s.bitmap q)
unfolding mark_reserved
mark_reserved_lem [] s v small = (v, refl, λ q h. refl)
mark_reserved_lem (e ∷ es) s v small = elim (Bool-cases (must_not_use e.kind)) [
  | inr other ↦
      let (v', t, each) = mark_reserved_lem es s v small.1 in
      rw (other, mark_reserved) (v', t, λ q h. each q h)
  | inl keep ↦
      let (v', t, each) = mark_range_lem true s e.base e.length v small.0 in
      let (v'', t', each') = mark_reserved_lem es (mark_range true s e.base e.length) v' small.1 in
      rw (keep, mark_reserved)
        (
          v'',
          t' ∙ t,
          λ q h.
              each' q (omega (arith, t))
              ∙ both (touches e.base e.length q) (any_reserved es q) (bitmap_test s.bitmap q)
                  (each q h),
        )
]
  where
    both :
        (a b c : Bool) {d : Bool}
        → d ≡ (if a then true else c)
        → (if b then true else d) ≡ (if (true && a) || b then true else c)
    both a b c e' = ground arith

AllBytes-fill : (n v : ℕ) (m : List ℕ) → v < 256 → AllBytes m → AllBytes (fill n v m)
unfolding fill
AllBytes-fill zero v m lt h = h
AllBytes-fill (suc n) v [] lt h = tt
AllBytes-fill (suc n) v (b ∷ m) lt h = (lt, AllBytes-fill n v m lt h.1)

length-fill : (n v : ℕ) (m : List ℕ) → length (fill n v m) ≡ length m
unfolding fill
length-fill zero v m = refl
length-fill (suc n) v [] = refl
length-fill (suc n) v (b ∷ m) = ap suc (length-fill n v m)

get_or-fill : (n v i : ℕ) (m : List ℕ) → i < n → i < length m → get_or (fill n v m) i 0 ≡ v
unfolding fill
get_or-fill zero v i m a b = absurd (omega arith)
get_or-fill (suc n) v i [] a b = absurd (omega arith)
get_or-fill (suc n) v zero (x ∷ m) a b = refl
get_or-fill (suc n) v (suc i) (x ∷ m) a b = get_or-fill n v i m (omega arith) (omega arith)

-- The memory at `PMM_BITMAP_ADDR` reaches as far as the pages that the kernel can manage.
pub record HasBitmap (s : Pmm) : Type 0 where
  pub bytes : AllBytes s.bitmap
  pub reach : total_pages_default / 8 < length s.bitmap

-- `pmm_init` leaves a valid state, every page free.
pub pmm_init_lem :
    (s : Pmm) (q : ℕ)
    → HasBitmap s
    → q < total_pages_default
    → IsValid (pmm_init s) × (bitmap_test (pmm_init s).bitmap q ≡ false)
unfolding pmm_init
pmm_init_lem s q b lt = (
  record {
    bytes = AllBytes-fill (total_pages_default / 8 + 1) 0 s.bitmap (omega arith) b.bytes;
    reach = omega (arith, length-fill (total_pages_default / 8 + 1) 0 s.bitmap, b.reach);
    small = omega arith;
    counted =
        sym (marked_none (fill (total_pages_default / 8 + 1) 0 s.bitmap) total_pages_default empty);
  },
  empty q lt,
)
  where
    empty :
        (p : ℕ)
        → p < total_pages_default
        → bitmap_test (fill (total_pages_default / 8 + 1) 0 s.bitmap) p ≡ false
    empty p h = test_of_empty (fill (total_pages_default / 8 + 1) 0 s.bitmap) p (
        get_or-fill (total_pages_default / 8 + 1) 0 (p / 8) s.bitmap (omega arith)
          (omega (arith, b.reach)))

all_marked_lem :
    (s : Pmm) (total : ℕ)
    → HasBitmap s
    → total ≤ total_pages_default
    → IsValid (all_marked s total)
      × ((q : ℕ) → q < total → bitmap_test (all_marked s total).bitmap q ≡ true)
unfolding all_marked
all_marked_lem s total b le = (
  record {
    bytes = AllBytes-fill (total / 8 + 1) 255 s.bitmap (omega arith) b.bytes;
    reach = omega (arith, length-fill (total / 8 + 1) 255 s.bitmap, b.reach);
    small = le;
    counted = sym (marked_all (fill (total / 8 + 1) 255 s.bitmap) total full);
  },
  full,
)
  where
    full : (q : ℕ) → q < total → bitmap_test (fill (total / 8 + 1) 255 s.bitmap) q ≡ true
    full q lt =
        test_of_get (fill (total / 8 + 1) 255 s.bitmap) q
          (get_or-fill (total / 8 + 1) 255 (q / 8) s.bitmap (omega arith) (omega (arith, b.reach)))

apply_entries_lem :
    (es : List Entry) (s : Pmm)
    → IsValid s
    → Small es
    → ((q : ℕ) → q < s.total_pages → bitmap_test s.bitmap q ≡ true)
    → Marked s (apply_entries es s) (λ q. any_reserved es q || not (any_usable es q))
unfolding apply_entries
apply_entries_lem es s v small full =
    let (v', t, each) = free_usable_lem es s v small in
    let (v'', t', each') = mark_reserved_lem es (free_usable es s) v' small in
    (
      v'',
      t' ∙ t,
      λ q h.
          each' q (omega (arith, t))
          ∙ both (any_usable es q) (any_reserved es q) (each q h) (full q h),
    )
  where
    both :
        (a b : Bool) {c d : Bool}
        → d ≡ (if a then false else c)
        → c ≡ true
        → (if b then true else d) ≡ (b || not a)
    both a b e f = ground arith

apply_initialized :
    (mm : Memmap) (s : Pmm)
    → mm.initialized ≡ true
    → mem_start < cap_end mm
    → pmm_apply_memmap mm s ≡ (
        let total = (cap_end mm - mem_start) / page_size % 2 ^ 32 in
        let marked = apply_entries mm.entries (all_marked s total) in
        (if ltb 0 total then mark_page true marked 0 else marked, total))
unfolding pmm_apply_memmap
apply_initialized mm s init lt = rw (init, pmm_apply_memmap, lt→leb (cap_end mm) mem_start lt)

cap_end-le : (mm : Memmap) → cap_end mm ≤ mem_end_default
unfolding cap_end
cap_end-le mm = ground arith

-- The first page is marked last.
first_page_lem :
    (s : Pmm) (total : ℕ) (test : ℕ → Bool)
    → IsValid s
    → s.total_pages ≡ total
    → ((q : ℕ) → q < total → bitmap_test s.bitmap q ≡ test q)
    → let s' = (if ltb 0 total then mark_page true s 0 else s) in
      IsValid s'
      × (s'.total_pages ≡ total)
      × ((q : ℕ) → q < total → bitmap_test s'.bitmap q ≡ ((q == 0) || test q))
first_page_lem s total test v t h = elim (Bool-cases (ltb 0 total)) [
  | inr empty ↦ rw empty (v, t, λ q lt. absurd (ground arith))
  | inl some_pages ↦
      let (v', t', each) = mark_page_lem true s 0 v (ground arith) in
      rw some_pages (v', t' ∙ t, λ q lt. each q (omega (arith, t)) ∙ either q (h q lt))
]
  where
    either : (q : ℕ) {b : Bool} → b ≡ test q → (if 0 == q then true else b) ≡ ((q == 0) || test q)
    either q e = ground arith

-- The map applied to a bitmap that reaches far enough, with memory above 2 MB and no entry beyond
-- 16 TB, gives a valid state over the pages up to `cap_end`, as many as are returned. Then page `q` of those that the kernel manages is in use exactly if it is the
-- first, or an entry that must not be handed out touches it, or no usable entry does.
pub pmm_apply_memmap_lem :
    (mm : Memmap) (s : Pmm) (q : ℕ)
    → HasBitmap s
    → mm.initialized ≡ true
    → mem_start < cap_end mm
    → Small mm.entries
    → q < (cap_end mm - mem_start) / page_size
    → let (s', pages) = pmm_apply_memmap mm s in
      IsValid s'
      × (pages ≡ (cap_end mm - mem_start) / page_size)
      × (s'.total_pages ≡ pages)
      × (bitmap_test s'.bitmap q
          ≡ ((q == 0) || (any_reserved mm.entries q || not (any_usable mm.entries q))))
pmm_apply_memmap_lem mm s q b init lt small below =
    rw (apply_initialized mm s init lt, cut)
      (let (v, full) = all_marked_lem s total b (omega (arith, cap_end-le mm)) in
        let (v', t, each) =
          apply_entries_lem mm.entries (all_marked s total) v small (unfold all_marked in full) in
        let t' : (apply_entries mm.entries (all_marked s total)).total_pages ≡ total =
          t ∙ unfold all_marked in refl in
        let (v'', t'', each') =
          first_page_lem (apply_entries mm.entries (all_marked s total)) total
            (λ q. any_reserved mm.entries q || not (any_usable mm.entries q)) v' t'
            (λ q h. each q (unfold all_marked in h)) in
        (v'', refl, t'', each' q below))
  where
    total : ℕ
    total = (cap_end mm - mem_start) / page_size

    cut : (cap_end mm - mem_start) / page_size % 2 ^ 32 ≡ total
    cut = omega (arith, cap_end-le mm)
