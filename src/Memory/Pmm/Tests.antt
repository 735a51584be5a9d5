-- ===== src/Memory/Pmm/Tests.antt =====
-- The theorems of the page allocator at small states, and runs of the code.
use vyro_os.Base.{
  ℕ, zero, suc, ◌+◌, ◌-◌, ◌/◌, ◌<◌, ◌≤◌, ◌≡◌, ◌⊎◌, refl, true, false, ◌||◌, not, [], ◌∷◌, ◌++◌,
  length-replicate, replicate, arith, ◌==◌,
}
use vyro_os.Base.Bytes.{AllBytes}
use vyro_os.Memory.Memmap.{Memmap, usable, reserved}
use vyro_os.Memory.Pmm.{
  Pmm, mem_start, page_size, cap_end, bitmap_test, pmm_alloc_page, pmm_used_pages, pmm_apply_memmap,
}
use vyro_os.Memory.Pmm.Bitmap.{marked}
use vyro_os.Memory.Heap.{heap_start, heap_size}
use vyro_os.Memory.Overlap.{pmm_page_in_heap}
use vyro_os.Memory.Pmm.Alloc.{IsValid, Granted, pmm_alloc_page_lem}
use vyro_os.Memory.Pmm.Apply.{HasBitmap, any_reserved, any_usable, pmm_apply_memmap_lem}

-- eight pages, the first two in use
abbrev two_used : Pmm
two_used = record { bitmap = 3 ∷ 0 ∷ []; used_count = 2; total_pages = 8 }

two_used-IsValid : IsValid two_used
unfolding bitmap_test marked
two_used-IsValid = record {
  bytes = (omega arith, (omega arith, tt));
  reach = omega arith;
  small = omega arith;
  counted = refl;
}

third_page : (pmm_alloc_page two_used).1 ≡ 0x202000
unfolding pmm_alloc_page
third_page = refl

pmm_alloc_page_lem_example :
    ((pmm_used_pages two_used ≡ 8) × (pmm_alloc_page two_used ≡ (two_used, 0)))
    ⊎ ((pmm_used_pages two_used < 8)
        × Granted two_used (pmm_alloc_page two_used).0 (pmm_alloc_page two_used).1)
pmm_alloc_page_lem_example = pmm_alloc_page_lem two_used two_used-IsValid

-- the state before the memory map is read
abbrev blank : Pmm
blank = record { bitmap = replicate 1985 0; used_count = 0; total_pages = 0 }

AllBytes-zeros : (n : ℕ) → AllBytes (replicate n 0)
AllBytes-zeros zero = tt
AllBytes-zeros (suc n) = (omega arith, AllBytes-zeros n)

blank-HasBitmap : HasBitmap blank
blank-HasBitmap = record {
  bytes = AllBytes-zeros 1985;
  reach = omega (arith, length-replicate {A = ℕ} 1985 0);
}

-- 16 MB of memory, of which the last megabyte is the firmware's
abbrev small_machine : Memmap
small_machine = record {
  initialized = true;
  source_uefi = false;
  total_usable = 0xf00000;
  highest_usable = 0x1000000;
  entries =
      record { base = 0x100000; length = 0xf00000; kind = usable }
      ∷ record { base = 0xf00000; length = 0x100000; kind = reserved }
      ∷ [];
}

small_machine-cap : cap_end small_machine ≡ 0x1000000
unfolding cap_end
small_machine-cap = refl

pmm_apply_memmap_lem_example :
    let (s', pages) = pmm_apply_memmap small_machine blank in
    IsValid s'
    × (pages ≡ (cap_end small_machine - mem_start) / page_size)
    × (s'.total_pages ≡ pages)
    × (bitmap_test s'.bitmap 7 ≡ (
        (7 == 0)
        || (any_reserved small_machine.entries 7 || not (any_usable small_machine.entries 7))))
pmm_apply_memmap_lem_example =
    pmm_apply_memmap_lem small_machine blank 7 blank-HasBitmap refl
      (omega (arith, small_machine-cap)) (omega arith, (omega arith, tt))
      (omega (arith, small_machine-cap))

-- the pages below the heap in use, and two more that are not
abbrev below_taken : Pmm
below_taken = record { bitmap = replicate 96 255 ++ (0 ∷ []); used_count = 768; total_pages = 770 }

below_taken-IsValid : IsValid below_taken
unfolding bitmap_test marked
below_taken-IsValid = record {
  bytes = AllBytes-tail 96;
  reach = omega arith;
  small = omega arith;
  counted = refl;
}
  where
    AllBytes-tail : (n : ℕ) → AllBytes (replicate n 255 ++ (0 ∷ []))
    AllBytes-tail zero = (omega arith, tt)
    AllBytes-tail (suc n) = (omega arith, AllBytes-tail n)

first_below : (marked below_taken.bitmap 768 ≡ 768) × (bitmap_test below_taken.bitmap 768 ≡ false)
unfolding bitmap_test marked
first_below = (refl, refl)

pmm_page_in_heap_example :
    let addr = (pmm_alloc_page below_taken).1 in
    (heap_start ≤ addr) × (addr + page_size ≤ heap_start + heap_size)
pmm_page_in_heap_example =
    pmm_page_in_heap below_taken 768 below_taken-IsValid (omega arith) first_below.0 first_below.1
      (omega arith) (omega arith)
