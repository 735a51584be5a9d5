-- ===== src/Memory/Overlap.antt =====
-- The pages of kernel/pmm.c against the region of kernel/heap.c.
use vyro_os.Base.{ℕ, ◌+◌, ◌≤◌, ◌<◌, ◌≡◌, false, arith}
use vyro_os.Memory.Heap.{heap_start, heap_size}
use vyro_os.Memory.Pmm.{Pmm, page_size, bitmap_test, pmm_alloc_page}
use vyro_os.Memory.Pmm.Bitmap.{marked}
use vyro_os.Memory.Pmm.Alloc.{IsValid, alloc_first}

-- Once the 768 pages below the heap are in use, a page that is handed out while the heap's 2048
-- pages are not all taken lies in the heap: the two allocators manage the same memory.
pub pmm_page_in_heap :
    (s : Pmm) (p : ℕ)
    → IsValid s
    → p < s.total_pages
    → marked s.bitmap p ≡ p
    → bitmap_test s.bitmap p ≡ false
    → 768 ≤ p
    → p < 2816
    → let addr = (pmm_alloc_page s).1 in
      (heap_start ≤ addr) × (addr + page_size ≤ heap_start + heap_size)
pmm_page_in_heap s p v lt below clear lo hi = omega (arith, alloc_first s p v lt below clear)
