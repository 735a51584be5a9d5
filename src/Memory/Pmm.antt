-- ===== src/Memory/Pmm.antt =====
-- kernel/pmm.c and kernel/pmm.h: one bit for each 4096-byte page from 2 MB on.
-- The bytes at `PMM_BITMAP_ADDR` are a list; the invariant says that they reach as far as the
-- pages do, so no read or write of the model falls outside.
pub mod Bitmap
pub mod Alloc
pub mod Mark
pub mod Apply
pub mod Tests
use vyro_os.Base.{
  ℕ, zero, suc, ◌+◌, ◌-◌, ◌*◌, ◌/◌, ◌%◌, ◌^◌, Bool, true, false, ◌||◌, ◌&&◌, List, [], ◌∷◌, get_or,
  set, ltb, leb, ◌==◌, if◌then◌else◌,
}
use vyro_os.Base.Bits.{bit_test, bit_set, bit_clear}
use vyro_os.Memory.Memmap.{Memmap, Entry, usable, reserved, acpi_nvs, bad}

abbrev pub page_size : ℕ
page_size = 4096

-- `PMM_MEM_START` and `PMM_MEM_END_DEFAULT`
abbrev pub mem_start : ℕ
mem_start = 0x200000

abbrev pub mem_end_default : ℕ
mem_end_default = 0x4000000

-- `PMM_TOTAL_PAGES_DEFAULT`
abbrev pub total_pages_default : ℕ
total_pages_default = (mem_end_default - mem_start) / page_size

-- `bitmap`, `used_count` and `g_total_pages`
pub record Pmm : Type 0 where
  pub bitmap : List ℕ
  pub used_count : ℕ
  pub total_pages : ℕ

pub bitmap_set : List ℕ → ℕ → List ℕ
bitmap_set m page = set m (page / 8) (bit_set (get_or m (page / 8) 0) (page % 8))

pub bitmap_clear : List ℕ → ℕ → List ℕ
bitmap_clear m page = set m (page / 8) (bit_clear (get_or m (page / 8) 0) (page % 8))

pub bitmap_test : List ℕ → ℕ → Bool
bitmap_test m page = bit_test (get_or m (page / 8) 0) (page % 8)

-- one round of the loop of `mark_range`
pub mark_page : Bool → Pmm → ℕ → Pmm
unfolding bitmap_set bitmap_clear bitmap_test
mark_page true s p =
    if bitmap_test s.bitmap p
    then s
    else record s { bitmap = bitmap_set s.bitmap p; used_count = (s.used_count + 1) % 2 ^ 32 }
mark_page false s p =
    if bitmap_test s.bitmap p
    then record s { bitmap = bitmap_clear s.bitmap p; used_count = s.used_count - 1 }
    else s

-- the loop of `mark_range` over `n` pages from `p` on
pub mark_pages : Bool → Pmm → ℕ → ℕ → Pmm
unfolding mark_page
mark_pages busy s p zero = s
mark_pages busy s p (suc n) = mark_pages busy (mark_page busy s p) (p + 1) n

-- `mark_range` after the part below `PMM_MEM_START` is cut off
pub mark_from : Bool → Pmm → ℕ → ℕ → Pmm
unfolding mark_pages
mark_from busy s base length =
    let end' = (base + length) % 2 ^ 64 in
    let first_page = (base - mem_start) / page_size % 2 ^ 32 in
    let last_page = (end' + 2 ^ 64 - mem_start + page_size - 1) % 2 ^ 64 / page_size % 2 ^ 32 in
    let last = if ltb s.total_pages last_page then s.total_pages else last_page in
    mark_pages busy s first_page (last - first_page)

pub mark_range : Bool → Pmm → ℕ → ℕ → Pmm
unfolding mark_from
mark_range busy s base length =
    if length == 0
    then s
    else if ltb base mem_start
    then if leb length (mem_start - base)
      then s
      else mark_from busy s mem_start (length - (mem_start - base))
    else mark_from busy s base length

-- `for (i = 0; i < n; i++) bitmap[i] = v;`
pub fill : ℕ → ℕ → List ℕ → List ℕ
fill zero v m = m
fill (suc n) v [] = []
fill (suc n) v (b ∷ m) = v ∷ fill n v m

pub pmm_init : Pmm → Pmm
unfolding fill
pmm_init s = record {
  bitmap = fill (total_pages_default / 8 + 1) 0 s.bitmap;
  used_count = 0;
  total_pages = total_pages_default;
}

-- The first loop of `pmm_apply_memmap` frees the usable entries.
pub free_usable : List Entry → Pmm → Pmm
unfolding mark_range
free_usable [] s = s
free_usable (e ∷ es) s =
    free_usable es (if e.kind == usable then mark_range false s e.base e.length else s)

-- The second marks the entries that must not be handed out.
pub mark_reserved : List Entry → Pmm → Pmm
unfolding mark_range
mark_reserved [] s = s
mark_reserved (e ∷ es) s = mark_reserved es (
    if (e.kind == reserved) || ((e.kind == acpi_nvs) || (e.kind == bad))
    then mark_range true s e.base e.length
    else s)

-- `cap_end`
pub cap_end : Memmap → ℕ
cap_end mm =
    if ltb 0 mm.highest_usable && ltb mm.highest_usable mem_end_default
    then mm.highest_usable
    else mem_end_default

-- Every page marked, before the usable entries are freed.
pub all_marked : Pmm → ℕ → Pmm
unfolding fill
all_marked s total = record {
  bitmap = fill (total / 8 + 1) 0xFF s.bitmap;
  used_count = total;
  total_pages = total;
}

-- `pmm_apply_memmap` up to its last line
pub apply_entries : List Entry → Pmm → Pmm
unfolding free_usable mark_reserved
apply_entries es s = mark_reserved es (free_usable es s)

-- `pmm_apply_memmap`; its result is the number of pages, or 0 where nothing was changed
pub pmm_apply_memmap : Memmap → Pmm → Pmm × ℕ
unfolding cap_end all_marked apply_entries mark_page
pmm_apply_memmap mm s = elim mm.initialized [
  | false ↦ (s, s.total_pages)
  | true ↦
      if leb (cap_end mm) mem_start
      then (s, 0)
      else let total = (cap_end mm - mem_start) / page_size % 2 ^ 32 in
        let marked = apply_entries mm.entries (all_marked s total) in
        (if ltb 0 total then mark_page true marked 0 else marked, total)
]

-- The loop of `pmm_alloc_page` over `n` pages from `i` on; 0 is the null pointer.
pub alloc_from : Pmm → ℕ → ℕ → Pmm × ℕ
unfolding bitmap_test bitmap_set
alloc_from s i zero = (s, 0)
alloc_from s i (suc n) = elim (bitmap_test s.bitmap i) [
  | false ↦ (
    record s { bitmap = bitmap_set s.bitmap i; used_count = (s.used_count + 1) % 2 ^ 32 },
    mem_start + i * page_size,
  )
  | true ↦ alloc_from s (i + 1) n
]

pub pmm_alloc_page : Pmm → Pmm × ℕ
unfolding alloc_from
pmm_alloc_page s = alloc_from s 0 s.total_pages

-- The address is cut to 32 bits before the page is computed.
pub page_of : ℕ → ℕ
page_of addr = (addr % 2 ^ 32 + 2 ^ 32 - mem_start) % 2 ^ 32 / page_size

pub pmm_free_page : Pmm → ℕ → Pmm
unfolding page_of bitmap_test bitmap_clear
pmm_free_page s addr =
    if ltb (page_of addr) s.total_pages && bitmap_test s.bitmap (page_of addr)
    then record s { bitmap = bitmap_clear s.bitmap (page_of addr); used_count = s.used_count - 1 }
    else s

-- `pmm_used_pages`, `pmm_free_pages` and `pmm_total_pages`
pub pmm_used_pages : Pmm → ℕ
pmm_used_pages s = s.used_count

pub pmm_free_pages : Pmm → ℕ
pmm_free_pages s = (s.total_pages + 2 ^ 32 - s.used_count) % 2 ^ 32

pub pmm_total_pages : Pmm → ℕ
pmm_total_pages s = s.total_pages
