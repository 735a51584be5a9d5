-- ===== src/Memory/Heap.antt =====
-- kernel/heap.c: a first-fit allocator over one region, its headers linked in address order.
-- The linked list is a list of headers, so `next` is the rest of the list and 0 its end. The heap
-- writes `HEAP_MAGIC` into each header that it makes: an address at which no header of the list
-- stands fails the test of `kfree`, either by its magic or by the `free` mark that a header keeps
-- when its block is joined to the one before. Bytes that a caller forges are not modelled.
pub mod Tiles
pub mod Grant
pub mod Malloc
pub mod Coalesce
pub mod Release
pub mod Free
pub mod RoundTrip
mod Tests
use vyro_os.Base.{
  ℕ, ◌+◌, ◌-◌, ◌*◌, ◌/◌, ◌%◌, ◌^◌, Bool, true, false, ◌&&◌, Option, none, some, List, [], ◌∷◌, ◌++◌,
  leb, ◌==◌, if◌then◌else◌,
}

-- `HEAP_START`, `HEAP_SIZE` and `sizeof(block_header_t)` on a 64-bit machine
abbrev pub heap_start : ℕ
heap_start = 0x500000

abbrev pub heap_size : ℕ
heap_size = 0x800000

abbrev pub header_size : ℕ
header_size = 32

-- `block_header_t` and the address where it stands
pub record Block : Type 0 where
  pub addr : ℕ
  pub size : ℕ
  pub free : Bool

-- `heap_head` and `bytes_used`
pub record Heap : Type 0 where
  pub blocks : List Block
  pub bytes_used : ℕ

pub heap_init : Heap
heap_init = record {
  blocks = record { addr = heap_start; size = heap_size - header_size; free = true } ∷ [];
  bytes_used = 0;
}

-- `cur->size += HEADER_SIZE + cur->next->size; cur->next = cur->next->next;`
pub merge : Block → Block → Block
merge cur n = record cur { size = (cur.size + (header_size + n.size)) % 2 ^ 64 }

-- The loop of `coalesce`, from `cur` on.
pub coalesce_from : Block → List Block → List Block
unfolding merge
coalesce_from cur [] = cur ∷ []
coalesce_from cur (n ∷ rest) = elim (cur.free && n.free) [
  | true ↦ coalesce_from (merge cur n) rest
  | false ↦ cur ∷ coalesce_from n rest
]

pub coalesce : List Block → List Block
unfolding coalesce_from
coalesce [] = []
coalesce (b ∷ bs) = coalesce_from b bs

-- `size = (size + 7) & ~7UL`
pub round_up : ℕ → ℕ
round_up size = (size + 7) % 2 ^ 64 / 8 * 8

-- What `kmalloc` makes of the block that it takes: itself, or itself and the rest behind it.
pub carve : Block → ℕ → List Block
carve cur size =
    if leb ((size + header_size + 16) % 2 ^ 64) cur.size
    then record { addr = cur.addr; size = size; free = false }
      ∷ record {
        addr = cur.addr + header_size + size;
        size = cur.size - size - header_size;
        free = true;
      }
      ∷ []
    else record cur { free = false } ∷ []

-- The size of the block taken, after the split.
pub taken : Block → ℕ → ℕ
taken cur size = if leb ((size + header_size + 16) % 2 ^ 64) cur.size then size else cur.size

-- The loop of `kmalloc`: the pointer, the size of the block taken, and the headers.
pub malloc_from : List Block → ℕ → Option (ℕ × ℕ × List Block)
unfolding carve taken
malloc_from [] size = none
malloc_from (b ∷ bs) size = elim (b.free && leb size b.size) [
  | true ↦ some (b.addr + header_size, taken b size, carve b size ++ bs)
  | false ↦ elim (malloc_from bs size) [
    | none ↦ none
    | some (ptr, got, bs') ↦ some (ptr, got, b ∷ bs')
  ]
]

-- `kmalloc`; 0 is the null pointer
pub kmalloc : Heap → ℕ → Heap × ℕ
unfolding round_up malloc_from
kmalloc h size = if size == 0 then (h, 0) else elim (malloc_from h.blocks (round_up size)) [
  | none ↦ (h, 0)
  | some (ptr, got, bs) ↦ (record { blocks = bs; bytes_used = (h.bytes_used + got) % 2 ^ 64 }, ptr)
]

-- The header at `at` with its `free` mark set, and its size; none where no header stands there or
-- the block is free.
pub free_at : List Block → ℕ → Option (ℕ × List Block)
free_at [] at = none
free_at (b ∷ bs) at = elim (b.addr == at) [
  | true ↦ if b.free then none else some (b.size, record b { free = true } ∷ bs)
  | false ↦ elim (free_at bs at) [ none ↦ none | some (size, bs') ↦ some (size, b ∷ bs') ]
]

pub kfree : Heap → ℕ → Heap
unfolding free_at coalesce
kfree h ptr =
    if ptr == 0 then h else elim (free_at h.blocks ((ptr + 2 ^ 64 - header_size) % 2 ^ 64)) [
      | none ↦ h
      | some (size, bs) ↦ record {
        blocks = coalesce bs;
        bytes_used = if leb size h.bytes_used then h.bytes_used - size else h.bytes_used;
      }
    ]

-- `heap_used` and `heap_total`
pub heap_used : Heap → ℕ
heap_used h = h.bytes_used

abbrev pub heap_total : ℕ
heap_total = heap_size
