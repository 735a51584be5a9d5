-- ===== src/Memory/Heap/Tiles.antt =====
-- What holds of the heap between calls: its blocks cover the region end to end, no two free blocks
-- stand side by side, sizes are multiples of 8, and `bytes_used` adds up the blocks in use.
use vyro_os.Base.{ℕ, ◌+◌, ◌%◌, ◌≤◌, ◌≡◌, Bool, false, ◌&&◌, List, [], ◌∷◌, arith, if◌then◌else◌}
use vyro_os.Memory.Heap.{Block, Heap, heap_start, heap_size, header_size, heap_init}

-- The blocks lie end to end from `from` to `to`.
abbrev pub Covers : ℕ → List Block → ℕ → Type 0
Covers from [] to = from ≡ to
Covers from (b ∷ bs) to =
    (b.addr ≡ from) × (b.size % 8 ≡ 0) × Covers (from + header_size + b.size) bs to

-- No free block follows a free one; `before` is the mark of the block in front.
abbrev pub Apart : Bool → List Block → Type 0
Apart before [] = Unit
Apart before (b ∷ bs) = ((before && b.free) ≡ false) × Apart b.free bs

-- The sizes of the blocks in use, added up.
abbrev pub in_use : List Block → ℕ
in_use [] = 0
in_use (b ∷ bs) = (if b.free then 0 else b.size) + in_use bs

pub record IsValid (h : Heap) : Type 0 where
  pub covers : Covers heap_start h.blocks (heap_start + heap_size)
  pub apart : Apart false h.blocks
  pub counted : h.bytes_used ≡ in_use h.blocks

pub heap_init-IsValid : IsValid heap_init
unfolding heap_init
heap_init-IsValid = ground arith

-- What blocks in use add up to, with their headers, is no more than the region.
pub in_use-le : (from : ℕ) (bs : List Block) (to : ℕ) → Covers from bs to → from + in_use bs ≤ to
in_use-le from [] to c = omega arith
in_use-le from (b ∷ bs) to c = ground (arith, in_use-le (from + header_size + b.size) bs to c.2)

-- A block of a covered region ends in it.
pub Covers-le : (from : ℕ) (bs : List Block) (to : ℕ) → Covers from bs to → from ≤ to
Covers-le from bs to c = omega (arith, in_use-le from bs to c)
