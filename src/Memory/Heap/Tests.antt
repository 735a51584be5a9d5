-- ===== src/Memory/Heap/Tests.antt =====
-- The theorems of the heap at a small heap, and runs of the code.
use vyro_os.Base.{ℕ, ◌+◌, ◌≡◌, ◌⊎◌, inl, refl, true, false, [], ◌∷◌, arith}
use vyro_os.Memory.Heap.{Block, Heap, header_size, heap_init, round_up, kmalloc, kfree}
use vyro_os.Memory.Heap.Tiles.{IsValid}
use vyro_os.Memory.Heap.Grant.{NoRoom}
use vyro_os.Memory.Heap.Malloc.{Given, kmalloc_lem}
use vyro_os.Memory.Heap.Free.{kfree_ignored, kfree_twice}
use vyro_os.Memory.Heap.RoundTrip.{kfree-kmalloc}

-- the heap after `kmalloc(20)`
abbrev one_block : Heap
one_block = record {
  blocks =
      record { addr = 0x500000; size = 24; free = false }
      ∷ record { addr = 0x500038; size = 0x7fffa8; free = true }
      ∷ [];
  bytes_used = 24;
}

one_block_made : kmalloc heap_init 20 ≡ (one_block, 0x500020)
unfolding kmalloc heap_init
one_block_made = refl

one_block_freed : kfree one_block 0x500020 ≡ heap_init
unfolding kfree heap_init
one_block_freed = refl

one_block-IsValid : IsValid one_block
one_block-IsValid = ground arith

abbrev first : Block
first = record { addr = 0x500000; size = 24; free = false }

abbrev rest : Block
rest = record { addr = 0x500038; size = 0x7fffa8; free = true }

kfree-kmalloc_example : kfree (kmalloc one_block 100).0 (kmalloc one_block 100).1 ≡ one_block
kfree-kmalloc_example = kfree-kmalloc one_block 100 one_block-IsValid

kmalloc_lem_example :
    ((kmalloc one_block 100 ≡ (one_block, 0)) × NoRoom (round_up 100) one_block.blocks)
    ⊎ ((got : ℕ) × Given one_block 100 (kmalloc one_block 100).0 (kmalloc one_block 100).1 got)
kmalloc_lem_example = kmalloc_lem one_block 100 one_block-IsValid (omega arith) (omega arith)

kfree_ignored_example : kfree heap_init 0x500020 ≡ heap_init
unfolding heap_init
kfree_ignored_example = kfree_ignored heap_init 0x500020 (λ c k u e. ground arith)

kfree_twice_example :
    kfree (kfree one_block (0x500000 + header_size)) (0x500000 + header_size)
    ≡ kfree one_block (0x500000 + header_size)
kfree_twice_example = kfree_twice one_block first one_block-IsValid (inl refl) refl
