-- ===== src/Memory.antt =====
-- The kernel's memory: the heap of kernel/heap.c, the page bitmap of kernel/pmm.c and the firmware
-- memory map of kernel/memmap.c.
pub mod Heap
pub mod Memmap
pub mod Pmm
pub mod Overlap
