-- ===== src/Storage.antt =====
-- Disks: the table of block devices (kernel/block.c), the translation of 512-byte sectors to 4096-byte
-- blocks (kernel/lba_xlate.c), and partitions (kernel/parttab.c).
pub mod Block
pub mod Translate
pub mod Partition
pub mod Tests
