-- ===== src/Storage/Tests.antt =====
-- Disks and partitions at concrete inputs.
use vyro_os.Base.Bytes.{AllBytes}
use vyro_os.Base.Slots.{first}
use vyro_os.Base.{
  ℕ, zero, suc, ◌+◌, ◌-◌, ◌%◌, ◌^◌, ◌≤◌, ◌≡◌, ◌⊎◌, refl, true, false, Option, none, some, List, [],
  ◌∷◌, ◌++◌, leb, ◌&&◌, if◌then◌else◌, replicate, length-replicate, arith,
}
use vyro_os.Storage.Block.{
  Storage, BlockDevice, Window, ahci_disk, nvme_disk, ahci_read_thunk, nvme_read_thunk, win_read,
  Drivers, block_get, block_read, lba_xlate_register, slot_for, owned_by, xlate, native_of,
}
use vyro_os.Storage.Block.Nesting.{block_read-window}
use vyro_os.Storage.Translate.{translated_read}
use vyro_os.Storage.Translate.Sectors.{blocks, sectors, translated_read_lem}
use vyro_os.Storage.Partition.{Parttab, parttab_probe, parse_gpt, parse_mbr, mbr_loop}
use vyro_os.Storage.Partition.Limits.{Limited, ReadsBytes, parttab_probe-Limited}

-- Each block of the disk consists of one byte, its number.
abbrev disk : ℕ → List ℕ
disk i = replicate 4096 (i % 256)

-- A driver of 1000 blocks that reads 1 to 513 of them at once.
abbrev native : ℕ → ℕ → Option (List ℕ)
native lba n =
    if leb 1 n && (leb n 513 && leb (lba + n) 1000) then some (blocks disk lba n) else none

native_reads :
    (lba n : ℕ) → 1 ≤ n → n ≤ 513 → lba + n ≤ 1000 → native lba n ≡ some (blocks disk lba n)
native_reads lba n some' few le =
    let taken : (leb 1 n && (leb n 513 && leb (lba + n) 1000)) ≡ true = ground arith in
    rw taken refl

translated_read_lem_example : translated_read native 8 7 2 ≡ some (sectors disk 7 2)
translated_read_lem_example =
    translated_read_lem disk native 1000 513 (λ i. length-replicate 4096 (i % 256)) (omega arith)
      (omega arith) native_reads 7 2 (omega arith) (omega arith) (omega arith)

-- A sector with the marks of a partition table and nothing else.
abbrev mbr : List ℕ
mbr = replicate 510 0 ++ (0x55 ∷ 0xAA ∷ [])

abbrev read_mbr : ℕ → Option (List ℕ)
read_mbr zero = some mbr
read_mbr (suc n) = none

AllBytes_zeros : (n : ℕ) (bs : List ℕ) → AllBytes bs → AllBytes (replicate n 0 ++ bs)
AllBytes_zeros zero bs h = h
AllBytes_zeros (suc n) bs h = (omega arith, AllBytes_zeros n bs h)

read_mbr-ReadsBytes : ReadsBytes read_mbr
read_mbr-ReadsBytes zero bs e =
    let same : mbr ≡ bs = ground arith in
    rw⁻¹ same (AllBytes_zeros 510 (0x55 ∷ 0xAA ∷ []) (omega arith, (omega arith, tt)))
read_mbr-ReadsBytes (suc n) bs e = absurd (ground arith)

abbrev no_entries : Parttab
no_entries = record { source_gpt = false; entries = [] }

read_mbr_found : parttab_probe read_mbr ≡ some no_entries
unfolding parttab_probe parse_gpt parse_mbr mbr_loop
read_mbr_found = refl

parttab_probe-Limited_example : Limited []
parttab_probe-Limited_example =
    parttab_probe-Limited read_mbr no_entries read_mbr-ReadsBytes read_mbr_found

abbrev sata : BlockDevice
sata = record {
  in_use = true;
  kind = ahci_disk;
  index = 0;
  logical_block_size = 512;
  total_blocks = 1000;
  transport = 0;
  read = ahci_read_thunk;
}

abbrev part : BlockDevice
part = record sata { total_blocks = 50; read = win_read }

abbrev window : Window
window = record { parent = 0; start = 100; extent = 50 }

abbrev one_part : Storage
one_part = record { devs = sata ∷ part ∷ []; windows = window ∷ []; slots = []; native_read = none }

-- Every sector is its number.
abbrev io : Drivers
io = record {
  ahci_port_read = λ port lba count. some (lba ∷ []);
  nvme_read = λ lba count. some (lba ∷ []);
}

block_read-window_example :
    let r = block_read 2 io one_part 1 3 4 in
    (r ≡ (one_part, none))
    ⊎ ((at : ℕ) × (100 ≤ at)
        × (at + 4 ≤ 100 + 50)
        × (r ≡ block_read 1 io one_part 0 (at % 2 ^ 64) 4))
unfolding block_get
block_read-window_example =
    block_read-window 1 io one_part 1 3 4 part window refl refl refl (omega arith) (omega arith)

-- A position that wraps around is not refused: the read is of the sector before the partition.
block_read_escapes : (block_read 2 io one_part 1 (2 ^ 64 - 1) 1).1 ≡ some (99 ∷ [])
unfolding block_read block_get
block_read_escapes = refl

-- A disk of 4096-byte blocks behind a disk of 512-byte blocks.
abbrev two_disks : Storage
two_disks = record {
  devs =
      sata
      ∷ record {
        in_use = true;
        kind = nvme_disk;
        index = 1;
        logical_block_size = 4096;
        total_blocks = 9;
        transport = 0;
        read = nvme_read_thunk;
      }
      ∷ [];
  windows = [];
  slots = replicate 4 record { used = false; owner = 0; native_bytes = 0 };
  native_read = none;
}

-- Its sector 8 is read from block 8, not from block 1: the slot that is found is that of the first disk.
translated_by_other : (block_read 1 io (lba_xlate_register 1 two_disks).0 1 8 1).1 ≡ some (8 ∷ [])
unfolding block_read block_get lba_xlate_register slot_for owned_by xlate native_of translated_read
    first
translated_by_other = refl
