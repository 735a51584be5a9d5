-- ===== src/Memory/Memmap.antt =====
-- kernel/memmap.c: the firmware's memory map, from a BIOS E820 table or a UEFI descriptor array.
-- `entries` holds the first `count` entries of the static array; the rest is never read.
pub mod Totals
pub mod Tests
use vyro_os.Base.{
  ℕ, zero, suc, ◌+◌, ◌*◌, ◌%◌, ◌^◌, Bool, true, false, ◌||◌, List, [], ◌∷◌, ◌++◌, length, take,
  drop, ltb, ◌==◌, if◌then◌else◌,
}
use vyro_os.Base.Bytes.{little_endian}

-- `memmap_kind_t`
abbrev pub usable : ℕ
usable = 1

abbrev pub reserved : ℕ
reserved = 2

abbrev pub acpi_reclaim : ℕ
acpi_reclaim = 3

abbrev pub acpi_nvs : ℕ
acpi_nvs = 4

abbrev pub bad : ℕ
bad = 5

abbrev pub boot_code : ℕ
boot_code = 6

abbrev pub boot_data : ℕ
boot_data = 7

-- `MEMMAP_MAX_ENTRIES`
abbrev pub max_entries : ℕ
max_entries = 64

-- `memmap_entry_t`; `reserved0` is always 0
pub record Entry : Type 0 where
  pub base : ℕ
  pub length : ℕ
  pub kind : ℕ

-- `memmap_t`
pub record Memmap : Type 0 where
  pub initialized : Bool
  pub source_uefi : Bool
  pub total_usable : ℕ
  pub highest_usable : ℕ
  pub entries : List Entry

-- `e820_entry_t`
pub record E820 : Type 0 where
  pub base : ℕ
  pub length : ℕ
  pub kind : ℕ
  pub acpi_attr : ℕ

pub e820_kind : ℕ → ℕ
e820_kind t =
    if t == 1
    then usable
    else if t == 2
    then reserved
    else if t == 3
    then acpi_reclaim
    else if t == 4
    then acpi_nvs
    else if t == 5
    then bad
    else reserved

pub uefi_kind : ℕ → ℕ
uefi_kind t =
    if t == 7
    then usable
    else if (t == 1) || (t == 2)
    then usable
    else if t == 3
    then boot_code
    else if t == 4
    then boot_data
    else if t == 9
    then acpi_reclaim
    else if t == 10
    then acpi_nvs
    else if t == 8
    then bad
    else reserved

-- One round of the loop of `recompute_totals`, for each of the two totals.
pub add_usable : Entry → ℕ → ℕ
add_usable e total = if e.kind == usable then (total + e.length) % 2 ^ 64 else total

pub raise_top : Entry → ℕ → ℕ
raise_top e highest =
    let top = (e.base + e.length) % 2 ^ 64 in
    if e.kind == usable then if ltb highest top then top else highest else highest

pub totals_from : List Entry → ℕ → ℕ → ℕ × ℕ
unfolding add_usable raise_top
totals_from [] total highest = (total, highest)
totals_from (e ∷ es) total highest = totals_from es (add_usable e total) (raise_top e highest)

pub recompute_totals : Memmap → Memmap
unfolding totals_from
recompute_totals m =
    let (total, highest) = totals_from m.entries 0 0 in
    record m { total_usable = total; highest_usable = highest }

-- The loop of `memmap_init_from_e820`: entries of length 0 are left out.
pub e820_entries : List E820 → List Entry
unfolding e820_kind
e820_entries [] = []
e820_entries (s ∷ ss) =
    let rest = e820_entries ss in
    if s.length == 0
    then rest
    else record { base = s.base; length = s.length; kind = e820_kind s.kind } ∷ rest

-- `memmap_init_from_e820` on a table whose count field is `n` and whose entries are `src`; 0 or 1
-- as a Boolean
pub memmap_init_from_e820 : Memmap → ℕ → List E820 → Memmap × Bool
unfolding e820_entries recompute_totals
memmap_init_from_e820 m n src =
    if n == 0
    then (m, false)
    else let n' = if ltb max_entries n then max_entries else n in
      (
        recompute_totals (record m {
          entries = e820_entries (take n' src);
          source_uefi = false;
          initialized = true;
        }),
        true,
      )

-- The loop of `memmap_init_from_uefi` over `n` descriptors of `desc_size` bytes: the type in bytes 0
-- to 3, the address in 8 to 15, the pages in 24 to 31.
pub uefi_entries : ℕ → ℕ → List ℕ → List Entry
unfolding uefi_kind
uefi_entries zero desc_size d = []
uefi_entries (suc n) desc_size d =
    let rest = uefi_entries n desc_size (drop desc_size d) in
    let pages = little_endian 8 (drop 24 d) in
    if pages == 0
    then rest
    else record {
      base = little_endian 8 (drop 8 d);
      length = pages * 4096 % 2 ^ 64;
      kind = uefi_kind (little_endian 4 d);
    }
      ∷ rest

-- `memmap_init_from_uefi`; no bytes stand for the null pointer
pub memmap_init_from_uefi : Memmap → List ℕ → ℕ → ℕ → Memmap × Bool
unfolding uefi_entries recompute_totals
memmap_init_from_uefi m [] count desc_size = (m, false)
memmap_init_from_uefi m (b ∷ bs) count desc_size =
    if (count == 0) || ltb desc_size 32
    then (m, false)
    else let n = if ltb max_entries count then max_entries else count in
      (
        recompute_totals (record m {
          entries = uefi_entries n desc_size (b ∷ bs);
          source_uefi = true;
          initialized = true;
        }),
        true,
      )
