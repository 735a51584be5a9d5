-- ===== src/Storage/Block.antt =====
-- The table of block devices: kernel/block.c, with the windows of kernel/parttab.c and the slots of
-- kernel/lba_xlate.c that its `read` pointers lead to. What the two drivers read is a parameter.
pub mod Nesting
use vyro_os.Base.Slots.{first}
use vyro_os.Base.{
  ℕ, zero, suc, ◌+◌, ◌*◌, ◌/◌, ◌%◌, ◌^◌, Bool, true, false, not, ◌&&◌, Option, none, some, List, [],
  ◌∷◌, ◌++◌, length, get_elem?, set, replicate, ltb, leb, ◌==◌, if◌then◌else◌,
}
use vyro_os.Storage.Translate.{translated_read}

abbrev pub block_max_devices : ℕ
block_max_devices = 8

abbrev pub max_xlate : ℕ
max_xlate = 4

pub data BlockKind : Type 0 where
  ahci_disk : BlockKind
  nvme_disk : BlockKind

-- The values of the pointer `read`.
pub data Reader : Type 0 where
  ahci_read_thunk : Reader
  nvme_read_thunk : Reader
  win_read : Reader
  xlate_read : Reader

pub record BlockDevice : Type 0 where
  pub in_use : Bool
  pub kind : BlockKind
  pub index : ℕ
  pub logical_block_size : ℕ
  pub total_blocks : ℕ
  pub transport : ℕ
  pub read : Reader

-- `window_t`
pub record Window : Type 0 where
  pub parent : ℕ
  pub start : ℕ
  pub extent : ℕ

-- `g_used`, `g_owner` and `g_native_bytes` at one index
pub record XlateSlot : Type 0 where
  pub used : Bool
  pub owner : ℕ
  pub native_bytes : ℕ

-- `g_devs` up to `g_count`, `g_windows` up to `g_wcount`, the slots, and `lba_xlate_native_read`.
pub record Storage : Type 0 where
  pub devs : List BlockDevice
  pub windows : List Window
  pub slots : List XlateSlot
  pub native_read : Option Reader

-- `ahci_port_read` and `nvme_read`: the bytes, or `none` for the result 0.
pub record Drivers : Type 0 where
  pub ahci_port_read : ℕ → ℕ → ℕ → Option (List ℕ)
  pub nvme_read : ℕ → ℕ → Option (List ℕ)

-- C compares `idx` as an `int`; an index of 2 ^ 31 or more, which it reads as negative and takes for
-- one of the table, is left out, like every one behind the table.
unfoldable pub block_get : Storage → ℕ → Option BlockDevice
block_get s idx = elim (get_elem? s.devs idx) [
  | none ↦ none
  | some bd ↦ if bd.in_use then some bd else none
]

pub block_count : Storage → ℕ
block_count s = length s.devs

-- The new index, or `none` for -1.
pub block_register : BlockDevice → Storage → Storage × Option ℕ
block_register src s =
    if leb block_max_devices (length s.devs)
    then (s, none)
    else (record s { devs = s.devs ++ (src ∷ []) }, some (length s.devs))

-- The first loop of `slot_for`
unfoldable pub owned_by : ℕ → XlateSlot → Bool
owned_by idx slot = slot.used && (slot.owner == idx)

unfoldable pub slot_for : ℕ → Storage → Storage × Option XlateSlot
unfolding owned_by block_get
slot_for idx s = elim (first (owned_by idx) s.slots) [
  | some (i, slot) ↦ (s, some slot)
  | none ↦ elim (first is_unused s.slots) [
    | none ↦ (s, none)
    | some (i, old) ↦ elim (block_get s idx) [
      | none ↦ (s, none)
      | some bd ↦
          let slot : XlateSlot = record {
            used = true;
            owner = idx;
            native_bytes = bd.logical_block_size;
          } in
          (record s { slots = set s.slots i slot }, some slot)
    ]
  ]
]
  where
    is_unused : XlateSlot → Bool
    is_unused slot = not slot.used

-- The transport of a device that `block_probe` made, as a port number.
abbrev pub port_of : BlockDevice → ℕ
port_of bd = bd.transport % 2 ^ 32

-- `lba_xlate_native_read` on a disk; only the two disk drivers come to stand there.
unfoldable pub native_of : Drivers → Storage → BlockDevice → ℕ → ℕ → Option (List ℕ)
native_of io s bd lba count = elim s.native_read [
  | some ahci_read_thunk ↦ io.ahci_port_read (port_of bd) lba count
  | some nvme_read_thunk ↦ io.nvme_read lba count
  | some win_read ↦ none
  | some xlate_read ↦ none
  | none ↦ none
]

unfoldable pub xlate : Drivers → Storage → BlockDevice → ℕ → ℕ → Storage × Option (List ℕ)
unfolding slot_for native_of
xlate io s bd fs_lba count =
    let (s', found) = slot_for (port_of bd) s in
    elim found [
      | none ↦ (s', none)
      | some slot ↦
          (s', translated_read (native_of io s' bd) (slot.native_bytes / 512) fs_lba count)
    ]

-- `block_read`, through `n` windows at most.
unfoldable pub block_read : ℕ → Drivers → Storage → ℕ → ℕ → ℕ → Storage × Option (List ℕ)
unfolding block_get xlate
block_read zero io s idx lba count = (s, none)
block_read (suc n) io s idx lba count = elim (block_get s idx) [
  | none ↦ (s, none)
  | some bd ↦ elim bd.read [
    | ahci_read_thunk ↦ (s, io.ahci_port_read (port_of bd) lba count)
    | nvme_read_thunk ↦ (s, io.nvme_read lba count)
    | xlate_read ↦ xlate io s bd lba count
    | win_read ↦ elim (get_elem? s.windows (port_of bd)) [
      | none ↦ (s, none)
      | some w ↦
          if ltb w.extent ((lba + count) % 2 ^ 64)
          then (s, none)
          else block_read n io s w.parent ((w.start + lba) % 2 ^ 64) count
    ]
  ]
]

-- The Boolean is the result.
unfoldable pub lba_xlate_register : ℕ → Storage → Storage × Bool
unfolding block_get slot_for
lba_xlate_register block_idx s = elim (block_get s block_idx) [
  | none ↦ (s, false)
  | some bd ↦
      if bd.logical_block_size == 512
      then (s, true)
      else if not (bd.logical_block_size == 4096)
      then (s, false)
      else let (s', found) = slot_for block_idx s in
        elim found [
          | none ↦ (s', false)
          | some _ ↦
              let bd' = record bd {
                read = xlate_read;
                total_blocks = bd.total_blocks * (4096 / 512) % 2 ^ 64;
                logical_block_size = 512;
              } in
              (record s' { native_read = some bd.read; devs = set s'.devs block_idx bd' }, true)
        ]
]

-- `parttab_register_partition`, without the label; the eight windows are those of `parttab_t`.
pub parttab_register_partition : ℕ → ℕ → ℕ → Storage → Storage × Option ℕ
unfolding block_get block_register
parttab_register_partition parent_idx start_lba length_lba s =
    if leb 8 (length s.windows) then (s, none) else elim (block_get s parent_idx) [
      | none ↦ (s, none)
      | some parent ↦
          let wi = length s.windows in
          let w : Window = record { parent = parent_idx; start = start_lba; extent = length_lba } in
          block_register
            record {
              in_use = true;
              kind = parent.kind;
              index = parent.index;
              logical_block_size = 512;
              total_blocks = length_lba;
              transport = wi;
              read = win_read;
            }
            record s { windows = s.windows ++ (w ∷ []) }
    ]
