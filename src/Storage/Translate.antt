-- ===== src/Storage/Translate.antt =====
-- Sectors of 512 bytes on a disk of larger blocks: the two ways of `xlate_read` in kernel/lba_xlate.c,
-- once the slot is found. `native` is what `lba_xlate_native_read` gives.
pub mod Sectors
use vyro_os.Base.{
  ℕ, zero, suc, ◌+◌, ◌*◌, ◌/◌, ◌%◌, ◌^◌, ◌&&◌, Bool, true, false, Option, none, some, List, [], ◌∷◌,
  ◌++◌, take, drop, ◌==◌, if◌then◌else◌,
}

abbrev pub fs_lba_bytes : ℕ
fs_lba_bytes = 512

-- `while (count)`: one block for each sector, through the bounce buffer.
pub read_sectors : (ℕ → ℕ → Option (List ℕ)) → ℕ → ℕ → ℕ → Option (List ℕ)
read_sectors native ratio fs_lba zero = some []
read_sectors native ratio fs_lba (suc count) =
    let rest = read_sectors native ratio ((fs_lba + 1) % 2 ^ 64) count in
    elim (native (fs_lba / ratio) 1) [
      | none ↦ none
      | some bounce ↦ elim rest [
        | none ↦ none
        | some bytes ↦
            some (take fs_lba_bytes (drop (fs_lba % ratio * fs_lba_bytes) bounce) ++ bytes)
      ]
    ]

unfoldable pub translated_read : (ℕ → ℕ → Option (List ℕ)) → ℕ → ℕ → ℕ → Option (List ℕ)
unfolding read_sectors
translated_read native ratio fs_lba count =
    if (fs_lba % ratio == 0) && (count % ratio == 0)
    then native (fs_lba / ratio) (count / ratio)
    else read_sectors native ratio fs_lba count
