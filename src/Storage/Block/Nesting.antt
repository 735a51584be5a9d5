-- ===== src/Storage/Block/Nesting.antt =====
-- Windows in windows: the reads end, and stay inside the windows.
use vyro_os.Base.{
  ℕ, suc, ◌+◌, ◌%◌, ◌^◌, ◌≤◌, ◌<◌, ◌≡◌, ◌⊎◌, inl, inr, refl, none, some, get_elem?, arith,
  Bool-cases, ltb, if◌then◌else◌,
}
use vyro_os.Storage.Block.{
  Storage, BlockDevice, Window, win_read, Drivers, block_get, port_of, block_read,
}

-- Each window is on a device that was registered before its own.
unfoldable pub Nested : Storage → Type 0
Nested s =
    (idx : ℕ) (bd : BlockDevice) (w : Window)
    → block_get s idx ≡ some bd
    → bd.read ≡ win_read
    → get_elem? s.windows (port_of bd) ≡ some w
    → w.parent < idx

-- One step of a read that goes through a window.
window_step :
    (n : ℕ) (io : Drivers) (s : Storage) (idx lba count : ℕ) (bd : BlockDevice) (w : Window)
    → block_get s idx ≡ some bd
    → bd.read ≡ win_read
    → get_elem? s.windows (port_of bd) ≡ some w
    → block_read (suc n) io s idx lba count ≡ (
        if ltb w.extent ((lba + count) % 2 ^ 64)
        then (s, none)
        else block_read n io s w.parent ((w.start + lba) % 2 ^ 64) count)
unfolding block_read
window_step n io s idx lba count bd w e r at = rw (e, r, at, block_read) refl

-- A read of a partition that does not wrap around gets nothing, or what a read of the disk under it
-- gets, of as many sectors, all of them inside the partition.
pub block_read-window :
    (n : ℕ) (io : Drivers) (s : Storage) (idx lba count : ℕ) (bd : BlockDevice) (w : Window)
    → block_get s idx ≡ some bd
    → bd.read ≡ win_read
    → get_elem? s.windows (port_of bd) ≡ some w
    → lba + count < 2 ^ 64
    → w.start + w.extent ≤ 2 ^ 64
    → let r = block_read (suc n) io s idx lba count in
      (r ≡ (s, none))
      ⊎ ((at : ℕ) × (w.start ≤ at)
          × (at + count ≤ w.start + w.extent)
          × (r ≡ block_read n io s w.parent (at % 2 ^ 64) count))
block_read-window n io s idx lba count bd w e q at lt fits =
    let small : (lba + count) % 2 ^ 64 ≡ lba + count = omega arith in
    elim (Bool-cases (ltb w.extent ((lba + count) % 2 ^ 64))) [
      | inl beyond ↦ rw (window_step n io s idx lba count bd w e q at, beyond) (inl refl)
      | inr inside ↦
          rw (window_step n io s idx lba count bd w e q at, inside)
            (inr (w.start + lba, omega arith, ground (arith, inside, small), refl))
    ]
