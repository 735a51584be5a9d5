-- ===== src/Memory/Memmap/Tests.antt =====
-- The theorems of the memory map at concrete tables.
use vyro_os.Base.{◌≡◌, refl, false, List, [], ◌∷◌}
use vyro_os.Memory.Memmap.{Memmap, E820, usable, reserved, memmap_init_from_e820}

abbrev nothing : Memmap
nothing = record {
  initialized = false;
  source_uefi = false;
  total_usable = 0;
  highest_usable = 0;
  entries = [];
}

abbrev bios_table : List E820
bios_table =
    record { base = 0; length = 0x9fc00; kind = 1; acpi_attr = 1 }
    ∷ record { base = 0x9fc00; length = 0; kind = 2; acpi_attr = 1 }
    ∷ record { base = 0x100000; length = 0x3f00000; kind = 1; acpi_attr = 1 }
    ∷ []

abbrev two_entries : Memmap
two_entries = record nothing {
  entries =
      record { base = 0; length = 0x9fc00; kind = usable }
      ∷ record { base = 0xf0000; length = 0x10000; kind = reserved }
      ∷ [];
}

bios_map : (memmap_init_from_e820 nothing 3 bios_table).0.highest_usable ≡ 0x4000000
unfolding memmap_init_from_e820
bios_map = refl
