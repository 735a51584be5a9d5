-- ===== src/Memory/Memmap/Totals.antt =====
-- What the map says of its entries: at most 64, and the highest usable address covers each of them.
use native.Mathlib.Nat.{le_trans}
use vyro_os.Base.{
  ℕ, zero, suc, ◌||◌, ◌+◌, ◌^◌, ◌≤◌, ◌<◌, ◌≡◌, ◌≢◌, ◌⊎◌, inl, inr, Bool-cases, min, refl, true,
  false, List, [], ◌∷◌, length, take, drop, arith, ltb, ◌==◌, if◌then◌else◌, length-take,
}
use vyro_os.Memory.Memmap.{
  Entry, Memmap, E820, usable, max_entries, add_usable, raise_top, totals_from, recompute_totals,
  e820_entries, uefi_entries, memmap_init_from_e820, memmap_init_from_uefi,
}

-- Entries that are not empty and end below 2 ^ 64.
abbrev pub Fits : List Entry → Type 0
Fits [] = Unit
Fits (e ∷ es) = (e.base + e.length < 2 ^ 64) × Fits es

-- The usable bytes of a list of entries.
abbrev pub usable_bytes : List Entry → ℕ
usable_bytes [] = 0
usable_bytes (e ∷ es) = (if e.kind == usable then e.length else 0) + usable_bytes es

-- `top` is at or above the end of each usable entry.
abbrev pub Covered : ℕ → List Entry → Type 0
Covered top [] = Unit
Covered top (e ∷ es) = ((e.kind ≢ usable) ⊎ (e.base + e.length ≤ top)) × Covered top es

Covered-mono : (lo hi : ℕ) (es : List Entry) → lo ≤ hi → Covered lo es → Covered hi es
Covered-mono lo hi [] h c = tt
Covered-mono lo hi (e ∷ es) h c = (omega (arith, c.0), Covered-mono lo hi es h c.1)

add_usable_lem :
    (e : Entry) (total : ℕ)
    → total + (if e.kind == usable then e.length else 0) < 2 ^ 64
    → add_usable e total ≡ total + (if e.kind == usable then e.length else 0)
unfolding add_usable
add_usable_lem e total h = ground arith

raise_top_lem :
    (e : Entry) (highest : ℕ)
    → e.base + e.length < 2 ^ 64
    → (highest ≤ raise_top e highest)
      × ((e.kind ≢ usable) ⊎ (e.base + e.length ≤ raise_top e highest))
unfolding raise_top
raise_top_lem e highest h = (ground arith, ground arith)

totals_from_lem :
    (es : List Entry) (total highest : ℕ)
    → Fits es
    → total + usable_bytes es < 2 ^ 64
    → let (t, h) = totals_from es total highest in
      (t ≡ total + usable_bytes es) × (highest ≤ h) × Covered h es
unfolding totals_from
totals_from_lem [] total highest f lt = (omega arith, omega arith, tt)
totals_from_lem (e ∷ es) total highest f lt =
    let t = add_usable_lem e total (omega arith) in
    let (up, top) = raise_top_lem e highest f.0 in
    let (sums, above, covered) =
      totals_from_lem es (add_usable e total) (raise_top e highest) f.1 (omega (arith, t)) in
    (omega (arith, sums, t), omega (arith, above, up), (omega (arith, above, top), covered))

-- The totals of a map whose entries end below 2 ^ 64 and whose usable bytes do too: `total_usable`
-- is their sum and `highest_usable` is no lower than the end of any usable entry.
pub recompute_totals_lem :
    (m : Memmap)
    → Fits m.entries
    → usable_bytes m.entries < 2 ^ 64
    → ((recompute_totals m).total_usable ≡ usable_bytes m.entries)
      × Covered (recompute_totals m).highest_usable m.entries
unfolding recompute_totals
recompute_totals_lem m f lt =
    let (sums, above, covered) = totals_from_lem m.entries 0 0 f (omega arith) in
    (omega (arith, sums), covered)

-- No entry is empty.
abbrev pub NonEmpty : List Entry → Type 0
NonEmpty [] = Unit
NonEmpty (e ∷ es) = (0 < e.length) × NonEmpty es

e820_entries_lem :
    (src : List E820) → NonEmpty (e820_entries src) × (length (e820_entries src) ≤ length src)
unfolding e820_entries
e820_entries_lem [] = (tt, omega arith)
e820_entries_lem (s ∷ ss) =
    let (full, short) = e820_entries_lem ss in
    elim (Bool-cases (s.length == 0)) [
      | inl z ↦ rw z (full, omega (arith, short))
      | inr nz ↦ rw nz ((ground arith, full), omega (arith, short))
    ]

-- Reading an E820 table fails exactly where its count is 0 and then changes nothing; otherwise the
-- map has at most 64 entries, none of them empty, and is marked as the BIOS's.
pub memmap_init_from_e820_lem :
    (m : Memmap) (n : ℕ) (src : List E820)
    → let (m', done) = memmap_init_from_e820 m n src in
      ((n ≡ 0) × (done ≡ false) × (m' ≡ m))
      ⊎ ((n ≢ 0)
          × (done ≡ true)
          × NonEmpty m'.entries
          × (length m'.entries ≤ min n max_entries)
          × (m'.initialized ≡ true)
          × (m'.source_uefi ≡ false))
unfolding memmap_init_from_e820 recompute_totals
memmap_init_from_e820_lem m n src = elim (Bool-cases (n == 0)) [
  | inl z ↦ inl (ground arith, rw (z, memmap_init_from_e820), rw (z, memmap_init_from_e820))
  | inr nz ↦
      let (full, short) =
        e820_entries_lem (take (if ltb max_entries n then max_entries else n) src) in
      inr (
        ground arith,
        rw (nz, memmap_init_from_e820),
        rw (nz, memmap_init_from_e820) full,
        rw (nz, memmap_init_from_e820)
            (ground (arith, short, length-take (if ltb max_entries n then max_entries else n) src)),
        rw (nz, memmap_init_from_e820),
        rw (nz, memmap_init_from_e820),
      )
]

uefi_entries_lem : (n desc_size : ℕ) (d : List ℕ) → length (uefi_entries n desc_size d) ≤ n
unfolding uefi_entries
uefi_entries_lem zero desc_size d = omega arith
uefi_entries_lem (suc n) desc_size d =
    ground (arith, uefi_entries_lem n desc_size (drop desc_size d))

clamp-le : (n : ℕ) → (if ltb max_entries n then max_entries else n) ≤ min n max_entries
clamp-le n = ground arith

-- Reading a UEFI descriptor array fails exactly where it is absent, empty or its descriptors are
-- shorter than 32 bytes, and then changes nothing; otherwise the map has at most 64 entries and is
-- marked as UEFI's.
pub memmap_init_from_uefi_lem :
    (m : Memmap) (b : ℕ) (bs : List ℕ) (count desc_size : ℕ)
    → (memmap_init_from_uefi m [] count desc_size ≡ (m, false))
      × (let (m', done) = memmap_init_from_uefi m (b ∷ bs) count desc_size in
          (((count ≡ 0) ⊎ (desc_size < 32)) × (done ≡ false) × (m' ≡ m))
          ⊎ ((count ≢ 0)
              × (32 ≤ desc_size)
              × (done ≡ true)
              × (length m'.entries ≤ min count max_entries)
              × (m'.source_uefi ≡ true)))
unfolding memmap_init_from_uefi recompute_totals
memmap_init_from_uefi_lem m b bs count desc_size = (
  refl,
  elim (Bool-cases ((count == 0) || ltb desc_size 32)) [
    | inl bad_args ↦
        inl
          (ground arith, rw (bad_args, memmap_init_from_uefi), rw (bad_args, memmap_init_from_uefi))
    | inr fine ↦
        let short =
          uefi_entries_lem (if ltb max_entries count then max_entries else count) desc_size
            (b ∷ bs) in
        inr (
          ground arith,
          ground arith,
          rw (fine, memmap_init_from_uefi),
          rw (fine, memmap_init_from_uefi) (le_trans short (clamp-le count)),
          rw (fine, memmap_init_from_uefi),
        )
  ],
)
