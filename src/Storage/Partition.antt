-- ===== src/Storage/Partition.antt =====
-- Partition tables: `parse_mbr`, `parse_gpt` and `parttab_probe` of kernel/parttab.c. `read` is what
-- `read_sector` gives of the disk, 512 bytes or `none`; a byte behind a sector is read as 0. Of the
-- table, the entries in use are kept. The length of a GPT entry wraps at 64 bits.
pub mod Limits
use vyro_os.Base.Bytes.{little_endian}
use vyro_os.Base.{
  ℕ, zero, suc, ◌+◌, ◌-◌, ◌*◌, ◌/◌, ◌%◌, ◌^◌, min, Bool, true, false, not, ◌&&◌, ◌||◌, Option, none,
  some, List, [], ◌∷◌, ◌++◌, length, drop, get_or, ltb, leb, ◌==◌, if◌then◌else◌,
}

abbrev pub parttab_max : ℕ
parttab_max = 8

pub record Entry : Type 0 where
  pub type_id : ℕ
  pub start_lba : ℕ
  pub length_lba : ℕ
  pub name : List ℕ

pub record Parttab : Type 0 where
  pub source_gpt : Bool
  pub entries : List Entry

-- `le32` and `le64` of the bytes at a place.
abbrev pub le32 : List ℕ → ℕ → ℕ
le32 bs i = little_endian 4 (drop i bs)

abbrev pub le64 : List ℕ → ℕ → ℕ
le64 bs i = little_endian 8 (drop i bs)

-- The entry at `e`, number `i`, with the name "p1" to "p4".
pub mbr_entry : ℕ → List ℕ → Entry
mbr_entry i e = record {
  type_id = get_or e 4 0;
  start_lba = le32 e 8;
  length_lba = le32 e 12;
  name = 112 ∷ (49 + i) ∷ [];
}

-- The loop, for `n` entries from number `i` on.
unfoldable pub mbr_loop : ℕ → ℕ → List ℕ → List Entry → List Entry
unfolding mbr_entry
mbr_loop zero i bs found = found
mbr_loop (suc n) i bs found =
    let e = drop (0x1BE + i * 16) bs in
    elim ((get_or e 4 0 == 0) || (le32 e 12 == 0)) [
      | true ↦ mbr_loop n (i + 1) bs found
      | false ↦ elim (leb parttab_max (length found)) [
        | true ↦ found
        | false ↦ mbr_loop n (i + 1) bs (found ++ (mbr_entry i e ∷ []))
      ]
    ]

unfoldable pub parse_mbr : (ℕ → Option (List ℕ)) → Option Parttab
unfolding mbr_loop
parse_mbr read = elim (read 0) [
  | none ↦ none
  | some bs ↦
      if not (get_or bs 510 0 == 0x55) || not (get_or bs 511 0 == 0xAA)
      then none
      else some record { source_gpt = false; entries = mbr_loop 4 0 bs [] }
]

-- The loop that copies the lower bytes of the name, for `n` characters from number `c` on.
pub name_loop : ℕ → ℕ → List ℕ → List ℕ
name_loop zero c e = []
name_loop (suc n) c e =
    let lo = get_or e (56 + c * 2) 0 in
    elim (leb 0x20 lo && leb lo 0x7E) [ true ↦ lo ∷ name_loop n (c + 1) e | false ↦ [] ]

pub gpt_entry : List ℕ → Entry
unfolding name_loop
gpt_entry e = record {
  type_id = get_or e 0 0;
  start_lba = le64 e 32;
  length_lba = (le64 e 40 + 2 ^ 64 - le64 e 32 + 1) % 2 ^ 64;
  name = name_loop 35 0 e;
}

-- Sixteen zeros where the type stands.
pub is_empty : ℕ → List ℕ → Bool
is_empty zero e = true
is_empty (suc n) e = (get_or e 0 0 == 0) && is_empty n (drop 1 e)

-- The loop, for `n` entries from number `i` on; `sec` is the sector read last.
pub gpt_loop : ℕ → (ℕ → Option (List ℕ)) → ℕ → ℕ → ℕ → List ℕ → List Entry → Option (List Entry)
unfolding gpt_entry is_empty
gpt_loop zero read pe_lba pe_size i sec found = some found
gpt_loop (suc n) read pe_lba pe_size i sec found =
    let per_sector = 512 / pe_size in
    elim (if i % per_sector == 0 then read ((pe_lba + i / per_sector) % 2 ^ 64) else some sec) [
      | none ↦ none
      | some sec' ↦
          let e = drop (i % per_sector * pe_size) sec' in
          elim (is_empty 16 e || ltb (le64 e 40) (le64 e 32)) [
            | true ↦ gpt_loop n read pe_lba pe_size (i + 1) sec' found
            | false ↦ elim (leb parttab_max (length found)) [
              | true ↦ some found
              | false ↦ gpt_loop n read pe_lba pe_size (i + 1) sec' (found ++ (gpt_entry e ∷ []))
            ]
          ]
    ]

-- `EFI PART`
pub has_signature : List ℕ → Bool
has_signature hdr =
    (get_or hdr 0 0 == 69)
    && ((get_or hdr 1 0 == 70)
        && ((get_or hdr 2 0 == 73)
            && ((get_or hdr 3 0 == 32)
                && ((get_or hdr 4 0 == 80)
                    && ((get_or hdr 5 0 == 65)
                        && ((get_or hdr 6 0 == 82) && (get_or hdr 7 0 == 84)))))))

unfoldable pub parse_gpt : (ℕ → Option (List ℕ)) → Option Parttab
unfolding gpt_loop has_signature
parse_gpt read = elim (read 1) [
  | none ↦ none
  | some hdr ↦
      let pe_size = le32 hdr 84 in
      if not (has_signature hdr)
      then none
      else if (pe_size == 0) || ltb 512 pe_size
      then none
      else elim (gpt_loop (min (le32 hdr 80) 128) read (le64 hdr 72) pe_size 0 [] []) [
        | none ↦ none
        | some found ↦ some record { source_gpt = true; entries = found }
      ]
]

unfoldable pub parttab_probe : (ℕ → Option (List ℕ)) → Option Parttab
unfolding parse_gpt parse_mbr
parttab_probe read = elim (parse_gpt read) [ some table ↦ some table | none ↦ parse_mbr read ]
