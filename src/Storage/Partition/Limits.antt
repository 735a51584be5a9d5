-- ===== src/Storage/Partition/Limits.antt =====
-- What a partition table that was read keeps to.
use vyro_os.Base.Bytes.{AllBytes, AllBytes-drop, little_endian, little_endian_four-lt}
use vyro_os.Base.Every.{Every}
use vyro_os.Base.{
  ℕ, zero, suc, ◌+◌, ◌*◌, ◌/◌, ◌%◌, ◌^◌, min, ◌≤◌, ◌<◌, ◌≡◌, inl, inr, ap, ◌∙◌, Bool, true, false,
  not, ◌||◌, Option, some, List, [], ◌∷◌, ◌++◌, length, length-append, drop, get_or, arith,
  Bool-cases, Option-cases, ltb, leb, ◌==◌, if◌then◌else◌,
}
use vyro_os.Storage.Partition.{
  Entry, Parttab, parttab_max, le32, le64, mbr_entry, mbr_loop, parse_mbr, gpt_entry, is_empty,
  gpt_loop, has_signature, parse_gpt, parttab_probe,
}

-- The sectors begin and end on 64-bit numbers.
abbrev pub InRange : Entry → Type 0
InRange e = (e.start_lba < 2 ^ 64) × (e.start_lba + e.length_lba ≤ 2 ^ 64)

-- At most eight entries, each in range.
abbrev pub Limited : List Entry → Type 0
Limited es = (length es ≤ parttab_max) × Every InRange es

Every-snoc :
    (es : List Entry) (e : Entry) → Every InRange es → InRange e → Every InRange (es ++ (e ∷ []))
Every-snoc [] e h k = (k, tt)
Every-snoc (x ∷ es) e h k = (h.0, Every-snoc es e h.1 k)

Limited-snoc :
    (es : List Entry) (e : Entry)
    → Limited es
    → leb parttab_max (length es) ≡ false
    → InRange e
    → Limited (es ++ (e ∷ []))
Limited-snoc es e h room k =
    (let size = length-append es (e ∷ []) in ground (arith, size), Every-snoc es e h.1 k)

le64_bound : (bs : List ℕ) → AllBytes bs → little_endian 8 bs < 2 ^ 64
le64_bound bs h = omega (
  arith,
  little_endian_four-lt bs h,
  little_endian_four-lt (drop 1 (drop 1 (drop 1 (drop 1 bs))))
      (AllBytes-drop 1 _ (AllBytes-drop 1 _ (AllBytes-drop 1 _ (AllBytes-drop 1 bs h)))),
)

mbr_entry-InRange : (i : ℕ) (e : List ℕ) → AllBytes e → InRange (mbr_entry i e)
unfolding mbr_entry
mbr_entry-InRange i e h =
    let start = little_endian_four-lt (drop 8 e) (AllBytes-drop 8 e h) in
    let count = little_endian_four-lt (drop 12 e) (AllBytes-drop 12 e h) in
    (omega (arith, start), omega (arith, start, count))

gpt_entry-InRange :
    (e : List ℕ) → AllBytes e → ltb (le64 e 40) (le64 e 32) ≡ false → InRange (gpt_entry e)
unfolding gpt_entry
gpt_entry-InRange e h ordered =
    let first = le64_bound (drop 32 e) (AllBytes-drop 32 e h) in
    let last = le64_bound (drop 40 e) (AllBytes-drop 40 e h) in
    let le : le64 e 32 ≤ le64 e 40 = ground (arith, ordered) in
    (first, omega (arith, first, last, le))

mbr_loop-Limited :
    (n i : ℕ) (bs : List ℕ) (found : List Entry)
    → AllBytes bs
    → Limited found
    → Limited (mbr_loop n i bs found)
unfolding mbr_loop
mbr_loop-Limited zero i bs found h l = l
mbr_loop-Limited (suc n) i bs found h l =
    let e = drop (0x1BE + i * 16) bs in
    let he = AllBytes-drop (0x1BE + i * 16) bs h in
    elim (Bool-cases ((get_or e 4 0 == 0) || (le32 e 12 == 0))) [
      | inl skip ↦ rw (skip, mbr_loop) (mbr_loop-Limited n (i + 1) bs found h l)
      | inr use_it ↦ elim (Bool-cases (leb parttab_max (length found))) [
        | inl full ↦ rw (use_it, full, mbr_loop) l
        | inr room ↦
            rw (use_it, room, mbr_loop)
              (mbr_loop-Limited n (i + 1) bs _ h
                (Limited-snoc found (mbr_entry i e) l room (mbr_entry-InRange i e he)))
      ]
    ]

-- Every sector that can be read consists of bytes.
abbrev pub ReadsBytes : (ℕ → Option (List ℕ)) → Type 0
ReadsBytes read = (lba : ℕ) (bs : List ℕ) → read lba ≡ some bs → AllBytes bs

gpt_loop-Limited :
    (n : ℕ) (read : ℕ → Option (List ℕ)) (pe_lba pe_size i : ℕ) (sec : List ℕ)
    (found es : List Entry)
    → ReadsBytes read
    → AllBytes sec
    → Limited found
    → gpt_loop n read pe_lba pe_size i sec found ≡ some es
    → Limited es
unfolding gpt_loop
gpt_loop-Limited zero read pe_lba pe_size i sec found es r h l got =
    let same : found ≡ es = ground arith in rw⁻¹ same l
gpt_loop-Limited (suc n) read pe_lba pe_size i sec found es r h l got =
    let per_sector = 512 / pe_size in
    let next =
      (if i % per_sector == 0 then read ((pe_lba + i / per_sector) % 2 ^ 64) else some sec) in
    elim (Option-cases next) [
      | inl stop ↦ absurd (let got' = rw (stop, gpt_loop) at got in ground arith)
      | inr (sec', ok) ↦
          let h' : AllBytes sec' = next_bytes (i % per_sector == 0) _ sec sec' r h ok in
          let e = drop (i % per_sector * pe_size) sec' in
          let he = AllBytes-drop (i % per_sector * pe_size) sec' h' in
          elim (Bool-cases (is_empty 16 e || ltb (le64 e 40) (le64 e 32))) [
            | inl skip ↦
                gpt_loop-Limited n read pe_lba pe_size (i + 1) sec' found es r h' l
                  (rw (ok, skip, gpt_loop) at got)
            | inr use_it ↦ elim (Bool-cases (leb parttab_max (length found))) [
              | inl full ↦
                  (let got' = rw (ok, use_it, full, gpt_loop) at got in
                    let same : found ≡ es = ground arith in rw⁻¹ same l)
              | inr room ↦
                  gpt_loop-Limited n read pe_lba pe_size (i + 1) sec' (found ++ (gpt_entry e ∷ []))
                    es r h'
                    (Limited-snoc found (gpt_entry e) l room
                      (gpt_entry-InRange e he (ground arith)))
                    (rw (ok, use_it, room, gpt_loop) at got)
            ]
          ]
    ]
  where
    next_bytes :
        (b : Bool) (lba : ℕ) (sec sec' : List ℕ)
        → ReadsBytes read
        → AllBytes sec
        → (if b then read lba else some sec) ≡ some sec'
        → AllBytes sec'
    next_bytes true lba sec sec' r h ok = r lba sec' ok
    next_bytes false lba sec sec' r h ok = let same : sec ≡ sec' = ground arith in rw⁻¹ same h

parse_gpt-Limited :
    (read : ℕ → Option (List ℕ)) (table : Parttab)
    → ReadsBytes read
    → parse_gpt read ≡ some table
    → Limited table.entries
unfolding parse_gpt
parse_gpt-Limited read table r got = elim (Option-cases (read 1)) [
  | inl e ↦ absurd (let got' = rw (e, parse_gpt) at got in ground arith)
  | inr (hdr, e) ↦ elim (Bool-cases (has_signature hdr)) [
    | inr bad ↦ absurd (let got' = rw (e, bad, parse_gpt) at got in ground arith)
    | inl good ↦ elim (Bool-cases ((le32 hdr 84 == 0) || ltb 512 (le32 hdr 84))) [
      | inl size ↦ absurd (let got' = rw (e, good, size, parse_gpt) at got in ground arith)
      | inr size ↦
          elim (Option-cases
            (gpt_loop (min (le32 hdr 80) 128) read (le64 hdr 72) (le32 hdr 84) 0 [] [])) [
              | inl none' ↦
                  absurd (let got' = rw (e, good, size, none', parse_gpt) at got in ground arith)
              | inr (es, f) ↦
                  let l : Limited es =
                    gpt_loop-Limited (min (le32 hdr 80) 128) read (le64 hdr 72) (le32 hdr 84) 0 []
                      [] es r tt (omega arith, tt) f in
                  let got' = rw (e, good, size, f, parse_gpt) at got in
                  let same : es ≡ table.entries = ground arith in rw⁻¹ same l
            ]
    ]
  ]
]

parse_mbr-Limited :
    (read : ℕ → Option (List ℕ)) (table : Parttab)
    → ReadsBytes read
    → parse_mbr read ≡ some table
    → Limited table.entries
unfolding parse_mbr
parse_mbr-Limited read table r got = elim (Option-cases (read 0)) [
  | inl e ↦ absurd (let got' = rw (e, parse_mbr) at got in ground arith)
  | inr (bs, e) ↦
      elim (Bool-cases (not (get_or bs 510 0 == 0x55) || not (get_or bs 511 0 == 0xAA))) [
        | inl bad ↦ absurd (let got' = rw (e, bad, parse_mbr) at got in ground arith)
        | inr good ↦
            let got' = rw (e, good, parse_mbr) at got in
            let same : mbr_loop 4 0 bs [] ≡ table.entries = ground arith in
            rw⁻¹ same (mbr_loop-Limited 4 0 bs [] (r 0 bs e) (omega arith, tt))
      ]
]

-- Whatever bytes are on the disk, a partition table that is read, GPT or MBR, has at most eight entries, and
-- each begins and ends on 64-bit sector numbers.
pub parttab_probe-Limited :
    (read : ℕ → Option (List ℕ)) (table : Parttab)
    → ReadsBytes read
    → parttab_probe read ≡ some table
    → Limited table.entries
unfolding parttab_probe
parttab_probe-Limited read table r got = elim (Option-cases (parse_gpt read)) [
  | inr (gpt, e) ↦
      let same : gpt ≡ table = (let got' = rw (e, parttab_probe) at got in ground arith) in
      parse_gpt-Limited read table r (e ∙ ap some same)
  | inl e ↦ parse_mbr-Limited read table r (rw (e, parttab_probe) at got)
]
