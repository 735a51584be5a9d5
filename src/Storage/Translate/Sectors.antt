-- ===== src/Storage/Translate/Sectors.antt =====
-- The sectors of a disk of 4096-byte blocks, and that both ways of reading give them.
use vyro_os.Base.{
  take_all, ℕ, zero, suc, ◌+◌, ◌-◌, ◌*◌, ◌/◌, ◌%◌, ◌^◌, ◌≤◌, ◌<◌, ◌≡◌, refl, sym, ap, ap₂, ◌∙◌,
  Option, some, List, [], ◌++◌, length, take, drop, take_chunk, arith, Bool-cases, inl, inr, ◌&&◌,
  ◌==◌,
}
use mathlib.Core.List.{append-nil, append_assoc}
use vyro_os.Storage.Translate.{read_sectors, translated_read}

-- Blocks one after another, as a driver gives them.
pub blocks : (ℕ → List ℕ) → ℕ → ℕ → List ℕ
blocks disk lba zero = []
blocks disk lba (suc n) = disk lba ++ blocks disk (lba + 1) n

pub sector : (ℕ → List ℕ) → ℕ → List ℕ
sector disk i = take 512 (drop (i % 8 * 512) (disk (i / 8)))

pub sectors : (ℕ → List ℕ) → ℕ → ℕ → List ℕ
unfolding sector
sectors disk lba zero = []
sectors disk lba (suc n) = sector disk lba ++ sectors disk (lba + 1) n

-- Sectors of one block are a part of it.
sectors_within :
    (disk : ℕ → List ℕ) (b j m : ℕ)
    → j + m ≤ 8
    → sectors disk (b * 8 + j) m ≡ take (m * 512) (drop (j * 512) (disk b))
unfolding sectors sector
sectors_within disk b j zero le = refl
sectors_within disk b j (suc m) le =
    let place : (b * 8 + j) % 8 ≡ j = omega arith in
    let block : (b * 8 + j) / 8 ≡ b = omega arith in
    let next : b * 8 + j + 1 ≡ b * 8 + (j + 1) = omega arith in
    let more : m * 512 ≡ suc m * 512 - 512 = omega arith in
    let on : (j + 1) * 512 ≡ j * 512 + 512 = omega arith in
    ap₂ (λ x y. take 512 (drop (x * 512) (disk y)) ++ sectors disk (b * 8 + j + 1) m) place block
    ∙ ap (λ k. take 512 (drop (j * 512) (disk b)) ++ sectors disk k m) next
    ∙ ap (λ r. take 512 (drop (j * 512) (disk b)) ++ r)
        (sectors_within disk b (j + 1) m (omega arith))
    ∙ ap₂ (λ x y. take 512 (drop (j * 512) (disk b)) ++ take x (drop y (disk b))) more on
    ∙ take_chunk 512 (suc m * 512) (j * 512) (disk b) (omega arith)

sectors_append :
    (disk : ℕ → List ℕ) (lba m n : ℕ)
    → sectors disk lba (m + n) ≡ sectors disk lba m ++ sectors disk (lba + m) n
unfolding sectors
sectors_append disk lba zero n =
    let at : lba ≡ lba + 0 = omega arith in
    let all : 0 + n ≡ n = omega arith in ap₂ (sectors disk) at all
sectors_append disk lba (suc m) n =
    let one : suc m + n ≡ suc (m + n) = omega arith in
    let on : lba + 1 + m ≡ lba + suc m = omega arith in
    ap (sectors disk lba) one
    ∙ ap (λ r. sector disk lba ++ r)
        (sectors_append disk (lba + 1) m n
          ∙ ap (λ k. sectors disk (lba + 1) m ++ sectors disk k n) on)
    ∙ sym (append_assoc (sector disk lba) (sectors disk (lba + 1) m) (sectors disk (lba + suc m) n))

-- Whole blocks of 4096 bytes are their sectors.
blocks-sectors :
    (disk : ℕ → List ℕ)
    → ((i : ℕ) → length (disk i) ≡ 4096)
    → (b n : ℕ) → blocks disk b n ≡ sectors disk (b * 8) (n * 8)
unfolding blocks sectors
blocks-sectors disk full b zero = refl
blocks-sectors disk full b (suc n) =
    let here : b * 8 ≡ b * 8 + 0 = omega arith in
    let more : suc n * 8 ≡ 8 + n * 8 = omega arith in
    let on : (b + 1) * 8 ≡ b * 8 + 8 = omega arith in
    ap₂ ◌++◌
      (sym (
        ap (λ k. sectors disk k 8) here
        ∙ sectors_within disk b 0 8 (omega arith)
        ∙ ap (λ k. take k (disk b)) (sym (full b))
        ∙ take_all (disk b)))
      (blocks-sectors disk full (b + 1) n ∙ ap (λ k. sectors disk k (n * 8)) on)
    ∙ sym (ap (sectors disk (b * 8)) more ∙ sectors_append disk (b * 8) 8 (n * 8))

read_sectors_step :
    (native : ℕ → ℕ → Option (List ℕ)) (lba n : ℕ) (bounce bytes : List ℕ)
    → native (lba / 8) 1 ≡ some bounce
    → read_sectors native 8 ((lba + 1) % 2 ^ 64) n ≡ some bytes
    → read_sectors native 8 lba (suc n) ≡ some (take 512 (drop (lba % 8 * 512) bounce) ++ bytes)
unfolding read_sectors
read_sectors_step native lba n bounce bytes h k = rw (h, k, read_sectors) refl

read_sectors_lem :
    (disk : ℕ → List ℕ) (native : ℕ → ℕ → Option (List ℕ)) (total : ℕ)
    → total * 8 < 2 ^ 64
    → ((lba : ℕ) → lba < total → native lba 1 ≡ some (blocks disk lba 1))
    → (lba count : ℕ) → lba + count ≤ total * 8
    → read_sectors native 8 lba count ≡ some (sectors disk lba count)
unfolding read_sectors sectors sector blocks
read_sectors_lem disk native total small reads lba zero le = refl
read_sectors_lem disk native total small reads lba (suc n) le =
    let wrap : (lba + 1) % 2 ^ 64 ≡ lba + 1 = omega arith in
    read_sectors_step native lba n (disk (lba / 8)) (sectors disk (lba + 1) n)
      (reads (lba / 8) (omega arith) ∙ ap some (append-nil (disk (lba / 8))))
      (ap (λ k. read_sectors native 8 k n) wrap
        ∙ read_sectors_lem disk native total small reads (lba + 1) n (omega arith))

-- On a disk of `total` blocks of 4096 bytes, whose driver reads 1 to `most` blocks at once that lie on
-- the disk (and may refuse any other request, none and too many blocks among them), both ways of
-- reading, whole blocks and sector by sector, give the `count` sectors from `fs_lba` on, when they
-- lie on the disk and are at least one sector and at most what `most` blocks hold.
pub translated_read_lem :
    (disk : ℕ → List ℕ) (native : ℕ → ℕ → Option (List ℕ)) (total most : ℕ)
    → ((i : ℕ) → length (disk i) ≡ 4096)
    → total * 8 < 2 ^ 64
    → 1 ≤ most
    → ((lba n : ℕ) → 1 ≤ n → n ≤ most → lba + n ≤ total → native lba n ≡ some (blocks disk lba n))
    → (fs_lba count : ℕ) → 1 ≤ count
    → count ≤ most * 8
    → fs_lba + count ≤ total * 8
    → translated_read native 8 fs_lba count ≡ some (sectors disk fs_lba count)
unfolding translated_read
translated_read_lem disk native total most full small one reads fs_lba count some' few le =
    elim (Bool-cases ((fs_lba % 8 == 0) && (count % 8 == 0))) [
      | inr h ↦ rw h (
          read_sectors_lem disk native total small
            (λ lba lt. reads lba 1 (omega arith) one (omega arith)) fs_lba count le)
      | inl h ↦ rw h (
          let a : fs_lba / 8 * 8 ≡ fs_lba = ground arith in
          let c : count / 8 * 8 ≡ count = ground arith in
          reads (fs_lba / 8) (count / 8) (omega arith) (omega arith) (omega arith)
          ∙ ap some (blocks-sectors disk full (fs_lba / 8) (count / 8) ∙ ap₂ (sectors disk) a c))
    ]
