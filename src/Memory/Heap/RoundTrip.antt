-- ===== src/Memory/Heap/RoundTrip.antt =====
-- `kfree` after `kmalloc`: the heap is as it was, headers and counter.
use native.Mathlib.Decide.{ℕ_discrete}
use vyro_os.Base.{
  ℕ, ◌+◌, ◌-◌, ◌%◌, ◌^◌, ◌≤◌, ◌≡◌, ◌≢◌, inl, inr, refl, ap, ◌∙◌, Bool, true, false, ◌&&◌, some,
  List, [], ◌∷◌, ◌++◌, arith, leb, Bool-cases, Option-cases,
}
use vyro_os.Memory.Heap.{
  Block, Heap, heap_start, header_size, merge, carve, taken, malloc_from, kmalloc, coalesce_from,
  coalesce, free_at, kfree, round_up,
}
use vyro_os.Memory.Heap.Tiles.{Covers, Apart, IsValid, Covers-le, in_use-le}
use vyro_os.Memory.Heap.Grant.{Grant, malloc_from-Grant, Grant-in}
use vyro_os.Memory.Heap.Coalesce.{coalesce_join, coalesce_pass}
use vyro_os.Memory.Heap.Release.{free_at_here, free_at_later}
use vyro_os.Memory.Heap.Malloc.{region_end, kmalloc-none, kmalloc-some, kmalloc_zero}
use vyro_os.Memory.Heap.Free.{kfree-some, kfree_null}

abbrev first_free : List Block → Bool
first_free [] = false
first_free (b ∷ bs) = b.free

coalesce_from-Apart : (b : Block) (bs : List Block) → Apart b.free bs → coalesce_from b bs ≡ b ∷ bs
coalesce_from-Apart b [] a = unfold coalesce_from in refl
coalesce_from-Apart b (n ∷ rest) a =
    coalesce_pass b n rest a.0 ∙ ap (λ r. b ∷ r) (coalesce_from-Apart n rest a.1)

coalesce-cons :
    (b : Block) (bs : List Block)
    → (b.free && first_free bs) ≡ false
    → coalesce (b ∷ bs) ≡ b ∷ coalesce bs
unfolding coalesce
coalesce-cons b [] h = unfold coalesce_from in refl
coalesce-cons b (n ∷ rest) h = coalesce_pass b n rest h

-- The blocks that `kfree` makes of those that a grant left.
abbrev Restored : ℕ → List Block → ℕ → List Block → Type 0
Restored ptr bs got bs' =
    (back : List Block) × (free_at bs' (ptr - header_size) ≡ some (got, back))
    × (coalesce back ≡ bs)
    × (first_free back ≡ first_free bs)

carve-Restored :
    (b : Block) (bs : List Block) (size from to : ℕ)
    → (b.free && leb size b.size) ≡ true
    → Covers from (b ∷ bs) to
    → to ≤ 2 ^ 63
    → Apart false (b ∷ bs)
    → Restored (b.addr + header_size) (b ∷ bs) (taken b size) (carve b size ++ bs)
unfolding carve taken
carve-Restored b bs size from to h c ht a =
    elim (Bool-cases (leb ((size + header_size + 16) % 2 ^ 64) b.size)) [
      | inl split ↦ rw split (
        front ∷ behind ∷ bs,
        free_at_here (record front { free = false }) (behind ∷ bs) _ (omega arith) refl,
        unfold coalesce in
            coalesce_join front behind bs refl ∙ rw (joined split) (coalesce_from-Apart b bs a.1),
        ground arith,
      )
      | inr whole ↦ rw whole (
        b ∷ bs,
        free_at_here (record b { free = false }) bs _ (omega arith) refl ∙ ground arith,
        unfold coalesce in coalesce_from-Apart b bs a.1,
        refl,
      )
    ]
  where
    front : Block
    front = record { addr = b.addr; size = size; free = true }

    behind : Block
    behind = record {
      addr = b.addr + header_size + size;
      size = b.size - size - header_size;
      free = true;
    }

    end : from + header_size + b.size ≤ to
    end = Covers-le (from + header_size + b.size) bs to c.2

    joined : leb ((size + header_size + 16) % 2 ^ 64) b.size ≡ true → merge front behind ≡ b
    joined split = unfold merge in ground (arith, end)

Grant-Restored :
    {size ptr got : ℕ} {bs bs' : List Block} (from to : ℕ)
    → Grant size bs ptr got bs'
    → Covers from bs to
    → to ≤ 2 ^ 63
    → Apart false bs
    → Restored ptr bs got bs'
Grant-Restored {size} from to (Grant.here b bs h) c ht a = carve-Restored b bs size from to h c ht a
Grant-Restored {ptr} from to (Grant.later b {bs} {bs'} {got} h g) c ht a =
    let (back, found, joined, same) =
      Grant-Restored (from + header_size + b.size) to g c.2 ht (weaken bs a.1) in
    let inside = Grant-in (from + header_size + b.size) to g c.2 ht in
    (
      b ∷ back,
      free_at_later b bs' (ptr - header_size) (omega arith) found,
      coalesce-cons b back (rw same (parted bs a.1)) ∙ ap (λ r. b ∷ r) joined,
      refl,
    )
  where
    weaken : (l : List Block) → Apart b.free l → Apart false l
    weaken [] p = tt
    weaken (n ∷ l) p = (refl, p.1)

    parted : (l : List Block) → Apart b.free l → (b.free && first_free l) ≡ false
    parted [] p = ground arith
    parted (n ∷ l) p = p.0

-- On a valid heap, freeing what `kmalloc` has just returned gives back the heap as it was: the same
-- headers in the same order, and the same count of bytes in use.
pub kfree-kmalloc :
    (h : Heap) (size : ℕ) → IsValid h → kfree (kmalloc h size).0 (kmalloc h size).1 ≡ h
kfree-kmalloc h size v = elim (ℕ_discrete size 0) [
  | yes z ↦ rw (kmalloc_zero h size z) (kfree_null h)
  | no nz ↦ elim (Option-cases (malloc_from h.blocks (round_up size))) [
    | inl e ↦ rw (kmalloc-none h size e) (kfree_null h)
    | inr ((ptr, got, bs), e) ↦
        let g = malloc_from-Grant h.blocks (round_up size) e in
        let (low, high) = Grant-in heap_start region_end g v.covers (omega arith) in
        let (back, found, joined, same) =
          Grant-Restored heap_start region_end g v.covers (omega arith) v.apart in
        let count : (h.bytes_used + got) % 2 ^ 64 ≡ h.bytes_used + got =
          omega (arith, v.counted, in_use-le heap_start h.blocks region_end v.covers) in
        let at : (ptr + 2 ^ 64 - header_size) % 2 ^ 64 ≡ ptr - header_size = omega arith in
        let nz' : ptr ≢ 0 = omega arith in
        let h' : Heap = record { blocks = bs; bytes_used = (h.bytes_used + got) % 2 ^ 64 } in
        rw (kmalloc-some h size nz e) (
          kfree-some h' ptr nz' (omega (arith, count)) (ap (free_at bs) at ∙ found)
          ∙ ground (arith, joined, count))
  ]
]
