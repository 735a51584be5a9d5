-- ===== src/Memory/Heap/Free.antt =====
-- What `kfree` does: it keeps the invariant, takes back exactly the block named, and a pointer that
-- names no block in use changes nothing.
use mathlib.Core.Path.{subst}
use native.Mathlib.Decide.{ℕ_discrete}
use vyro_os.Base.{
  ℕ, ◌+◌, ◌-◌, ◌%◌, ◌^◌, ◌≤◌, ◌≡◌, ◌≢◌, ◌↔◌, ◌⊎◌, inl, inr, refl, sym, ap, ◌∙◌, false, none, some,
  List, [], ◌∷◌, arith, Option-cases,
}
use vyro_os.Memory.Heap.{Block, Heap, heap_start, header_size, coalesce, free_at, kfree}
use vyro_os.Memory.Heap.Tiles.{Covers, Apart, in_use, IsValid}
use vyro_os.Memory.Heap.Grant.{Holds, Holds-in}
use vyro_os.Memory.Heap.Coalesce.{coalesce_from-Covers, coalesce_from-Apart, coalesce_from-Holds}
use vyro_os.Memory.Heap.Release.{
  free_at-Release, Release-Covers, Release-others, Release-gone, free_at-found, free_at-missing,
}
use vyro_os.Memory.Heap.Malloc.{region_end}

kfree-none :
    (h : Heap) (ptr : ℕ)
    → free_at h.blocks ((ptr + 2 ^ 64 - header_size) % 2 ^ 64) ≡ none
    → kfree h ptr ≡ h
unfolding kfree
kfree-none h ptr e = ground arith

pub kfree_null : (h : Heap) → kfree h 0 ≡ h
unfolding kfree
kfree_null h = refl

pub kfree-some :
    (h : Heap) (ptr : ℕ) {size : ℕ} {bs : List Block}
    → ptr ≢ 0
    → size ≤ h.bytes_used
    → free_at h.blocks ((ptr + 2 ^ 64 - header_size) % 2 ^ 64) ≡ some (size, bs)
    → kfree h ptr ≡ record { blocks = coalesce bs; bytes_used = h.bytes_used - size }
unfolding kfree
kfree-some h ptr ne le e = ground arith

coalesce-Covers :
    (bs : List Block) (from to : ℕ)
    → to ≤ 2 ^ 63
    → Covers from bs to
    → Covers from (coalesce bs) to × (in_use (coalesce bs) ≡ in_use bs)
unfolding coalesce
coalesce-Covers [] from to ht c = (c, refl)
coalesce-Covers (b ∷ bs) from to ht c = coalesce_from-Covers b bs from to ht c

coalesce-Apart : (bs : List Block) → Apart false (coalesce bs)
unfolding coalesce
coalesce-Apart [] = tt
coalesce-Apart (b ∷ bs) = coalesce_from-Apart b bs false refl

coalesce-Holds :
    (bs : List Block) (c : Block)
    → c.free ≡ false
    → (Holds c bs → Holds c (coalesce bs)) × (Holds c (coalesce bs) → Holds c bs)
unfolding coalesce
coalesce-Holds [] c u = (λ k. k, λ k. k)
coalesce-Holds (b ∷ bs) c u = coalesce_from-Holds b bs c u

-- Whatever the pointer, `kfree` keeps the invariant.
pub kfree-IsValid : (h : Heap) (ptr : ℕ) → IsValid h → IsValid (kfree h ptr)
kfree-IsValid h ptr v = elim (ℕ_discrete ptr 0) [
  | yes z ↦ subst (λ p. IsValid (kfree h p)) (sym z) (rw (kfree_null h) v)
  | no nz ↦ elim (Option-cases (free_at h.blocks ((ptr + 2 ^ 64 - header_size) % 2 ^ 64))) [
    | inl e ↦ rw (kfree-none h ptr e) v
    | inr ((size, bs), e) ↦
        let r = free_at-Release h.blocks ((ptr + 2 ^ 64 - header_size) % 2 ^ 64) e in
        let (covered, counted) = Release-Covers heap_start region_end r v.covers in
        let (joined, same) = coalesce-Covers bs heap_start region_end (omega arith) covered in
        rw (kfree-some h ptr nz (omega (arith, v.counted)) e) (record {
          covers = joined;
          apart = coalesce-Apart bs;
          counted = omega (arith, v.counted, same);
        })
  ]
]

-- What is left of the heap: no block in use at the address freed, the others as they were.
kfree_parts :
    (h : Heap) (c : Block)
    → IsValid h
    → Holds c h.blocks
    → c.free ≡ false
    → let h' = kfree h (c.addr + header_size) in
      (h'.bytes_used + c.size ≡ h.bytes_used)
      × ((d : Block) → Holds d h'.blocks → d.free ≡ false → d.addr ≢ c.addr)
      × ((d : Block)
          → d.free ≡ false
          → d.addr ≢ c.addr
          → (Holds d h.blocks → Holds d h'.blocks) × (Holds d h'.blocks → Holds d h.blocks))
kfree_parts h c v k u =
    let (bs, e) = free_at-found h.blocks c heap_start region_end v.covers k u in
    let inside = Holds-in h.blocks c heap_start region_end v.covers k in
    let at : (c.addr + header_size + 2 ^ 64 - header_size) % 2 ^ 64 ≡ c.addr = omega arith in
    let r = free_at-Release h.blocks c.addr e in
    let (covered, counted) = Release-Covers heap_start region_end r v.covers in
    let nz : c.addr + header_size ≢ 0 = omega arith in
    rw
      (kfree-some h (c.addr + header_size) nz (omega (arith, v.counted))
        (ap (free_at h.blocks) at ∙ e))
      (
        omega (arith, v.counted),
        (λ d there f.
            Release-gone d heap_start region_end r covered' ((coalesce-Holds bs d f).1 there) f),
        (λ d f ne.
            let (a, b) = Release-others d r ne in
            let (a', b') = coalesce-Holds bs d f in (λ x. a' (a x), λ x. b (b' x))),
      )
  where
    covered' : Covers heap_start h.blocks region_end
    covered' = v.covers

-- Freeing the pointer of a block `c` in use takes its bytes off the count; of the blocks `d` in use,
-- none is left at its address, and those at other addresses are the same before and after.
pub kfree_lem :
    (h : Heap) (c d : Block)
    → IsValid h
    → Holds c h.blocks
    → c.free ≡ false
    → d.free ≡ false
    → let h' = kfree h (c.addr + header_size) in
      (h'.bytes_used + c.size ≡ h.bytes_used)
      × (((d.addr ≡ c.addr) × ¬ Holds d h'.blocks)
          ⊎ ((d.addr ≢ c.addr) × (Holds d h.blocks ↔ Holds d h'.blocks)))
kfree_lem h c d v k u f =
    let (count, gone, others) = kfree_parts h c v k u in
    (
      count,
      elim (ℕ_discrete d.addr c.addr) [
        | yes same ↦ inl (same, λ there. gone d there f same)
        | no other ↦ inr (other, others d f other)
      ],
    )

-- A pointer that stands behind no header of a block in use is ignored.
pub kfree_ignored :
    (h : Heap) (ptr : ℕ)
    → ((c : Block)
        → Holds c h.blocks
        → c.free ≡ false
        → c.addr ≢ (ptr + 2 ^ 64 - header_size) % 2 ^ 64)
    → kfree h ptr ≡ h
kfree_ignored h ptr nothing =
    kfree-none h ptr (free_at-missing h.blocks ((ptr + 2 ^ 64 - header_size) % 2 ^ 64) nothing)

-- Freeing the same pointer twice is the same as freeing it once.
pub kfree_twice :
    (h : Heap) (c : Block)
    → IsValid h
    → Holds c h.blocks
    → c.free ≡ false
    → kfree (kfree h (c.addr + header_size)) (c.addr + header_size) ≡ kfree h (c.addr + header_size)
kfree_twice h c v k u =
    let inside = Holds-in h.blocks c heap_start region_end v.covers k in
    let at : (c.addr + header_size + 2 ^ 64 - header_size) % 2 ^ 64 ≡ c.addr = omega arith in
    kfree_ignored (kfree h (c.addr + header_size)) (c.addr + header_size)
      (λ d there f. rw at ((kfree_parts h c v k u).1 d there f))
