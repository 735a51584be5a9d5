-- ===== src/Memory/Heap/Malloc.antt =====
-- What `kmalloc` grants: the invariant is kept, the block is large enough and apart from every
-- block in use, and null is returned exactly where no free block is large enough.
use native.Mathlib.Decide.{ℕ_discrete}
use vyro_os.Base.{
  ℕ, ◌+◌, ◌-◌, ◌%◌, ◌^◌, ◌≤◌, ◌<◌, ◌≡◌, ◌≢◌, ◌⊎◌, inl, inr, refl, sym, ap, ◌∙◌, true, false, ◌&&◌,
  Option, none, some, List, [], ◌∷◌, ◌++◌, arith, leb, Bool-cases, Option-cases,
}
use vyro_os.Memory.Heap.{
  Block, Heap, heap_start, heap_size, header_size, round_up, carve, taken, malloc_from, kmalloc,
  heap_used, heap_total,
}
use vyro_os.Memory.Heap.Tiles.{Covers, in_use, IsValid, Covers-le, in_use-le}
use vyro_os.Memory.Heap.Grant.{
  NoRoom, Holds, granted, malloc_from_here, malloc_from_later, malloc_from-none, malloc_from-Grant,
  Grant-Apart, Grant-Holds_used, Grant-Holds_new, Grant-apart_used,
}

-- The result of the loop over the blocks from `from` to `to`.
abbrev Outcome : ℕ → ℕ → ℕ → List Block → Option (ℕ × ℕ × List Block) → Type 0
Outcome size from to bs none = NoRoom size bs
Outcome size from to bs (some (ptr, got, bs')) =
    Covers from bs' to
    × (in_use bs' ≡ in_use bs + got)
    × (size ≤ got)
    × (from + header_size ≤ ptr)
    × (ptr + got ≤ to)

carve-Outcome :
    (b : Block) (bs : List Block) (size from to : ℕ)
    → size % 8 ≡ 0
    → to ≤ 2 ^ 63
    → (b.free && leb size b.size) ≡ true
    → Covers from (b ∷ bs) to
    → Outcome size from to (b ∷ bs) (some (b.addr + header_size, taken b size, carve b size ++ bs))
unfolding carve taken
carve-Outcome b bs size from to hs ht h c =
    elim (Bool-cases (leb ((size + header_size + 16) % 2 ^ 64) b.size)) [
      | inl split ↦ rw split (ground (arith, end))
      | inr whole ↦ rw whole (ground (arith, end))
    ]
  where
    end : from + header_size + b.size ≤ to
    end = Covers-le (from + header_size + b.size) bs to c.2

malloc_from-Outcome :
    (bs : List Block) (size from to : ℕ)
    → size % 8 ≡ 0
    → to ≤ 2 ^ 63
    → Covers from bs to
    → Outcome size from to bs (malloc_from bs size)
malloc_from-Outcome [] size from to hs ht c = unfold malloc_from in tt
malloc_from-Outcome (b ∷ bs) size from to hs ht c = elim (Bool-cases (b.free && leb size b.size)) [
  | inl here ↦ rw (malloc_from_here b bs size here) (carve-Outcome b bs size from to hs ht here c)
  | inr later ↦
      let ih = malloc_from-Outcome bs size (from + header_size + b.size) to hs ht c.2 in
      elim (Option-cases (malloc_from bs size)) [
        | inl e ↦ rw (malloc_from-none b bs size later e) (ground arith, rw e at ih)
        | inr ((ptr, got, bs'), e) ↦
            let ih' : Outcome size (from + header_size + b.size) to bs (some (ptr, got, bs')) =
              rw e at ih in
            rw (malloc_from_later b bs size later e)
              ((c.0, c.1, ih'.0), omega (arith, ih'.1), ih'.2, omega (arith, ih'.3), ih'.4)
      ]
]

pub round_up-even : (size : ℕ) → round_up size % 8 ≡ 0
unfolding round_up
round_up-even size = omega arith

pub round_up-le : (size : ℕ) → size ≤ 2 ^ 64 - 8 → size ≤ round_up size
unfolding round_up
round_up-le size h = omega arith

abbrev pub region_end : ℕ
region_end = heap_start + heap_size

-- The two ways a call of a non-zero size can go.
pub kmalloc-none :
    (h : Heap) (size : ℕ) → malloc_from h.blocks (round_up size) ≡ none → kmalloc h size ≡ (h, 0)
unfolding kmalloc
kmalloc-none h size e = ground arith

pub kmalloc-some :
    (h : Heap) (size : ℕ) {ptr got : ℕ} {bs : List Block}
    → size ≢ 0
    → malloc_from h.blocks (round_up size) ≡ some (ptr, got, bs)
    → kmalloc h size ≡ (record { blocks = bs; bytes_used = (h.bytes_used + got) % 2 ^ 64 }, ptr)
unfolding kmalloc
kmalloc-some h size ne e = ground arith

pub kmalloc_zero : (h : Heap) (size : ℕ) → size ≡ 0 → kmalloc h size ≡ (h, 0)
unfolding kmalloc
kmalloc_zero h size e = ground arith

-- Every call of `kmalloc` keeps the invariant, whether or not it finds a block.
pub kmalloc-IsValid : (h : Heap) (size : ℕ) → IsValid h → IsValid (kmalloc h size).0
kmalloc-IsValid h size v = elim (Option-cases (malloc_from h.blocks (round_up size))) [
  | inl e ↦ rw (kmalloc-none h size e) v
  | inr ((ptr, got, bs), e) ↦ elim (ℕ_discrete size 0) [
    | yes z ↦ rw (kmalloc_zero h size z) v
    | no nz ↦
        let facts : Outcome (round_up size) heap_start region_end h.blocks (some (ptr, got, bs)) =
          rw e at (
            malloc_from-Outcome h.blocks (round_up size) heap_start region_end (round_up-even size)
              (omega arith) v.covers) in
        rw (kmalloc-some h size nz e) (record {
          covers = facts.0;
          apart = Grant-Apart false (malloc_from-Grant h.blocks (round_up size) e) v.apart;
          counted = omega (arith, facts.1, v.counted, in_use-le heap_start bs region_end facts.0);
        })
  ]
]

-- Each block of `bs` is free, or is still one of `bs'` and ends before the header of the new block
-- or starts behind the new block.
abbrev pub Undisturbed : List Block → List Block → ℕ → ℕ → Type 0
Undisturbed [] bs' ptr got = Unit
Undisturbed (c ∷ bs) bs' ptr got =
    ((c.free ≡ true)
      ⊎ (Holds c bs'
          × ((c.addr + header_size + c.size + header_size ≤ ptr) ⊎ (ptr + got ≤ c.addr))))
    × Undisturbed bs bs' ptr got

Undisturbed-of_each :
    (bs bs' : List Block) (ptr got : ℕ)
    → ((c : Block)
        → Holds c bs
        → c.free ≡ false
        → Holds c bs'
          × ((c.addr + header_size + c.size + header_size ≤ ptr) ⊎ (ptr + got ≤ c.addr)))
    → Undisturbed bs bs' ptr got
Undisturbed-of_each [] bs' ptr got h = tt
Undisturbed-of_each (c ∷ bs) bs' ptr got h = (
  elim (Bool-cases c.free) [ inl f ↦ inl f | inr u ↦ inr (h c (inl refl) u) ],
  Undisturbed-of_each bs bs' ptr got (λ d k u. h d (inr k) u),
)

-- What a caller is given: a block of the heap marked in use, at least as large as asked, between
-- the bounds of the region, its header and bytes apart from every block that was in use.
abbrev pub Given : Heap → ℕ → Heap → ℕ → ℕ → Type 0
Given h size h' ptr got =
    (size ≤ got)
    × Holds (granted ptr got) h'.blocks
    × (heap_start + header_size ≤ ptr)
    × (ptr + got ≤ region_end)
    × (heap_used h' ≡ heap_used h + got)
    × Undisturbed h.blocks h'.blocks ptr got

-- On a valid heap a call for `size` bytes, not zero and below 2 ^ 64 - 7, either returns null,
-- leaves the heap as it was and no free block could hold the size rounded up, or it returns a
-- pointer to a block that the heap holds in use: at least `size` bytes, inside the region, apart
-- from every block that was in use, and those are still there.
pub kmalloc_lem :
    (h : Heap) (size : ℕ)
    → IsValid h
    → 0 < size
    → size ≤ 2 ^ 64 - 8
    → ((kmalloc h size ≡ (h, 0)) × NoRoom (round_up size) h.blocks)
      ⊎ ((got : ℕ) × Given h size (kmalloc h size).0 (kmalloc h size).1 got)
kmalloc_lem h size v pos le = elim (Option-cases (malloc_from h.blocks (round_up size))) [
  | inl e ↦ inl (kmalloc-none h size e, rw e at facts)
  | inr ((ptr, got, bs), e) ↦
      let some_facts : Outcome (round_up size) heap_start region_end h.blocks
          (some (ptr, got, bs)) =
        rw e at facts in
      let g = malloc_from-Grant h.blocks (round_up size) e in
      let nz : size ≢ 0 = omega arith in
      inr (
        got,
        rw (kmalloc-some h size nz e) (
          omega (arith, round_up-le size le, some_facts.2),
          Grant-Holds_new g,
          some_facts.3,
          some_facts.4,
          unfold heap_used in
              omega
                (arith, some_facts.1, v.counted, in_use-le heap_start bs region_end some_facts.0),
          Undisturbed-of_each h.blocks bs ptr got (λ c k u. (
            Grant-Holds_used c g k u,
            Grant-apart_used c heap_start region_end g v.covers (omega arith) k u,
          )),
        ),
      )
]
  where
    facts :
        Outcome
          (round_up size)
          heap_start
          region_end
          h.blocks
          (malloc_from h.blocks (round_up size))
    facts =
        malloc_from-Outcome h.blocks (round_up size) heap_start region_end (round_up-even size)
          (omega arith) v.covers

free_block_taken :
    (bs : List Block) (c : Block) → Holds c bs → c.free ≡ true → malloc_from bs 0 ≢ none
unfolding malloc_from
free_block_taken [] c k f e = absurd k
free_block_taken (b ∷ bs) c (inl s) f e = ground arith
free_block_taken (b ∷ bs) c (inr k) f e = ground (arith, free_block_taken bs c k f)

-- A size in the last seven below 2 ^ 64 is rounded up to 0. While any block is free such a call is
-- granted: it returns a pointer, though the region is smaller than what was asked.
pub kmalloc_wraps :
    (h : Heap) (size : ℕ) (c : Block)
    → IsValid h
    → 2 ^ 64 - 8 < size
    → size < 2 ^ 64
    → Holds c h.blocks
    → c.free ≡ true
    → ((kmalloc h size).1 ≢ 0) × (heap_total < size)
kmalloc_wraps h size c v lo hi k f = elim (Option-cases (malloc_from h.blocks (round_up size))) [
  | inl e ↦ absurd (free_block_taken h.blocks c k f (ap (malloc_from h.blocks) (sym rounded) ∙ e))
  | inr ((ptr, got, bs), e) ↦
      let facts : Outcome (round_up size) heap_start region_end h.blocks (some (ptr, got, bs)) =
        rw e at (
          malloc_from-Outcome h.blocks (round_up size) heap_start region_end (round_up-even size)
            (omega arith) v.covers) in
      let nz : size ≢ 0 = omega arith in
      (rw (kmalloc-some h size nz e) (λ z. omega (arith, facts.3)), omega arith)
]
  where
    rounded : round_up size ≡ 0
    rounded = unfold round_up in omega arith
