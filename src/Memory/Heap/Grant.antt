-- ===== src/Memory/Heap/Grant.antt =====
-- How the first-fit loop of `kmalloc` comes to a block, and where that block lies.
use mathlib.Core.Path.{subst}
use vyro_os.Base.{
  ℕ, ◌+◌, ◌-◌, ◌%◌, ◌^◌, ◌≤◌, ◌<◌, ◌≡◌, ◌⊎◌, inl, inr, refl, sym, ◌∙◌, Bool, true, false, ◌&&◌,
  Option, none, some, List, [], ◌∷◌, ◌++◌, arith, leb, Bool-cases, Option-cases,
}
use vyro_os.Memory.Heap.{Block, header_size, carve, taken, malloc_from}
use vyro_os.Memory.Heap.Tiles.{Covers, Apart, Covers-le}

abbrev pub NoRoom : ℕ → List Block → Type 0
NoRoom size [] = Unit
NoRoom size (b ∷ bs) = ((b.free ≡ false) ⊎ (b.size < size)) × NoRoom size bs

-- Some block of the list is `c`.
abbrev pub Holds : Block → List Block → Type 0
Holds c [] = ⊥
Holds c (b ∷ bs) = (b ≡ c) ⊎ Holds c bs

-- The block that `kmalloc` returns the end of the header of.
abbrev pub granted : ℕ → ℕ → Block
granted ptr got = record { addr = ptr - header_size; size = got; free = false }

-- The loop in three cases.
pub malloc_from_here :
    (b : Block) (bs : List Block) (size : ℕ)
    → (b.free && leb size b.size) ≡ true
    → malloc_from (b ∷ bs) size ≡ some (b.addr + header_size, taken b size, carve b size ++ bs)
unfolding malloc_from
malloc_from_here b bs size h = rw (h, malloc_from)

pub malloc_from_later :
    (b : Block) (bs : List Block) (size : ℕ) {ptr got : ℕ} {bs' : List Block}
    → (b.free && leb size b.size) ≡ false
    → malloc_from bs size ≡ some (ptr, got, bs')
    → malloc_from (b ∷ bs) size ≡ some (ptr, got, b ∷ bs')
unfolding malloc_from
malloc_from_later b bs size h e = rw (h, malloc_from, e)

pub malloc_from-none :
    (b : Block) (bs : List Block) (size : ℕ)
    → (b.free && leb size b.size) ≡ false
    → malloc_from bs size ≡ none
    → malloc_from (b ∷ bs) size ≡ none
unfolding malloc_from
malloc_from-none b bs size h e = rw (h, malloc_from, e)

-- How the loop comes to a block: it takes the one at hand, or passes it by.
pub data Grant (size : ℕ) : List Block → ℕ → ℕ → List Block → Type 0 where
  here :
      (b : Block) (bs : List Block)
      → (b.free && leb size b.size) ≡ true
      → Grant size (b ∷ bs) (b.addr + header_size) (taken b size) (carve b size ++ bs)
  later :
      (b : Block) {bs bs' : List Block} {ptr got : ℕ}
      → (b.free && leb size b.size) ≡ false
      → Grant size bs ptr got bs'
      → Grant size (b ∷ bs) ptr got (b ∷ bs')

pub malloc_from-Grant :
    (bs : List Block) (size : ℕ) {ptr got : ℕ} {bs' : List Block}
    → malloc_from bs size ≡ some (ptr, got, bs')
    → Grant size bs ptr got bs'
malloc_from-Grant [] size e = unfold malloc_from in cc
malloc_from-Grant (b ∷ bs) size {ptr} {got} {bs'} e =
    elim (Bool-cases (b.free && leb size b.size)) [
      | inl h ↦ subst (At (b ∷ bs)) (sym (malloc_from_here b bs size h) ∙ e) (here b bs h)
      | inr h ↦ elim (Option-cases (malloc_from bs size)) [
        | inl none_e ↦ absurd (none_some (sym (malloc_from-none b bs size h none_e) ∙ e))
        | inr ((ptr', got', bs''), some_e) ↦
            subst (At (b ∷ bs)) (sym (malloc_from_later b bs size h some_e) ∙ e)
              (later b h (malloc_from-Grant bs size some_e))
      ]
    ]
  where
    At : List Block → Option (ℕ × ℕ × List Block) → Type 0
    At l none = ⊥
    At l (some (p, g, l')) = Grant size l p g l'

    none_some : ◌≡◌ {A = Option (ℕ × ℕ × List Block)} none (some (ptr, got, bs')) → ⊥
    none_some h = cc

Apart-weaken : (before : Bool) (bs : List Block) → Apart before bs → Apart false bs
Apart-weaken before [] a = tt
Apart-weaken before (b ∷ bs) a = (refl, a.1)

-- No free block comes to stand beside another.
pub Grant-Apart :
    {size ptr got : ℕ} {bs bs' : List Block} (before : Bool)
    → Grant size bs ptr got bs'
    → Apart before bs
    → Apart before bs'
unfolding carve
Grant-Apart {size} before (here b bs h) a =
    elim (Bool-cases (leb ((size + header_size + 16) % 2 ^ 64) b.size)) [
      | inl split ↦ rw split (ground arith)
      | inr whole ↦ rw whole (ground (arith, Apart-weaken b.free bs a.1))
    ]
Grant-Apart before (later b h g) a = (a.0, Grant-Apart b.free g a.1)

-- A block in use stays in the list.
pub Grant-Holds_used :
    {size ptr got : ℕ} {bs bs' : List Block} (c : Block)
    → Grant size bs ptr got bs'
    → Holds c bs
    → c.free ≡ false
    → Holds c bs'
unfolding carve
Grant-Holds_used c (here b bs h) (inl e) u = absurd (ground arith)
Grant-Holds_used {size} c (here b bs h) (inr k) u =
    elim (Bool-cases (leb ((size + header_size + 16) % 2 ^ 64) b.size)) [
      | inl split ↦ rw split (inr (inr k))
      | inr whole ↦ rw whole (inr k)
    ]
Grant-Holds_used c (later b h g) (inl e) u = inl e
Grant-Holds_used c (later b h g) (inr k) u = inr (Grant-Holds_used c g k u)

-- The block granted is in the list, marked in use.
pub Grant-Holds_new :
    {size ptr got : ℕ} {bs bs' : List Block}
    → Grant size bs ptr got bs'
    → Holds (granted ptr got) bs'
unfolding carve taken
Grant-Holds_new {size} (here b bs h) =
    elim (Bool-cases (leb ((size + header_size + 16) % 2 ^ 64) b.size)) [
      | inl split ↦ rw split (inl (ground arith))
      | inr whole ↦ rw whole (inl (ground arith))
    ]
Grant-Holds_new (later b h g) = inr (Grant-Holds_new g)

-- A block of a covered region lies in it.
pub Holds-in :
    (bs : List Block) (c : Block) (from to : ℕ)
    → Covers from bs to
    → Holds c bs
    → (from ≤ c.addr) × (c.addr + header_size + c.size ≤ to)
Holds-in [] c from to v k = absurd k
Holds-in (b ∷ bs) c from to v (inl e) =
    ground (arith, Covers-le (from + header_size + b.size) bs to v.2)
Holds-in (b ∷ bs) c from to v (inr k) =
    omega (arith, Holds-in bs c (from + header_size + b.size) to v.2 k)

pub Grant-in :
    {size ptr got : ℕ} {bs bs' : List Block} (from to : ℕ)
    → Grant size bs ptr got bs'
    → Covers from bs to
    → to ≤ 2 ^ 63
    → (from + header_size ≤ ptr) × (ptr + got ≤ to)
unfolding taken
Grant-in from to (here b bs h) v ht =
    ground (arith, Covers-le (from + header_size + b.size) bs to v.2)
Grant-in from to (later b h g) v ht =
    omega (arith, Grant-in (from + header_size + b.size) to g v.2 ht)

-- A block that was in use ends before the header of the new one, or starts behind the new one.
pub Grant-apart_used :
    {size ptr got : ℕ} {bs bs' : List Block} (c : Block) (from to : ℕ)
    → Grant size bs ptr got bs'
    → Covers from bs to
    → to ≤ 2 ^ 63
    → Holds c bs
    → c.free ≡ false
    → (c.addr + header_size + c.size + header_size ≤ ptr) ⊎ (ptr + got ≤ c.addr)
unfolding taken
Grant-apart_used c from to (here b bs h) v ht (inl e) u = absurd (ground arith)
Grant-apart_used c from to (here b bs h) v ht (inr k) u =
    let later_addr = Holds-in bs c (from + header_size + b.size) to v.2 k in inr (ground arith)
Grant-apart_used c from to (later b h g) v ht (inl e) u =
    let inside = Grant-in (from + header_size + b.size) to g v.2 ht in inl (ground arith)
Grant-apart_used c from to (later b h g) v ht (inr k) u =
    Grant-apart_used c (from + header_size + b.size) to g v.2 ht k u
