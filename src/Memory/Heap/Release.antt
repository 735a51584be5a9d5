-- ===== src/Memory/Heap/Release.antt =====
-- How `kfree` finds the header of a pointer, and what marking it free does to the list.
use mathlib.Core.Path.{subst}
use native.Mathlib.Decide.{ℕ_discrete}
use vyro_os.Base.{
  ℕ, ◌+◌, ◌≡◌, ◌≢◌, inl, inr, refl, sym, ap, ◌∙◌, true, false, Option, none, some, List, [], ◌∷◌,
  arith, Bool-cases, Option-cases, ne→==, ==_iff,
}
use vyro_os.Memory.Heap.{Block, header_size, free_at}
use vyro_os.Memory.Heap.Tiles.{Covers, in_use}
use vyro_os.Memory.Heap.Grant.{Holds, Holds-in}

-- How `kfree` comes to the block that it marks free.
pub data Release (at : ℕ) : List Block → ℕ → List Block → Type 0 where
  here :
      (b : Block) (bs : List Block)
      → b.addr ≡ at
      → b.free ≡ false
      → Release at (b ∷ bs) b.size (record b { free = true } ∷ bs)
  later :
      (b : Block) {bs bs' : List Block} {size : ℕ}
      → b.addr ≢ at
      → Release at bs size bs'
      → Release at (b ∷ bs) size (b ∷ bs')

-- The loop of `free_at` in four cases.
module _ (b : Block) (bs : List Block) (at : ℕ) where
  pub free_at_here :
      b.addr ≡ at
      → b.free ≡ false
      → free_at (b ∷ bs) at ≡ some (b.size, record b { free = true } ∷ bs)
  unfolding free_at
  free_at_here e u = rw ((==_iff b.addr at).1 e, free_at, u)

  free_at_marked : b.addr ≡ at → b.free ≡ true → free_at (b ∷ bs) at ≡ none
  unfolding free_at
  free_at_marked e f = rw ((==_iff b.addr at).1 e, free_at, f)

  pub free_at_later :
      {size : ℕ} {bs' : List Block}
      → b.addr ≢ at
      → free_at bs at ≡ some (size, bs')
      → free_at (b ∷ bs) at ≡ some (size, b ∷ bs')
  unfolding free_at
  free_at_later ne e = rw (ne→== b.addr at ne, free_at, e)

  free_at_miss : b.addr ≢ at → free_at bs at ≡ none → free_at (b ∷ bs) at ≡ none
  unfolding free_at
  free_at_miss ne e = rw (ne→== b.addr at ne, free_at, e)

pub free_at-Release :
    (bs : List Block) (at : ℕ) {size : ℕ} {bs' : List Block}
    → free_at bs at ≡ some (size, bs')
    → Release at bs size bs'
free_at-Release [] at e = unfold free_at in cc
free_at-Release (b ∷ bs) at {size} {bs'} e = elim (ℕ_discrete b.addr at) [
  | yes same ↦ elim (Bool-cases b.free) [
    | inl f ↦ absurd (none_some (sym (free_at_marked b bs at same f) ∙ e))
    | inr u ↦ subst (At (b ∷ bs)) (sym (free_at_here b bs at same u) ∙ e) (here b bs same u)
  ]
  | no other ↦ elim (Option-cases (free_at bs at)) [
    | inl none_e ↦ absurd (none_some (sym (free_at_miss b bs at other none_e) ∙ e))
    | inr ((size', bs''), some_e) ↦
        subst (At (b ∷ bs)) (sym (free_at_later b bs at other some_e) ∙ e)
          (later b other (free_at-Release bs at some_e))
  ]
]
  where
    At : List Block → Option (ℕ × List Block) → Type 0
    At l none = ⊥
    At l (some (s, l')) = Release at l s l'

    none_some : ◌≡◌ {A = Option (ℕ × List Block)} none (some (size, bs')) → ⊥
    none_some h = cc

pub Release-Covers :
    {at size : ℕ} {bs bs' : List Block} (from to : ℕ)
    → Release at bs size bs'
    → Covers from bs to
    → Covers from bs' to × (in_use bs' + size ≡ in_use bs)
Release-Covers from to (here b bs e u) c = (c, ground arith)
Release-Covers from to (later b n r) c =
    let ih = Release-Covers (from + header_size + b.size) to r c.2 in
    ((c.0, c.1, ih.0), omega (arith, ih.1))

-- Blocks at other addresses are untouched.
pub Release-others :
    {at size : ℕ} {bs bs' : List Block} (d : Block)
    → Release at bs size bs'
    → d.addr ≢ at
    → (Holds d bs → Holds d bs') × (Holds d bs' → Holds d bs)
Release-others d (here b bs e u) ne = (
  elim [ inl s ↦ absurd (ne (ground arith)) | inr k ↦ inr k ],
  elim [ inl s ↦ absurd (ne (ground arith)) | inr k ↦ inr k ],
)
Release-others d (later b n r) ne =
    let (there, back) = Release-others d r ne in
    (elim [ inl s ↦ inl s | inr k ↦ inr (there k) ], elim [ inl s ↦ inl s | inr k ↦ inr (back k) ])

-- No block in use is left at the address.
pub Release-gone :
    {at size : ℕ} {bs bs' : List Block} (d : Block) (from to : ℕ)
    → Release at bs size bs'
    → Covers from bs to
    → Holds d bs'
    → d.free ≡ false
    → d.addr ≢ at
Release-gone d from to (here b bs e u) c (inl s) f = absurd (ground arith)
Release-gone d from to (here b bs e u) c (inr k) f =
    let inside = Holds-in bs d (from + header_size + b.size) to c.2 k in λ q. omega arith
Release-gone d from to (later b n r) c (inl s) f = λ q. n (ground arith)
Release-gone d from to (later b n r) c (inr k) f =
    Release-gone d (from + header_size + b.size) to r c.2 k f

-- In a covered region the header at a block's address is that block's.
pub free_at-found :
    (bs : List Block) (c : Block) (from to : ℕ)
    → Covers from bs to
    → Holds c bs
    → c.free ≡ false
    → (bs' : List Block) × (free_at bs c.addr ≡ some (c.size, bs'))
free_at-found [] c from to v k u = absurd k
free_at-found (b ∷ bs) c from to v (inl e) u = (
  record b { free = true } ∷ bs,
  free_at_here b bs c.addr (ap (λ x. x.addr) e) (ground arith) ∙ ground arith,
)
free_at-found (b ∷ bs) c from to v (inr k) u =
    let (bs', e) = free_at-found bs c (from + header_size + b.size) to v.2 k u in
    let inside = Holds-in bs c (from + header_size + b.size) to v.2 k in
    (b ∷ bs', free_at_later b bs c.addr (omega arith) e)

pub free_at-missing :
    (bs : List Block) (at : ℕ)
    → ((c : Block) → Holds c bs → c.free ≡ false → c.addr ≢ at)
    → free_at bs at ≡ none
free_at-missing [] at none_there = unfold free_at in refl
free_at-missing (b ∷ bs) at none_there = elim (ℕ_discrete b.addr at) [
  | yes same ↦ elim (Bool-cases b.free) [
    | inl f ↦ free_at_marked b bs at same f
    | inr u ↦ absurd (none_there b (inl refl) u same)
  ]
  | no other ↦ free_at_miss b bs at other (free_at-missing bs at (λ c k u. none_there c (inr k) u))
]
