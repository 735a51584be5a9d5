-- ===== src/Memory/Heap/Coalesce.antt =====
-- `coalesce` of kernel/heap.c: it covers the same region, keeps the blocks in use, and leaves no two
-- free blocks side by side.
use mathlib.Core.Path.{subst}
use vyro_os.Base.{
  ℕ, ◌+◌, ◌^◌, ◌≤◌, ◌≡◌, ◌⊎◌, inl, inr, refl, ◌∙◌, Bool, true, false, ◌&&◌, List, [], ◌∷◌, arith,
  Bool-cases,
}
use vyro_os.Memory.Heap.{Block, header_size, merge, coalesce_from}
use vyro_os.Memory.Heap.Tiles.{Covers, Apart, in_use, Covers-le}
use vyro_os.Memory.Heap.Grant.{Holds}

-- The loop of `coalesce` goes on with the block at hand joined to the next, or with the next.
pub coalesce_join :
    (cur n : Block) (rest : List Block)
    → (cur.free && n.free) ≡ true
    → coalesce_from cur (n ∷ rest) ≡ coalesce_from (merge cur n) rest
unfolding coalesce_from
coalesce_join cur n rest h = rw (h, coalesce_from)

pub coalesce_pass :
    (cur n : Block) (rest : List Block)
    → (cur.free && n.free) ≡ false
    → coalesce_from cur (n ∷ rest) ≡ cur ∷ coalesce_from n rest
unfolding coalesce_from
coalesce_pass cur n rest h = rw (h, coalesce_from)

-- Joining free blocks covers the same region, counts the same bytes in use, and parts the rest.
pub coalesce_from-Covers :
    (cur : Block) (rest : List Block) (from to : ℕ)
    → to ≤ 2 ^ 63
    → Covers from (cur ∷ rest) to
    → Covers from (coalesce_from cur rest) to
      × (in_use (coalesce_from cur rest) ≡ in_use (cur ∷ rest))
coalesce_from-Covers cur [] from to ht c = unfold coalesce_from in (c, refl)
coalesce_from-Covers cur (n ∷ rest) from to ht c = elim (Bool-cases (cur.free && n.free)) [
  | inl joined ↦ rw (coalesce_join cur n rest joined) (
      let ih = coalesce_from-Covers (merge cur n) rest from to ht (
        unfold merge in
        (c.0, omega arith, subst (λ a. Covers a rest to) (omega (arith, end)) c.2.2)) in
      (ih.0, ih.1 ∙ unfold merge in ground arith))
  | inr apart ↦ rw (coalesce_pass cur n rest apart) (
      let ih = coalesce_from-Covers n rest (from + header_size + cur.size) to ht c.2 in
      ((c.0, c.1, ih.0), omega (arith, ih.1)))
]
  where
    end : from + header_size + cur.size + header_size + n.size ≤ to
    end = Covers-le (from + header_size + cur.size + header_size + n.size) rest to c.2.2

pub coalesce_from-Apart :
    (cur : Block) (rest : List Block) (before : Bool)
    → (before && cur.free) ≡ false
    → Apart before (coalesce_from cur rest)
coalesce_from-Apart cur [] before h = unfold coalesce_from in (h, tt)
coalesce_from-Apart cur (n ∷ rest) before h = elim (Bool-cases (cur.free && n.free)) [
  | inl joined ↦
      rw (coalesce_join cur n rest joined)
        (coalesce_from-Apart (merge cur n) rest before (unfold merge in h))
  | inr apart ↦ rw (coalesce_pass cur n rest apart) (h, coalesce_from-Apart n rest cur.free apart)
]

-- A block in use is no part of a join: it stays, and no block in use is new.
pub coalesce_from-Holds :
    (cur : Block) (rest : List Block) (c : Block)
    → c.free ≡ false
    → (Holds c (cur ∷ rest) → Holds c (coalesce_from cur rest))
      × (Holds c (coalesce_from cur rest) → Holds c (cur ∷ rest))
coalesce_from-Holds cur [] c u = unfold coalesce_from in (λ k. k, λ k. k)
coalesce_from-Holds cur (n ∷ rest) c u = elim (Bool-cases (cur.free && n.free)) [
  | inl joined ↦
      let (there, back) = coalesce_from-Holds (merge cur n) rest c u in
      rw (coalesce_join cur n rest joined) (λ k. there (into joined k), λ k. out joined (back k))
  | inr apart ↦
      let (there, back) = coalesce_from-Holds n rest c u in
      rw (coalesce_pass cur n rest apart) (λ k. sum_map there k, λ k. sum_map back k)
]
  where
    sum_map : {A B : Type 0} → (A → B) → (cur ≡ c) ⊎ A → (cur ≡ c) ⊎ B
    sum_map f (inl e) = inl e
    sum_map f (inr a) = inr (f a)

    into : (cur.free && n.free) ≡ true → Holds c (cur ∷ n ∷ rest) → Holds c (merge cur n ∷ rest)
    into j (inl e) = absurd (ground arith)
    into j (inr (inl e)) = absurd (ground arith)
    into j (inr (inr k)) = inr k

    out : (cur.free && n.free) ≡ true → Holds c (merge cur n ∷ rest) → Holds c (cur ∷ n ∷ rest)
    out j (inl e) = absurd (unfold merge in ground arith)
    out j (inr k) = inr (inr k)
