-- ===== src/Vfs/Unlink.antt =====
-- What `vfs_remove` takes out of a directory.
use vyro_os.Base.{
  ℕ, zero, suc, ◌≤◌, ◌<◌, ◌≡◌, refl, sym, ap, ◌∙◌, true, false, Option, none, some, List, [], ◌∷◌,
  length, get_elem?, set, inl, inr, Bool-cases, length-set, get_elem?-set_self, get_elem?-set_ne,
  get_elem?-lt, ◌==◌, if-holds, arith,
}
use mathlib.Core.Path.{subst}
use vyro_os.Base.Text.{str_eq}
use vyro_os.Vfs.{Node, vfs_directory, unlink, remove_from, removed, vfs_remove}
use vyro_os.Vfs.Chain.{Entries, Chain, Avoids, AllApart, lookup, erase, Chain-set}
use vyro_os.Vfs.Dir.{IsDir}

-- The cases of one step of the loop.
remove_from-hit :
    (fuel : ℕ) (ns : List Node) (d i : ℕ) (prev : Option ℕ) (n : Node) (name : List ℕ)
    → get_elem? ns i ≡ some n
    → str_eq n.name name ≡ true
    → remove_from (suc fuel) ns d prev (some i) name ≡ some (unlink ns d prev n.next_sibling)
unfolding remove_from
remove_from-hit fuel ns d i prev n name found same = rw (found, remove_from, same) refl

remove_from-miss :
    (fuel : ℕ) (ns : List Node) (d i : ℕ) (prev : Option ℕ) (n : Node) (name : List ℕ)
    → get_elem? ns i ≡ some n
    → str_eq n.name name ≡ false
    → remove_from (suc fuel) ns d prev (some i) name
      ≡ remove_from fuel ns d (some i) n.next_sibling name
unfolding remove_from
remove_from-miss fuel ns d i prev n name found other = rw (found, remove_from, other) refl

unlink-behind :
    (ns : List Node) (d p : ℕ) (n : Node) (next : Option ℕ)
    → get_elem? ns p ≡ some n
    → unlink ns d (some p) next ≡ set ns p (record n { next_sibling = next })
unfolding unlink
unlink-behind ns d p n next found = rw (found, unlink) refl

unlink-first :
    (ns : List Node) (d : ℕ) (dir : Node) (next : Option ℕ)
    → get_elem? ns d ≡ some dir
    → unlink ns d none next ≡ set ns d (record dir { first_child = next })
unfolding unlink
unlink-first ns d dir next found = rw (found, unlink) refl

-- Without the name, nothing is unlinked.
remove_from-none :
    (es : Entries) (fuel : ℕ) (ns : List Node) (d : ℕ) (prev start : Option ℕ) (name : List ℕ)
    → Chain ns start es
    → lookup es name ≡ none
    → remove_from fuel ns d prev start name ≡ none
unfolding remove_from lookup
remove_from-none es zero ns d prev start name h missing = refl
remove_from-none [] (suc fuel) ns d prev start name h missing = rw h refl
remove_from-none (e ∷ es) (suc fuel) ns d prev start name (at, n, here, same, rest) missing =
    elim (Bool-cases (str_eq e.1 name)) [
      | inl hit ↦ absurd (let m = rw hit at missing in ground arith)
      | inr miss ↦
          let m = rw miss at missing in
          ap (λ s. remove_from (suc fuel) ns d prev s name) at
          ∙ remove_from-miss fuel ns d e.0 prev n name here (rw same miss)
          ∙ remove_from-none es fuel ns d (some e.0) n.next_sibling name rest m
    ]

-- Behind the entry at `p`, the first entry of the name is unlinked, and no other place changes
-- than those of the entries.
Unlinked : List Node → Option (List Node) → ℕ × List ℕ → Entries → List ℕ → Type 0
Unlinked ns result p es name =
    (ns' : List Node) × (result ≡ some ns')
    × Chain ns' (some p.0) (p ∷ erase es name)
    × ((j : ℕ) → Avoids j (p ∷ es) → get_elem? ns' j ≡ get_elem? ns j)
    × (length ns' ≡ length ns)

remove_behind :
    (es : Entries) (fuel : ℕ) (ns : List Node) (d : ℕ) (p : ℕ × List ℕ) (n : Node) (name : List ℕ)
    (i : ℕ)
    → length es < fuel
    → get_elem? ns p.0 ≡ some n
    → n.name ≡ p.1
    → Chain ns n.next_sibling es
    → AllApart (p ∷ es)
    → lookup es name ≡ some i
    → Unlinked ns (remove_from fuel ns d (some p.0) n.next_sibling name) p es name
unfolding Unlinked lookup erase
remove_behind [] fuel ns d p n name i lt found named h apart there = absurd (ground arith)
remove_behind (f ∷ fs) zero ns d p n name i lt found named h apart there = absurd (omega arith)
remove_behind (f ∷ fs) (suc fuel) ns d p n name i lt found named (at, m, here, same, rest) apart
      there =
    elim (Bool-cases (str_eq f.1 name)) [
      | inl hit ↦
          let n' : Node = record n { next_sibling = m.next_sibling } in
          let ns' : List Node = set ns p.0 n' in
          rw hit (
            ns',
            ap (λ s. remove_from (suc fuel) ns d (some p.0) s name) at
                ∙ remove_from-hit fuel ns d f.0 (some p.0) m name here (rw same hit)
                ∙ ap some (unlink-behind ns d p.0 n m.next_sibling found),
            (
              refl,
              n',
              get_elem?-set_self ns p.0 n' (get_elem?-lt ns p.0 found),
              named,
              Chain-set ns p.0 n' m.next_sibling fs apart.0.1 rest,
            ),
            (λ j ne. get_elem?-set_ne ns p.0 j n' (λ eq. ne.0 (sym eq))),
            length-set ns p.0 n',
          )
      | inr miss ↦
          let t = rw miss at there in
          let (ns', gone, chain, kept, size) =
            remove_behind fs fuel ns d f m name i (omega arith) here same rest apart.1 t in
          rw miss (
            ns',
            ap (λ s. remove_from (suc fuel) ns d (some p.0) s name) at
                ∙ remove_from-miss fuel ns d f.0 (some p.0) m name here (rw same miss)
                ∙ gone,
            (
              refl,
              n,
              kept p.0 apart.0 ∙ found,
              named,
              subst (λ s. Chain ns' s (f ∷ erase fs name)) (sym at) chain,
            ),
            (λ j ne. kept j ne.1),
            size,
          )
    ]

Avoids-erase : (i : ℕ) (es : Entries) (name : List ℕ) → Avoids i es → Avoids i (erase es name)
unfolding erase
Avoids-erase i [] name h = tt
Avoids-erase i (e ∷ es) name h =
    if-holds (Avoids i) (str_eq e.1 name) (λ hit. h.1) (λ miss. (h.0, Avoids-erase i es name h.1))

AllApart-erase : (es : Entries) (name : List ℕ) → AllApart es → AllApart (erase es name)
unfolding erase
AllApart-erase [] name h = tt
AllApart-erase (e ∷ es) name h =
    if-holds AllApart (str_eq e.1 name) (λ hit. h.1)
      (λ miss. (Avoids-erase e.0 es name h.0, AllApart-erase es name h.1))

length-erase : (es : Entries) (name : List ℕ) → length (erase es name) ≤ length es
unfolding erase
length-erase [] name = omega arith
length-erase (e ∷ es) name =
    if-holds (λ (l : Entries). length l ≤ suc (length es)) (str_eq e.1 name) (λ hit. omega arith)
      (λ miss. omega (arith, length-erase es name))

remove_first :
    (es : Entries) (fuel : ℕ) (ns : List Node) (d : ℕ) (dir : Node) (name : List ℕ) (i : ℕ)
    → length es < fuel
    → IsDir ns d dir es
    → lookup es name ≡ some i
    → (ns' : List Node) × (remove_from fuel ns d none dir.first_child name ≡ some ns')
      × (dir' : Node) × IsDir ns' d dir' (erase es name)
unfolding lookup erase Unlinked
remove_first [] fuel ns d dir name i lt h there = absurd (ground arith)
remove_first (e ∷ es) zero ns d dir name i lt h there = absurd (omega arith)
remove_first (e ∷ es) (suc fuel) ns d dir name i lt (found, kind, chain, apart, other, size) there =
    let (at, n, here, same, rest) = chain in
    elim (Bool-cases (str_eq e.1 name)) [
      | inl hit ↦
          let dir' : Node = record dir { first_child = n.next_sibling } in
          let ns' : List Node = set ns d dir' in
          rw hit (
            ns',
            ap (λ s. remove_from (suc fuel) ns d none s name) at
                ∙ remove_from-hit fuel ns d e.0 none n name here (rw same hit)
                ∙ ap some (unlink-first ns d dir n.next_sibling found),
            dir',
            (
              get_elem?-set_self ns d dir' (get_elem?-lt ns d found),
              kind,
              Chain-set ns d dir' n.next_sibling es other.1 rest,
              apart.1,
              other.1,
              omega (arith, length-set ns d dir'),
            ),
          )
      | inr miss ↦
          let t = rw miss at there in
          let (ns', gone, chain', kept, length_same) =
            remove_behind es fuel ns d e n name i (omega arith) here same rest apart t in
          rw miss (
            ns',
            ap (λ s. remove_from (suc fuel) ns d none s name) at
                ∙ remove_from-miss fuel ns d e.0 none n name here (rw same miss)
                ∙ gone,
            dir,
            (
              kept d other ∙ found,
              kind,
              subst (λ s. Chain ns' s (e ∷ erase es name)) (sym at) chain',
              (Avoids-erase e.0 es name apart.0, AllApart-erase es name apart.1),
              (other.0, Avoids-erase d es name other.1),
              omega (arith, length_same, length-erase es name),
            ),
          )
    ]

vfs_remove-unfold :
    (ns : List Node) (d : ℕ) (dir : Node) (name : List ℕ)
    → get_elem? ns d ≡ some dir
    → dir.kind ≡ vfs_directory
    → vfs_remove ns (some d) name
      ≡ removed ns (remove_from (length ns) ns d none dir.first_child name)
unfolding vfs_remove
vfs_remove-unfold ns d dir name found kind =
    let is_dir : (dir.kind == vfs_directory) ≡ true = ap (λ t. t == vfs_directory) kind in
    rw (found, vfs_remove, is_dir) refl

-- Where the directory has an entry of the name, `vfs_remove` gives 1 and leaves the directory with
-- the other entries, in their order: the first entry of the name is gone.
pub vfs_remove_lem :
    (ns : List Node) (d : ℕ) (dir : Node) (es : Entries) (name : List ℕ) (i : ℕ)
    → IsDir ns d dir es
    → lookup es name ≡ some i
    → ((vfs_remove ns (some d) name).1 ≡ 1)
      × (dir' : Node) × IsDir (vfs_remove ns (some d) name).0 d dir' (erase es name)
vfs_remove_lem ns d dir es name i h there =
    let (ns', gone, dir', h') = remove_first es (length ns) ns d dir name i h.5 h there in
    let result = vfs_remove-unfold ns d dir name h.0 h.1 ∙ ap (removed ns) gone in
    (
      ap (λ r. r.1) result,
      dir',
      subst (λ (r : List Node × ℕ). IsDir r.0 d dir' (erase es name)) (sym result) h',
    )

-- Where the directory has no entry of the name, `vfs_remove` gives 0 and changes nothing.
pub vfs_remove_missing :
    (ns : List Node) (d : ℕ) (dir : Node) (es : Entries) (name : List ℕ)
    → IsDir ns d dir es
    → lookup es name ≡ none
    → vfs_remove ns (some d) name ≡ (ns, 0)
vfs_remove_missing ns d dir es name h missing =
    vfs_remove-unfold ns d dir name h.0 h.1
    ∙ ap (removed ns) (remove_from-none es (length ns) ns d none dir.first_child name h.2 missing)
