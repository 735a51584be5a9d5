-- ===== src/Vfs/Dir.antt =====
-- A directory as the list of its entries: find, create and remove on it.
use vyro_os.Base.{
  ℕ, zero, suc, ◌≤◌, ◌<◌, ◌≡◌, ◌≢◌, refl, sym, ap, ◌∙◌, Bool, true, false, none, some, List, [],
  ◌∷◌, ◌++◌, length, get_elem?, set, take, replicate, length-append, length-set, length-replicate,
  get_elem?-set_self, get_elem?-set_ne, get_elem?-lt, ◌==◌, arith,
}
use mathlib.Core.Path.{subst}
use vyro_os.Base.Text.{c_str, copy_str, str_eq, str_eq_iff, c_str-copy_str}
use vyro_os.Vfs.{
  Node, vfs_directory, vfs_name_max, dot, dot_dot, find_in, vfs_find, link_last, fresh_node,
  link_child, create_in, vfs_create,
}
use vyro_os.Vfs.Chain.{
  Entries, Chain, Avoids, AllApart, lookup, find_from_lem, get_elem?-append, get_elem?-last,
  Chain-append, Chain-below, link_last-other, link_last-Chain, length-link_last, Avoids-snoc,
  AllApart-snoc, lookup-snoc,
}

-- The node at `d` is the directory `dir` with the entries `es`.
abbrev pub IsDir : List Node → ℕ → Node → Entries → Type 0
IsDir ns d dir es =
    (get_elem? ns d ≡ some dir)
    × (dir.kind ≡ vfs_directory)
    × Chain ns dir.first_child es
    × AllApart es
    × Avoids d es
    × (length es < length ns)

-- A name that the tree does not read as a place of its own.
abbrev pub IsPlain : List ℕ → Type 0
IsPlain name = (str_eq name dot ≡ false) × (str_eq name dot_dot ≡ false)

find_in_lem :
    (ns : List Node) (d : ℕ) (dir : Node) (es : Entries) (name : List ℕ)
    → IsDir ns d dir es
    → IsPlain name
    → find_in ns d dir name ≡ lookup es name
unfolding find_in
find_in_lem ns d dir es name (at, kind, chain, apart, other, size) plain =
    rw (kind, plain.0, plain.1) (find_from_lem ns es (length ns) dir.first_child name size chain)

-- For a plain name, `vfs_find` gives the first entry of that name.
pub vfs_find_lem :
    (ns : List Node) (d : ℕ) (dir : Node) (es : Entries) (name : List ℕ)
    → IsDir ns d dir es
    → IsPlain name
    → vfs_find ns (some d) name ≡ lookup es name
unfolding vfs_find
vfs_find_lem ns d dir es name h plain = rw (h.0, vfs_find) (find_in_lem ns d dir es name h plain)

-- An entry of that name is there: nothing is created.
pub vfs_create_twice :
    (ns : List Node) (d : ℕ) (dir : Node) (es : Entries) (name : List ℕ) (kind : ℕ) (mem : Bool)
    (i : ℕ)
    → IsDir ns d dir es
    → IsPlain name
    → lookup es name ≡ some i
    → vfs_create ns (some d) name kind mem ≡ (ns, none)
unfolding vfs_create create_in
vfs_create_twice ns d dir es name kind mem i h plain there =
    let found = find_from_lem ns es (length ns) dir.first_child name h.5 h.2 ∙ there in
    rw (h.0, vfs_create, create_in, h.1, plain.0, plain.1, found) refl

link_child-first :
    (ns : List Node) (d k : ℕ) (dir : Node)
    → dir.first_child ≡ none
    → link_child ns d dir k ≡ set ns d (record dir { first_child = some k })
unfolding link_child
link_child-first ns d k dir none_yet = rw (none_yet, link_child) refl

link_child-next :
    (ns : List Node) (d k c : ℕ) (dir : Node)
    → dir.first_child ≡ some c
    → link_child ns d dir k ≡ link_last (length ns) ns c k
unfolding link_child
link_child-next ns d k c dir start = rw (start, link_child) refl

link_child_lem :
    (ns : List Node) (d : ℕ) (dir x : Node) (es : Entries)
    → x.next_sibling ≡ none
    → IsDir ns d dir es
    → (dir' : Node) × IsDir
        (link_child (ns ++ (x ∷ [])) d dir (length ns))
        d
        dir'
        (es ++ ((length ns, x.name) ∷ []))
link_child_lem ns d dir x [] last (at, dkind, chain, apart, other, size) =
    let k = length ns in
    let dir' : Node = record dir { first_child = some k } in
    let ns' : List Node = ns ++ (x ∷ []) in
    let grown = length-append ns (x ∷ []) in
    let lt = get_elem?-lt ns d at in
    let apart_k : d ≢ k = omega arith in
    (
      dir',
      subst (λ l. IsDir l d dir' ((k, x.name) ∷ [])) (sym (link_child-first ns' d k dir chain))
          (
            get_elem?-set_self ns' d dir' (omega (arith, grown)),
            dkind,
            (refl, x, get_elem?-set_ne ns' d k dir' apart_k ∙ get_elem?-last ns x, refl, last),
            (tt, tt),
            (apart_k, tt),
            omega (arith, length-set ns' d dir', grown),
          ),
    )
link_child_lem ns d dir x (e ∷ es) last (at, dkind, chain, apart, other, size) =
    let k = length ns in
    let ns' : List Node = ns ++ (x ∷ []) in
    let grown = length-append ns (x ∷ []) in
    let start : dir.first_child ≡ some e.0 = chain.0 in
    let lt = get_elem?-lt ns d at in
    let apart_k : d ≢ k = omega arith in
    let fresh = Chain-below ns dir.first_child (e ∷ es) k (omega arith) chain in
    let chain' : Chain ns' (some e.0) (e ∷ es) =
      subst (λ s. Chain ns' s (e ∷ es)) start (Chain-append ns x dir.first_child (e ∷ es) chain) in
    let linked = link_last (length ns') ns' e.0 k in
    let length_linked = length-link_last (length ns') ns' e.0 k in
    (
      dir,
      subst (λ l. IsDir l d dir ((e ∷ es) ++ ((k, x.name) ∷ [])))
          (sym (link_child-next ns' d k e.0 dir start))
          (
            link_last-other ns' e es (length ns') k d chain' other ∙ get_elem?-append ns x d at,
            dkind,
            subst (λ s. Chain linked s ((e ∷ es) ++ ((k, x.name) ∷ []))) (sym start)
                (link_last-Chain ns' e es (length ns') k x (omega (arith, grown)) chain' apart fresh
                  (get_elem?-last ns x) last),
            AllApart-snoc (e ∷ es) (k, x.name) apart fresh,
            Avoids-snoc d (e ∷ es) (k, x.name) other apart_k,
            omega (arith, length_linked, grown, length-append (e ∷ es) ((k, x.name) ∷ [])),
          ),
    )

take_whole : (n : ℕ) (xs : List ℕ) → length xs ≤ n → take n xs ≡ xs
take_whole zero [] h = refl
take_whole zero (x ∷ xs) h = absurd (omega arith)
take_whole (suc n) [] h = refl
take_whole (suc n) (x ∷ xs) h = ap (λ r. x ∷ r) (take_whole n xs (omega arith))

-- The name that the array of a node has room for.
abbrev pub stored_name : List ℕ → List ℕ
stored_name name = copy_str (replicate vfs_name_max 0) name vfs_name_max

vfs_create-unfold :
    (ns : List Node) (d : ℕ) (dir : Node) (es : Entries) (name : List ℕ) (kind : ℕ)
    → IsDir ns d dir es
    → IsPlain name
    → lookup es name ≡ none
    → vfs_create ns (some d) name kind true
      ≡ (link_child (ns ++ (fresh_node d name kind ∷ [])) d dir (length ns), some (length ns))
unfolding vfs_create create_in
vfs_create-unfold ns d dir es name kind h plain missing =
    let found = find_from_lem ns es (length ns) dir.first_child name h.5 h.2 ∙ missing in
    let is_dir : (dir.kind == vfs_directory) ≡ true = ap (λ t. t == vfs_directory) h.1 in
    rw (h.0, vfs_create, create_in, is_dir, plain.0, plain.1, found) refl

-- In a directory without an entry of a plain name, and with memory, `vfs_create` gives a new node,
-- which becomes the last entry, under the name that the array has room for.
pub vfs_create_lem :
    (ns : List Node) (d : ℕ) (dir : Node) (es : Entries) (name : List ℕ) (kind : ℕ)
    → IsDir ns d dir es
    → IsPlain name
    → lookup es name ≡ none
    → ((vfs_create ns (some d) name kind true).1 ≡ some (length ns))
      × (dir' : Node) × IsDir
          (vfs_create ns (some d) name kind true).0
          d
          dir'
          (es ++ ((length ns, stored_name name) ∷ []))
unfolding fresh_node
vfs_create_lem ns d dir es name kind h plain missing =
    let made = vfs_create-unfold ns d dir es name kind h plain missing in
    let linked = link_child_lem ns d dir (fresh_node d name kind) es refl h in
    (
      ap (λ r. r.1) made,
      linked.0,
      subst (λ r. IsDir (r.0) d linked.0 (es ++ ((length ns, stored_name name) ∷ []))) (sym made)
          linked.1,
    )

stored_name_lem : (name : List ℕ) → length (c_str name) ≤ 63 → str_eq (stored_name name) name ≡ true
stored_name_lem name le = (str_eq_iff (stored_name name) name).1 (
    c_str-copy_str (replicate vfs_name_max 0) name vfs_name_max (omega arith)
      (omega (arith, length-replicate {A = ℕ} vfs_name_max 0))
    ∙ take_whole 63 (c_str name) le)

-- A node of a plain name of at most 63 bytes that was created in a directory without an entry of
-- that name is found there under its name.
pub vfs_find-create :
    (ns : List Node) (d : ℕ) (dir : Node) (es : Entries) (name : List ℕ) (kind : ℕ)
    → IsDir ns d dir es
    → IsPlain name
    → length (c_str name) ≤ 63
    → lookup es name ≡ none
    → vfs_find (vfs_create ns (some d) name kind true).0 (some d) name
      ≡ (vfs_create ns (some d) name kind true).1
vfs_find-create ns d dir es name kind h plain short missing =
    let (made, dir', h') = vfs_create_lem ns d dir es name kind h plain missing in
    vfs_find_lem (vfs_create ns (some d) name kind true).0 d dir'
      (es ++ ((length ns, stored_name name) ∷ [])) name h' plain
    ∙ lookup-snoc es (length ns, stored_name name) name missing (stored_name_lem name short)
    ∙ sym made
