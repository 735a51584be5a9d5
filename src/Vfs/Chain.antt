-- ===== src/Vfs/Chain.antt =====
-- The siblings that hang on a directory, as a list of their places and names.
use vyro_os.Base.{
  ℕ, zero, suc, ◌≤◌, ◌<◌, ◌≡◌, ◌≢◌, refl, sym, ap, ◌∙◌, true, Option, none, some, List, [], ◌∷◌,
  ◌++◌, length, get_elem?, set, get_elem?-set_self, get_elem?-set_ne, get_elem?-lt, if◌then◌else◌,
  Bool-cases, inl, inr, length-set, arith,
}
use mathlib.Core.Path.{subst}
use vyro_os.Base.Text.{str_eq}
use vyro_os.Vfs.{Node, find_from, link_last}

abbrev pub Entries : Type 0
Entries = List (ℕ × List ℕ)

-- From `start` on, the nodes are linked in the order of the entries, which hold their names.
abbrev pub Chain : List Node → Option ℕ → Entries → Type 0
Chain ns start [] = start ≡ none
Chain ns start (e ∷ es) =
    (start ≡ some e.0)
    × (n : Node) × (get_elem? ns e.0 ≡ some n)
    × (n.name ≡ e.1)
    × Chain ns n.next_sibling es

-- No entry is at place `i`.
abbrev pub Avoids : ℕ → Entries → Type 0
Avoids i [] = Unit
Avoids i (e ∷ es) = (i ≢ e.0) × Avoids i es

-- All entries are at different places.
abbrev pub AllApart : Entries → Type 0
AllApart [] = Unit
AllApart (e ∷ es) = Avoids e.0 es × AllApart es

-- The first entry of that name.
unfoldable pub lookup : Entries → List ℕ → Option ℕ
lookup [] name = none
lookup (e ∷ es) name = let rest = lookup es name in if str_eq e.1 name then some e.0 else rest

-- The entries without the first of that name.
unfoldable pub erase : Entries → List ℕ → Entries
erase [] name = []
erase (e ∷ es) name = let rest = erase es name in if str_eq e.1 name then es else e ∷ rest

pub find_from_lem :
    (ns : List Node) (es : Entries) (fuel : ℕ) (start : Option ℕ) (name : List ℕ)
    → length es < fuel
    → Chain ns start es
    → find_from fuel ns start name ≡ lookup es name
unfolding find_from lookup
find_from_lem ns es zero start name lt h = absurd (omega arith)
find_from_lem ns [] (suc fuel) start name lt h = rw h refl
find_from_lem ns (e ∷ es) (suc fuel) start name lt (at, n, here, same, rest) =
    rw (at, here, find_from, same)
      (ap (λ r. if str_eq e.1 name then some e.0 else r)
        (find_from_lem ns es fuel n.next_sibling name (omega arith) rest))

pub get_elem?-append :
    (ns : List Node) (x : Node) (i : ℕ) {n : Node}
    → get_elem? ns i ≡ some n
    → get_elem? (ns ++ (x ∷ [])) i ≡ some n
get_elem?-append [] x i h = absurd (ground arith)
get_elem?-append (y ∷ ns) x zero h = h
get_elem?-append (y ∷ ns) x (suc i) h = get_elem?-append ns x i h

pub get_elem?-last : (ns : List Node) (x : Node) → get_elem? (ns ++ (x ∷ [])) (length ns) ≡ some x
get_elem?-last [] x = refl
get_elem?-last (y ∷ ns) x = get_elem?-last ns x

-- A change at a place that no entry has leaves the chain.
pub Chain-set :
    (ns : List Node) (i : ℕ) (x : Node) (start : Option ℕ) (es : Entries)
    → Avoids i es
    → Chain ns start es
    → Chain (set ns i x) start es
Chain-set ns i x start [] ne h = h
Chain-set ns i x start (e ∷ es) ne (at, n, here, same, rest) = (
  at,
  n,
  get_elem?-set_ne ns i e.0 x ne.0 ∙ here,
  same,
  Chain-set ns i x n.next_sibling es ne.1 rest,
)

pub Chain-append :
    (ns : List Node) (x : Node) (start : Option ℕ) (es : Entries)
    → Chain ns start es
    → Chain (ns ++ (x ∷ [])) start es
Chain-append ns x start [] h = h
Chain-append ns x start (e ∷ es) (at, n, here, same, rest) =
    (at, n, get_elem?-append ns x e.0 here, same, Chain-append ns x n.next_sibling es rest)

-- All entries are at places that there are.
pub Chain-below :
    (ns : List Node) (start : Option ℕ) (es : Entries) (k : ℕ)
    → length ns ≤ k
    → Chain ns start es
    → Avoids k es
Chain-below ns start [] k le h = tt
Chain-below ns start (e ∷ es) k le (at, n, here, same, rest) = (
  (λ eq. let lt = get_elem?-lt ns e.0 here in absurd (omega arith)),
  Chain-below ns n.next_sibling es k le rest,
)

link_last-end :
    (ns : List Node) (fuel i k : ℕ) (n : Node)
    → get_elem? ns i ≡ some n
    → n.next_sibling ≡ none
    → link_last (suc fuel) ns i k ≡ set ns i (record n { next_sibling = some k })
unfolding link_last
link_last-end ns fuel i k n found end = rw (found, link_last, end) refl

link_last-on :
    (ns : List Node) (fuel i k j : ℕ) (n : Node)
    → get_elem? ns i ≡ some n
    → n.next_sibling ≡ some j
    → link_last (suc fuel) ns i k ≡ link_last fuel ns j k
unfolding link_last
link_last-on ns fuel i k j n found next = rw (found, link_last, next) refl

-- Linking behind the last entry changes no place that no entry has.
pub link_last-other :
    (ns : List Node) (e : ℕ × List ℕ) (es : Entries) (fuel k j : ℕ)
    → Chain ns (some e.0) (e ∷ es)
    → Avoids j (e ∷ es)
    → get_elem? (link_last fuel ns e.0 k) j ≡ get_elem? ns j
unfolding link_last
link_last-other ns e es zero k j h ne = refl
link_last-other ns e [] (suc fuel) k j (at, n, found, same, rest) ne =
    let end : n.next_sibling ≡ none = rest in
    rw (found, link_last, end) (get_elem?-set_ne ns e.0 j _ (λ eq. ne.0 (sym eq)))
link_last-other ns e (f ∷ fs) (suc fuel) k j (at, n, found, same, rest) ne =
    let next : n.next_sibling ≡ some f.0 = rest.0 in
    rw (found, link_last, next) (link_last-other ns f fs fuel k j (rw next at rest) ne.1)

-- The node at `k` linked behind the last entry.
pub link_last-Chain :
    (ns : List Node) (e : ℕ × List ℕ) (es : Entries) (fuel k : ℕ) (x : Node)
    → length es < fuel
    → Chain ns (some e.0) (e ∷ es)
    → AllApart (e ∷ es)
    → Avoids k (e ∷ es)
    → get_elem? ns k ≡ some x
    → x.next_sibling ≡ none
    → Chain (link_last fuel ns e.0 k) (some e.0) ((e ∷ es) ++ ((k, x.name) ∷ []))
unfolding link_last
link_last-Chain ns e [] zero k x lt h apart ne here last = absurd (omega arith)
link_last-Chain ns e [] (suc fuel) k x lt (at, n, found, same, rest) apart ne here last =
    let end : n.next_sibling ≡ none = rest in
    let m : Node = record n { next_sibling = some k } in
    subst (λ l. Chain l (some e.0) ((e ∷ []) ++ ((k, x.name) ∷ [])))
      (sym (link_last-end ns fuel e.0 k n found end))
      (
        refl,
        m,
        get_elem?-set_self ns e.0 m (get_elem?-lt ns e.0 found),
        same,
        (refl, x, get_elem?-set_ne ns e.0 k m (λ eq. ne.0 (sym eq)) ∙ here, refl, last),
      )
link_last-Chain ns e (f ∷ fs) zero k x lt h apart ne here last = absurd (omega arith)
link_last-Chain ns e (f ∷ fs) (suc fuel) k x lt (at, n, found, same, rest) apart ne here last =
    let next : n.next_sibling ≡ some f.0 = rest.0 in
    let later =
      link_last-Chain ns f fs fuel k x (omega arith) (rw next at rest) apart.1 ne.1 here last in
    subst (λ l. Chain l (some e.0) ((e ∷ (f ∷ fs)) ++ ((k, x.name) ∷ [])))
      (sym (link_last-on ns fuel e.0 k f.0 n found next))
      (
        refl,
        n,
        link_last-other ns f fs fuel k e.0 (rw next at rest) apart.0 ∙ found,
        same,
        subst (λ s. Chain (link_last fuel ns f.0 k) s ((f ∷ fs) ++ ((k, x.name) ∷ []))) (sym next)
            later,
      )

pub length-link_last :
    (fuel : ℕ) (ns : List Node) (cur k : ℕ) → length (link_last fuel ns cur k) ≡ length ns
unfolding link_last
length-link_last zero ns cur k = refl
length-link_last (suc fuel) ns cur k =
    by_node (get_elem? ns cur) (λ j. length-link_last fuel ns j k)
  where
    by_next :
        (n : Node) (o : Option ℕ)
        → ((j : ℕ) → length (link_last fuel ns j k) ≡ length ns)
        → length (elim o [
          | none ↦ set ns cur (record n { next_sibling = some k })
          | some j ↦ link_last fuel ns j k
        ])
          ≡ length ns
    by_next n none rest = length-set ns cur (record n { next_sibling = some k })
    by_next n (some j) rest = rest j

    by_node :
        (o : Option Node)
        → ((j : ℕ) → length (link_last fuel ns j k) ≡ length ns)
        → length (elim o [
          | none ↦ ns
          | some n ↦ elim n.next_sibling [
            | none ↦ set ns cur (record n { next_sibling = some k })
            | some j ↦ link_last fuel ns j k
          ]
        ])
          ≡ length ns
    by_node none rest = refl
    by_node (some n) rest = by_next n n.next_sibling rest

pub Avoids-snoc :
    (i : ℕ) (es : Entries) (e : ℕ × List ℕ) → Avoids i es → i ≢ e.0 → Avoids i (es ++ (e ∷ []))
Avoids-snoc i [] e h ne = (ne, tt)
Avoids-snoc i (f ∷ es) e h ne = (h.0, Avoids-snoc i es e h.1 ne)

pub AllApart-snoc :
    (es : Entries) (e : ℕ × List ℕ) → AllApart es → Avoids e.0 es → AllApart (es ++ (e ∷ []))
AllApart-snoc [] e h ne = (tt, tt)
AllApart-snoc (f ∷ es) e h ne =
    (Avoids-snoc f.0 es e h.0 (λ eq. ne.0 (sym eq)), AllApart-snoc es e h.1 ne.1)

pub lookup-snoc :
    (es : Entries) (e : ℕ × List ℕ) (name : List ℕ)
    → lookup es name ≡ none
    → str_eq e.1 name ≡ true
    → lookup (es ++ (e ∷ [])) name ≡ some e.0
unfolding lookup
lookup-snoc [] e name h same = rw same refl
lookup-snoc (f ∷ es) e name h same = elim (Bool-cases (str_eq f.1 name)) [
  | inl hit ↦ absurd (let h' = rw hit at h in ground arith)
  | inr miss ↦ let h' = rw miss at h in rw miss (lookup-snoc es e name h' same)
]
