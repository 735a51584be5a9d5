-- ===== src/Base/Slots.antt =====
-- Static arrays searched from the front: the first entry that passes a test, and how many do.
use vyro_os.Base.Tests.{if◌then◌else◌, Bool-cases, Option-cases}
use vyro_os.Base.Lists.{get_elem?, set, take, length}
use Prim.Native.Nat.{ℕ, zero, suc, ◌+◌, ◌<◌}
use mathlib.Core.Path.{◌≡◌, refl, sym, ap, ◌∙◌}
use mathlib.Core.Logic.{◌⊎◌, inl, inr}
use mathlib.Core.Bool.{Bool, true, false}
use mathlib.Core.Option.{Option, none, some}
use mathlib.Core.List.{List, [], ◌∷◌}
use native.Mathlib.Omega.{arith}

module _ {ℓ} {A : Type ℓ} where
  -- The first entry that passes the test, with its index.
  unfoldable pub first : (A → Bool) → List A → Option (ℕ × A)
  first p [] = none
  first p (a ∷ xs) = elim (p a) [
    | true ↦ some (0, a)
    | false ↦ elim (first p xs) [ none ↦ none | some (i, b) ↦ some (suc i, b) ]
  ]

  -- How many entries pass the test.
  unfoldable pub count_of : (A → Bool) → List A → ℕ
  count_of p [] = 0
  count_of p (a ∷ xs) = (if p a then 1 else 0) + count_of p xs

  -- No entry passes the test, and no two do.
  abbrev pub NoneOf : (A → Bool) → List A → Type 0
  NoneOf p [] = Unit
  NoneOf p (a ∷ xs) = (p a ≡ false) × NoneOf p xs

  first_here : (p : A → Bool) (a : A) (xs : List A) → p a ≡ true → first p (a ∷ xs) ≡ some (0, a)
  unfolding first
  first_here p a xs h = rw (h, first)

  first_later :
      (p : A → Bool) (a : A) (xs : List A) (i : ℕ) (b : A)
      → p a ≡ false
      → first p xs ≡ some (i, b)
      → first p (a ∷ xs) ≡ some (suc i, b)
  unfolding first
  first_later p a xs i b h e = rw (h, first, e)

  first_nowhere :
      (p : A → Bool) (a : A) (xs : List A)
      → p a ≡ false
      → first p xs ≡ none
      → first p (a ∷ xs) ≡ none
  unfolding first
  first_nowhere p a xs h e = rw (h, first, e)

  -- What a search says of the list.
  abbrev pub Found : (A → Bool) → List A → ℕ → A → Type ℓ
  Found p xs i b = (get_elem? xs i ≡ some b) × (p b ≡ true) × (first p xs ≡ some (i, b))

  pub first_lem :
      (p : A → Bool) (xs : List A)
      → ((first p xs ≡ none) × NoneOf p xs) ⊎ ((i : ℕ) × (b : A) × Found p xs i b)
  unfolding first
  first_lem p [] = inl (refl, tt)
  first_lem p (a ∷ xs) = elim (Bool-cases (p a)) [
    | inl h ↦ inr (0, a, (refl, h, first_here p a xs h))
    | inr h ↦ elim (first_lem p xs) [
      | inl (e, others) ↦ inl (first_nowhere p a xs h e, (h, others))
      | inr (i, b, (at, yes_b, e)) ↦ inr (suc i, b, (at, yes_b, first_later p a xs i b h e))
    ]
  ]

  pub first-Found :
      (p : A → Bool) (xs : List A) (i : ℕ) (b : A) → first p xs ≡ some (i, b) → Found p xs i b
  first-Found p xs i b e = elim (first_lem p xs) [
    | inl (e', others) ↦ absurd (ground arith)
    | inr (i', b', (at, yes_b, e')) ↦
        let same : ◌≡◌ {A = ℕ × A} (i', b') (i, b) = ground arith in
        (
          ap (λ x. get_elem? xs x.0) (sym same) ∙ at ∙ ap (λ x. some x.1) same,
          ap (λ x. p x.1) (sym same) ∙ yes_b,
          e,
        )
  ]

  first_tail :
      (p : A → Bool) (a : A) (xs : List A) (i : ℕ) (b : A)
      → p a ≡ false
      → first p (a ∷ xs) ≡ some (suc i, b)
      → first p xs ≡ some (i, b)
  first_tail p a xs i b h e = elim (Option-cases (first p xs)) [
    | inl nowhere ↦ let e' = sym (first_nowhere p a xs h nowhere) ∙ e in absurd (ground arith)
    | inr (x, f) ↦ let e' = sym (first_later p a xs x.0 x.1 h f) ∙ e in f ∙ ground arith
  ]

  first_rest :
      (p : A → Bool) (a : A) (xs : List A)
      → first p (a ∷ xs) ≡ none
      → (p a ≡ false) × (first p xs ≡ none)
  first_rest p a xs e = elim (Bool-cases (p a)) [
    | inl here ↦ let e' = sym (first_here p a xs here) ∙ e in absurd (ground arith)
    | inr away ↦ elim (Option-cases (first p xs)) [
      | inl nowhere ↦ (away, nowhere)
      | inr (x, f) ↦ let e' = sym (first_later p a xs x.0 x.1 away f) ∙ e in absurd (ground arith)
    ]
  ]

  first_skip :
      (p : A → Bool) (a b : A) (xs ys : List A)
      → p a ≡ false
      → p b ≡ false
      → first p xs ≡ first p ys
      → first p (a ∷ xs) ≡ first p (b ∷ ys)
  first_skip p a b xs ys h k e = elim (Option-cases (first p xs)) [
    | inl nowhere ↦ first_nowhere p a xs h nowhere ∙ sym (first_nowhere p b ys k (sym e ∙ nowhere))
    | inr (x, f) ↦ first_later p a xs x.0 x.1 h f ∙ sym (first_later p b ys x.0 x.1 k (sym e ∙ f))
  ]

  first_cong :
      (p : A → Bool) (a : A) (xs ys : List A)
      → first p xs ≡ first p ys
      → first p (a ∷ xs) ≡ first p (a ∷ ys)
  first_cong p a xs ys e = elim (Bool-cases (p a)) [
    | inl here ↦ first_here p a xs here ∙ sym (first_here p a ys here)
    | inr away ↦ first_skip p a a xs ys away away e
  ]

  -- No entry before the one found passes the test.
  pub first_before :
      (p : A → Bool) (xs : List A) (i : ℕ) (b : A) → first p xs ≡ some (i, b) → NoneOf p (take i xs)
  unfolding first
  first_before p [] i b e = absurd (ground arith)
  first_before p (a ∷ xs) zero b e = tt
  first_before p (a ∷ xs) (suc i) b e = elim (Bool-cases (p a)) [
    | inl here ↦ let e' = sym (first_here p a xs here) ∙ e in absurd (ground arith)
    | inr away ↦ (away, first_before p xs i b (first_tail p a xs i b away e))
  ]

  -- A write over the entry found is found in its place.
  pub first-set_same :
      (p : A → Bool) (xs : List A) (i : ℕ) (b c : A)
      → first p xs ≡ some (i, b)
      → p c ≡ true
      → first p (set xs i c) ≡ some (i, c)
  unfolding first
  first-set_same p [] i b c e h = absurd (ground arith)
  first-set_same p (a ∷ xs) zero b c e h = first_here p c xs h
  first-set_same p (a ∷ xs) (suc i) b c e h = elim (Bool-cases (p a)) [
    | inl here ↦ let e' = sym (first_here p a xs here) ∙ e in absurd (ground arith)
    | inr away ↦
        first_later p a (set xs i c) i c away
          (first-set_same p xs i b c (first_tail p a xs i b away e) h)
  ]

  -- A write that passes the test, where nothing did, is what is found.
  pub first-set_new :
      (p : A → Bool) (xs : List A) (i : ℕ) (b c : A)
      → first p xs ≡ none
      → get_elem? xs i ≡ some b
      → p c ≡ true
      → first p (set xs i c) ≡ some (i, c)
  unfolding first
  first-set_new p [] i b c e at h = absurd (ground arith)
  first-set_new p (a ∷ xs) zero b c e at h = first_here p c xs h
  first-set_new p (a ∷ xs) (suc i) b c e at h =
      let (away, nowhere) = first_rest p a xs e in
      first_later p a (set xs i c) i c away (first-set_new p xs i b c nowhere at h)

  -- A write over an entry that failed the test, of one that fails it too, changes no search.
  pub first-set_other :
      (p : A → Bool) (xs : List A) (i : ℕ) (b c : A)
      → get_elem? xs i ≡ some b
      → p b ≡ false
      → p c ≡ false
      → first p (set xs i c) ≡ first p xs
  unfolding first
  first-set_other p [] i b c at h k = refl
  first-set_other p (a ∷ xs) zero b c at h k =
      let e : a ≡ b = ground arith in first_skip p c a xs xs k (ap p e ∙ h) refl
  first-set_other p (a ∷ xs) (suc i) b c at h k =
      first_cong p a (set xs i c) xs (first-set_other p xs i b c at h k)

  pub count_of-set :
      (p : A → Bool) (xs : List A) (i : ℕ) (b c : A)
      → get_elem? xs i ≡ some b
      → count_of p (set xs i c) + (if p b then 1 else 0) ≡ count_of p xs + (if p c then 1 else 0)
  unfolding count_of
  count_of-set p [] i b c at = absurd (ground arith)
  count_of-set p (a ∷ xs) zero b c at = let e : a ≡ b = ground arith in rw e (omega arith)
  count_of-set p (a ∷ xs) (suc i) b c at = omega (arith, count_of-set p xs i b c at)

  pub first_of_count : (p : A → Bool) (xs : List A) → count_of p xs ≡ 0 → first p xs ≡ none
  unfolding count_of first
  first_of_count p [] e = refl
  first_of_count p (a ∷ xs) e = elim (Bool-cases (p a)) [
    | inl here ↦ absurd (ground arith)
    | inr away ↦
        first_nowhere p a xs away (first_of_count p xs (let e' = rw away at e in omega arith))
  ]

  -- The first `n` entries grow by one that passes the test, where none of them did.
  pub first-take_new :
      (p : A → Bool) (xs : List A) (n : ℕ) (c : A)
      → first p (take n xs) ≡ none
      → n < length xs
      → p c ≡ true
      → first p (take (suc n) (set xs n c)) ≡ some (n, c)
  first-take_new p [] n c e lt h = absurd (omega arith)
  first-take_new p (a ∷ xs) zero c e lt h = first_here p c [] h
  first-take_new p (a ∷ xs) (suc n) c e lt h =
      let (away, nowhere) = first_rest p a (take n xs) e in
      first_later p a (take (suc n) (set xs n c)) n c away
        (first-take_new p xs n c nowhere (omega arith) h)
