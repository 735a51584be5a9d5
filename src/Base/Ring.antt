-- ===== src/Base/Ring.antt =====
-- A circular buffer of fixed capacity read as a sequence: shared by the kernel's pipes and its
-- keyboard buffer, which keep a read position, a write position and a count.
use Prim.Native.Nat.{ℕ, zero, suc, ◌+◌, ◌-◌, ◌%◌, ◌≤◌, ◌<◌}
use mathlib.Core.Path.{◌≡◌, refl, sym, ap, ap₂, ◌∙◌}
use mathlib.Core.Logic.{◌≢◌}
use mathlib.Core.List.{List, [], ◌∷◌, ◌++◌}
use native.Mathlib.Nat.{mod-add-mod, mod-eq_of_lt, mod-eq-sub-mod, add-zero}
use native.Mathlib.Decide.{dec_lt}
use native.Mathlib.Omega.{arith}
use vyro_os.Base.Lists.{length, get_or, set, get_or-set_self, get_or-set_ne}

-- The `n` items from position `from` on, going round at `cap`.
abbrev pub window : List ℕ → ℕ → ℕ → ℕ → List ℕ
window buf cap from zero = []
window buf cap from (suc n) = get_or buf from 0 ∷ window buf cap ((from + 1) % cap) n

pub length-window : (buf : List ℕ) (cap from n : ℕ) → length (window buf cap from n) ≡ n
length-window buf cap from zero = refl
length-window buf cap from (suc n) = ap suc (length-window buf cap ((from + 1) % cap) n)

-- The code tests `count == 0` where `window` matches on `suc`.
pub window_of_pos :
    (buf : List ℕ) (cap from n : ℕ)
    → 0 < n
    → window buf cap from n ≡ get_or buf from 0 ∷ window buf cap ((from + 1) % cap) (n - 1)
window_of_pos buf cap from zero h = absurd (omega arith)
window_of_pos buf cap from (suc n) h = ap (λ k. window buf cap from (suc k)) (omega arith)

-- The position after `from`, `k` times over.
turn : (cap from k : ℕ) → ((from + 1) % cap + k) % cap ≡ (from + suc k) % cap
turn cap from k = rw mod-add-mod (ap (λ n. n % cap) (omega arith))

-- A position inside the capacity is its own remainder or one round behind.
round : (cap n : ℕ) → n < cap + cap → (n < cap → n % cap ≡ n) × (cap ≤ n → n % cap ≡ n - cap)
round cap n h = (λ p. mod-eq_of_lt p, λ p. mod-eq-sub-mod p ∙ mod-eq_of_lt (omega arith))

-- Where the position written is `d` steps ahead, beyond the window, nothing in it changes.
window_beyond :
    (buf : List ℕ) (cap x at n from d : ℕ)
    → from < cap
    → n ≤ d
    → d < cap
    → at ≡ (from + d) % cap
    → window (set buf at x) cap from n ≡ window buf cap from n
window_beyond buf cap x at zero from d hf hn hd e = refl
window_beyond buf cap x at (suc n) from zero hf hn hd e = absurd (omega arith)
window_beyond buf cap x at (suc n) from (suc d) hf hn hd e =
    ap₂ ◌∷◌ (get_or-set_ne buf at from x 0 apart) (
      window_beyond buf cap x at n ((from + 1) % cap) d (omega arith) (omega arith) (omega arith)
        (e ∙ sym (turn cap from d)))
  where
    apart : at ≢ from
    apart =
        let (small, big) = round cap (from + suc d) (omega arith) in
        elim (dec_lt (from + suc d) cap) [
          | yes p ↦ omega (arith, small p)
          | no p ↦ omega (arith, big (omega arith))
        ]

-- One more item stands at the far end.
window_snoc :
    (buf : List ℕ) (cap n from : ℕ)
    → from < cap
    → window buf cap from (suc n) ≡ window buf cap from n ++ (get_or buf ((from + n) % cap) 0 ∷ [])
window_snoc buf cap zero from hf = rw (add-zero, mod-eq_of_lt hf)
window_snoc buf cap (suc n) from hf =
    ap (λ r. get_or buf from 0 ∷ r)
      (rw (← turn cap from n) (window_snoc buf cap n ((from + 1) % cap) (omega arith)))

-- A write at the position behind the window extends the sequence by what is written.
pub window-set :
    (buf : List ℕ) (cap x n from at : ℕ)
    → cap ≤ length buf
    → from < cap
    → n < cap
    → at ≡ (from + n) % cap
    → window (set buf at x) cap from (suc n) ≡ window buf cap from n ++ (x ∷ [])
window-set buf cap x n from at hb hf hn e =
    window_snoc (set buf at x) cap n from hf
    ∙ ap₂ (λ w v. w ++ (v ∷ [])) (window_beyond buf cap x at n from n hf (omega arith) hn e) written
  where
    written : get_or (set buf at x) ((from + n) % cap) 0 ≡ x
    written = rw (← e) (get_or-set_self buf at x 0 (omega arith))
