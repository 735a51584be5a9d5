-- ===== src/Base/Every.antt =====
-- What holds of every entry of a list.
use vyro_os.Base.Lists.{get_elem?, set}
use Prim.Native.Nat.{ℕ, zero, suc}
use mathlib.Core.Path.{◌≡◌}
use mathlib.Core.Option.{some}
use mathlib.Core.List.{List, [], ◌∷◌}
use native.Mathlib.Omega.{arith}

module _ {ℓ κ} {A : Type ℓ} (P : A → Type κ) where
  abbrev pub Every : List A → Type κ
  Every [] = Unit
  Every (x ∷ xs) = P x × Every xs

  pub Every-get : (xs : List A) (i : ℕ) {x : A} → Every xs → get_elem? xs i ≡ some x → P x
  Every-get [] i {x} h at = absurd (ground arith)
  Every-get (y ∷ ys) zero {x} h at = let e : y ≡ x = ground arith in rw⁻¹ e h.0
  Every-get (y ∷ ys) (suc i) {x} h at = Every-get ys i h.1 at

  pub Every-set : (xs : List A) (i : ℕ) (x : A) → Every xs → P x → Every (set xs i x)
  Every-set [] i x h p = tt
  Every-set (y ∷ ys) zero x h p = (p, h.1)
  Every-set (y ∷ ys) (suc i) x h p = (h.0, Every-set ys i x h.1 p)
