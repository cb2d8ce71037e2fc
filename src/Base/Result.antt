-- ===== src/Base/Result.antt =====
-- Python functions that may raise: a value, or the exception.
use mathlib.Core.Path.{◌≡◌, refl}

pub data Result {ℓ κ} (X : Type ℓ) (V : Type κ) : Type (ℓ ⊔ κ) where
  err : X → Result X V
  ok : V → Result X V

module _ {ℓ κ} {X : Type ℓ} {V : Type κ} where
  pub ok_injective : {v w : V} → ◌≡◌ {A = Result X V} (ok v) (ok w) → v ≡ w
  ok_injective same = cc

-- The rest runs on the value; an exception passes through it.
infixl 5 ◌>>=◌
abbrev pub ◌>>=◌ {ℓ κ ι} :
    {X : Type ℓ} {V : Type κ} {W : Type ι} → Result X V → (V → Result X W) → Result X W
err x >>= rest = err x
ok v >>= rest = rest v

module _ {ℓ κ ι} {X : Type ℓ} {V : Type κ} {W : Type ι} where
  pub >>=-eq-ok :
      (first : Result X V) (rest : V → Result X W) {w : W}
      → (first >>= rest) ≡ ok w
      → (v : V) × (first ≡ ok v) × (rest v ≡ ok w)
  >>=-eq-ok (err x) rest h = cc
  >>=-eq-ok (ok v) rest h = (v, refl, h)
