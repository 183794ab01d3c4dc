-- ===== src/Prelude/Result.antt =====
-- A value or an error of a chosen type.
use mathlib.Core.Path.{◌≡◌, refl, sym}
use mathlib.Core.Bool.{Bool, true, false}
use redis_sentinel_reconcile.Prelude.Tests.{if◌then◌else◌}

pub data Result {ℓ κ} (E : Type ℓ) (A : Type κ) : Type (ℓ ⊔ κ) where
  ok : A → Result E A
  err : E → Result E A

module _ {E A B : Type 0} where
  infixl 5 ◌>>=◌
  abbrev pub ◌>>=◌ : Result E A → (A → Result E B) → Result E B
  ok a >>= f = f a
  err e >>= f = err e

-- What holds of the value, where there is one.
pub record Holds {E A : Type 0} (P : A → Type 0) (r : Result E A) : Type 0 where
  pub at : (a : A) → r ≡ ok a → P a

module _ {E A : Type 0} {P : A → Type 0} where
  pub Holds-ok : (r : Result E A) (a : A) → r ≡ ok a → P a → Holds P r
  Holds-ok r a e h = record { at = λ b f. let same : a ≡ b = cc in rw (sym same) h }

  pub Holds-err : (e : E) → Holds P (err e)
  Holds-err e = record { at = λ a h. absurd (cc) }

  pub Holds-guard :
      (b : Bool) (e : E) (r : Result E A)
      → (b ≡ false → Holds P r)
      → Holds P (if b then err e else r)
  Holds-guard true e r h = Holds-err e
  Holds-guard false e r h = h refl

  pub Holds-bind :
      {B : Type 0} (r : Result E B) (f : B → Result E A)
      → ((b : B) → Holds P (f b))
      → Holds P (r >>= f)
  Holds-bind (ok b) f h = h b
  Holds-bind (err e) f h = Holds-err e
