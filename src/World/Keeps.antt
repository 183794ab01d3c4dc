-- ===== src/World/Keeps.antt =====
-- Invariants of actions: one rule for each way to build an action.
use redis_sentinel_reconcile.Prelude.{Bool, true, false, ◌≡◌, refl, if◌then◌else◌}
use redis_sentinel_reconcile.World.{St, M, pure, ◌>>=◌}

-- `m` keeps `P`.
pub record Keeps {W A : Type 0} (P : St W → Type 0) (m : M W A) : Type 0 where
  pub at : (s : St W) → P s → P (m s).1

module _ {W A : Type 0} {P : St W → Type 0} where
  pub Keeps-pure : (a : A) → Keeps P (pure a)
  unfolding pure
  Keeps-pure a = record { at = λ s h. h }

  pub Keeps-if : (b : Bool) (m n : M W A) → Keeps P m → Keeps P n → Keeps P (if b then m else n)
  Keeps-if true m n km kn = km
  Keeps-if false m n km kn = kn

  -- The branch may use the test.
  pub Keeps-if_eq :
      (b : Bool) (m n : M W A)
      → (b ≡ true → Keeps P m)
      → (b ≡ false → Keeps P n)
      → Keeps P (if b then m else n)
  Keeps-if_eq true m n km kn = km refl
  Keeps-if_eq false m n km kn = kn refl

module _ {W A B : Type 0} {P : St W → Type 0} where
  pub Keeps-bind :
      (m : M W A) (f : A → M W B) → Keeps P m → ((a : A) → Keeps P (f a)) → Keeps P (m >>= f)
  unfolding ◌>>=◌
  Keeps-bind m f km kf = record { at = λ s h. let (a, s') = m s in (kf a).at s' (km.at s h) }

  -- The rest may use what is known of every result of `m`.
  pub Keeps-bind_result :
      (Q : A → Type 0) (m : M W A) (f : A → M W B)
      → Keeps P m
      → ((s : St W) → Q (m s).0)
      → ((a : A) → Q a → Keeps P (f a))
      → Keeps P (m >>= f)
  unfolding ◌>>=◌
  Keeps-bind_result Q m f km known kf = record {
    at = λ s h. let (a, s') = m s in (kf a (known s)).at s' (km.at s h);
  }

pub ruleset keeps_rules = (Keeps-pure, Keeps-if, Keeps-bind)
