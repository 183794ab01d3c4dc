-- ===== src/World/Leads.antt =====
-- Actions that lead from one property of the state to another.
use redis_sentinel_reconcile.Prelude.{Bool, true, false, ◌≡◌, refl, if◌then◌else◌}
use redis_sentinel_reconcile.World.Keeps.{Keeps}
use redis_sentinel_reconcile.World.{St, M, ◌>>=◌}

-- From a state with `P`, `m` ends in one with `Q`.
pub record Leads {W A : Type 0} (P Q : St W → Type 0) (m : M W A) : Type 0 where
  pub at : (s : St W) → P s → Q (m s).1

module _ {W : Type 0} {P Q : St W → Type 0} where
  -- Keeping the end is enough where the start implies it.
  pub Leads-Keeps : {A : Type 0} (m : M W A) → ((s : St W) → P s → Q s) → Keeps Q m → Leads P Q m
  Leads-Keeps m weaken k = record { at = λ s h. k.at s (weaken s h) }

  pub Leads-if :
      {A : Type 0} (b : Bool) (m n : M W A)
      → Leads P Q m
      → Leads P Q n
      → Leads P Q (if b then m else n)
  Leads-if true m n lm ln = lm
  Leads-if false m n lm ln = ln

  pub Leads-bind :
      {A B : Type 0} (m : M W A) (f : A → M W B)
      → Keeps P m
      → ((a : A) → Leads P Q (f a))
      → Leads P Q (m >>= f)
  unfolding ◌>>=◌
  Leads-bind m f km lf = record { at = λ s h. let (a, s') = m s in (lf a).at s' (km.at s h) }

module _ {W A : Type 0} {P Q : St W → Type 0} where
  -- What keeps the start leads to all that the start implies.
  pub Leads-weaken : (m : M W A) → Keeps P m → ((s : St W) → P s → Q s) → Leads P Q m
  Leads-weaken m k weaken = record { at = λ s h. weaken (m s).1 (k.at s h) }

  -- The branch may use the test.
  pub Leads-if_eq :
      (b : Bool) (m n : M W A)
      → (b ≡ true → Leads P Q m)
      → (b ≡ false → Leads P Q n)
      → Leads P Q (if b then m else n)
  Leads-if_eq true m n lm ln = lm refl
  Leads-if_eq false m n lm ln = ln refl

module _ {W A B : Type 0} {P Q R : St W → Type 0} where
  pub Leads-then :
      (m : M W A) (f : A → M W B) → Leads P Q m → ((a : A) → Leads Q R (f a)) → Leads P R (m >>= f)
  unfolding ◌>>=◌
  Leads-then m f lm lf = record { at = λ s h. let (a, s') = m s in (lf a).at s' (lm.at s h) }
