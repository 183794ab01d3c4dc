-- ===== src/Text/Decimal/Fuel.antt =====
-- The loop that prints a number ends within its fuel.
use redis_sentinel_reconcile.Prelude.{ℕ, zero, suc, ◌+◌, ◌/◌, ◌%◌, ◌<◌, ◌∷◌, ◌≡◌, arith}
use redis_sentinel_reconcile.Text.{Text}
use redis_sentinel_reconcile.Text.Decimal.{digits_onto}

-- The digits do not depend on the fuel, as long as it is above the number.
digits_onto-fuel :
    (fuel more n : ℕ) (acc : Text)
    → n < fuel
    → n < more
    → digits_onto fuel n acc ≡ digits_onto more n acc
unfolding digits_onto
digits_onto-fuel zero more n acc h k = absurd (omega arith)
digits_onto-fuel (suc fuel) zero n acc h k = absurd (omega arith)
digits_onto-fuel (suc fuel) (suc more) n acc h k =
    ground (arith, h, k, digits_onto-fuel fuel more (n / 10) ((b'0' + n % 10) ∷ acc))
