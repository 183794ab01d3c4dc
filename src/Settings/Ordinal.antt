-- ===== src/Settings/Ordinal.antt =====
-- The Sentinel address that is made from the ordinal of a pod.
use redis_sentinel_reconcile.Prelude.{true, false, [], ◌∷◌, ◌++◌, all, ◌≡◌, refl, arith}
use redis_sentinel_reconcile.Text.{Text, is_empty, has_byte}
use redis_sentinel_reconcile.Text.Laws.{cut_last-append}
use redis_sentinel_reconcile.Text.Decimal.{is_digit}
use redis_sentinel_reconcile.Settings.{sentinel_addr_from_ordinal, ordinal}

digits-dash : (s : Text) → all is_digit s ≡ true → has_byte b'-' s ≡ false
unfolding has_byte
digits-dash [] h = refl
digits-dash (c ∷ s) h = ground (arith, digits-dash s)

-- For a pod whose name ends in a dash and one digit or more, with a prefix that is not empty, the
-- address is the prefix, the digits and the suffix.
pub sentinel_addr_from_ordinal_lem :
    (name ord prefix suffix : Text)
    → is_empty prefix ≡ false
    → is_empty ord ≡ false
    → all is_digit ord ≡ true
    → sentinel_addr_from_ordinal (name ++ b'-' ∷ ord) prefix suffix ≡ prefix ++ ord ++ suffix
unfolding sentinel_addr_from_ordinal ordinal
sentinel_addr_from_ordinal_lem name [] prefix suffix p o digits = absurd (cc)
sentinel_addr_from_ordinal_lem name (c ∷ ord) [] suffix p o digits = absurd (cc)
sentinel_addr_from_ordinal_lem [] (c ∷ ord) (x ∷ prefix) suffix p o digits =
    ground (arith, digits, cut_last-append b'-' [] (c ∷ ord) (digits-dash (c ∷ ord) digits))
sentinel_addr_from_ordinal_lem (n ∷ name) (c ∷ ord) (x ∷ prefix) suffix p o digits =
    ground (arith, digits, cut_last-append b'-' (n ∷ name) (c ∷ ord) (digits-dash (c ∷ ord) digits))
