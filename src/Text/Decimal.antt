-- ===== src/Text/Decimal.antt =====
-- strconv.Itoa and strconv.Atoi (with strconv.ParseInt at base 10, 64 bits).
pub mod Laws
pub mod Fuel
use redis_sentinel_reconcile.Prelude.{
  ℕ, zero, suc, ◌+◌, ◌-◌, ◌*◌, ◌/◌, ◌%◌, ◌^◌, Bool, true, false, ◌&&◌, List, [], ◌∷◌, Option, none,
  some, ltb, leb, ◌==◌, if◌then◌else◌,
}
use redis_sentinel_reconcile.Prelude.Int.{ℤ, pos, negsuc}
use redis_sentinel_reconcile.Text.{Text}

-- The digits of `n` in front of `acc`. Fuel above `n` is enough.
unfoldable pub digits_onto : ℕ → ℕ → Text → Text
digits_onto zero n acc = acc
digits_onto (suc fuel) n acc =
    let rest = digits_onto fuel (n / 10) ((b'0' + n % 10) ∷ acc) in
    if ltb n 10 then (b'0' + n) ∷ acc else rest

unfoldable pub print_nat : ℕ → Text
unfolding digits_onto
print_nat n = digits_onto (suc n) n []

-- strconv.Itoa, and fmt's %d
unfoldable pub itoa : ℤ → Text
unfolding print_nat
itoa (pos n) = print_nat n
itoa (negsuc n) = b'-' ∷ print_nat (suc n)

abbrev pub is_digit : ℕ → Bool
is_digit c = leb b'0' c && leb c b'9'

-- The number that a text of digits spells after `acc`.
unfoldable pub read_digits : ℕ → Text → Option ℕ
read_digits acc [] = some acc
read_digits acc (c ∷ s) = if is_digit c then read_digits (acc * 10 + (c - b'0')) s else none

unfoldable pub read_nat : Text → Option ℕ
unfolding read_digits
read_nat [] = none
read_nat (c ∷ s) = read_digits 0 (c ∷ s)

abbrev pub max_int : ℕ
max_int = 2 ^ 63 - 1

-- The range check of a 64-bit `int`.
abbrev int_of : Option ℕ → Option ℤ
int_of none = none
int_of (some n) = if leb n max_int then some (pos n) else none

abbrev negated : Option ℕ → Option ℤ
negated none = none
negated (some zero) = some (pos 0)
negated (some (suc n)) = if leb n max_int then some (negsuc n) else none

-- strconv.Atoi; `none` is an error.
unfoldable pub atoi : Text → Option ℤ
unfolding read_nat
atoi [] = none
atoi (c ∷ s) =
    if c == b'-'
    then negated (read_nat s)
    else if c == b'+'
    then int_of (read_nat s)
    else int_of (read_nat (c ∷ s))

abbrev max_uint : ℕ
max_uint = 2 ^ 64 - 1

-- The loop of strconv.ParseUint behind `acc`: `none` at a byte that is no digit, and the greatest
-- uint64 as soon as the digits read leave its range.
unfoldable pub scan_digits : ℕ → Text → Option ℕ
scan_digits acc [] = some acc
scan_digits acc (c ∷ s) =
    let next = acc * 10 + (c - b'0') in
    let rest = scan_digits next s in
    if is_digit c then (if leb next max_uint then rest else some max_uint) else none

unfoldable pub scan_nat : Text → Option ℕ
unfolding scan_digits
scan_nat [] = none
scan_nat (c ∷ s) = scan_digits 0 (c ∷ s)

abbrev clamp_pos : Option ℕ → ℤ
clamp_pos none = pos 0
clamp_pos (some n) = if leb n max_int then pos n else pos max_int

abbrev clamp_neg : Option ℕ → ℤ
clamp_neg none = pos 0
clamp_neg (some zero) = pos 0
clamp_neg (some (suc n)) = if leb n max_int then negsuc n else negsuc max_int

-- The number that strconv.Atoi returns, also beside an error: 0 for a bad byte, and the nearest bound
-- where the range is left before one.
unfoldable pub atoi_value : Text → ℤ
unfolding scan_nat
atoi_value [] = pos 0
atoi_value (c ∷ s) =
    if c == b'-'
    then clamp_neg (scan_nat s)
    else if c == b'+'
    then clamp_pos (scan_nat s)
    else clamp_pos (scan_nat (c ∷ s))
