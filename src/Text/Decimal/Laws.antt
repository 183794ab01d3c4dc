-- ===== src/Text/Decimal/Laws.antt =====
-- Printed numbers read back, and hold no colon.
use redis_sentinel_reconcile.Prelude.{
  ℕ, zero, suc, ◌+◌, ◌/◌, ◌%◌, ◌≤◌, ◌<◌, false, [], ◌∷◌, some, ◌≡◌, refl, arith, ltb, Bool-cases,
  inl, inr, ◌∙◌,
}
use redis_sentinel_reconcile.Prelude.Int.{ℤ, pos, negsuc}
use redis_sentinel_reconcile.Text.{Text, has_byte}
use redis_sentinel_reconcile.Text.Decimal.{
  digits_onto, itoa, read_digits, read_nat, atoi, max_int, int_of,
}

-- A byte above the digits is in the printed number only if it stood behind it.
has_byte-digits_onto :
    (c fuel n : ℕ) (acc : Text)
    → b'9' < c
    → has_byte c acc ≡ false
    → has_byte c (digits_onto fuel n acc) ≡ false
unfolding has_byte digits_onto
has_byte-digits_onto c zero n acc h q = q
has_byte-digits_onto c (suc fuel) n acc h q =
    ground (arith, has_byte-digits_onto c fuel (n / 10) ((b'0' + n % 10) ∷ acc) h)

pub has_byte-itoa : (c : ℕ) (n : ℤ) → b'9' < c → has_byte c (itoa n) ≡ false
unfolding has_byte itoa
has_byte-itoa c (pos n) h = has_byte-digits_onto c (suc n) n [] h refl
has_byte-itoa c (negsuc n) h =
    ground (arith, has_byte-digits_onto c (suc (suc n)) (suc n) [] h refl)

read_digits-step :
    (n : ℕ) (acc : Text) → read_digits (n / 10) ((b'0' + n % 10) ∷ acc) ≡ read_digits n acc
unfolding read_digits
read_digits-step n acc = ground arith

read_nat-digits_onto :
    (fuel n : ℕ) (acc : Text) → n < fuel → read_nat (digits_onto fuel n acc) ≡ read_digits n acc
unfolding read_nat digits_onto
read_nat-digits_onto zero n acc h = absurd (omega arith)
read_nat-digits_onto (suc fuel) n acc h = elim (Bool-cases (ltb n 10)) [
  | inl last ↦ rw last (ground arith)
  | inr more ↦ rw more (
      read_nat-digits_onto fuel (n / 10) ((b'0' + n % 10) ∷ acc) (ground arith)
      ∙ read_digits-step n acc)
]

atoi-digits_onto :
    (fuel n : ℕ) (acc : Text)
    → n < fuel
    → atoi (digits_onto fuel n acc) ≡ int_of (read_digits n acc)
unfolding atoi read_nat digits_onto
atoi-digits_onto zero n acc h = absurd (omega arith)
atoi-digits_onto (suc fuel) n acc h = elim (Bool-cases (ltb n 10)) [
  | inl last ↦ rw last (ground arith)
  | inr more ↦ rw more (
      rw (
        atoi-digits_onto fuel (n / 10) ((b'0' + n % 10) ∷ acc) (ground arith),
        read_digits-step n acc,
      ))
]

-- Every `int` of the range prints to a text that Atoi reads back.
pub atoi-itoa : (n : ℕ) → n ≤ max_int → atoi (itoa (pos n)) ≡ some (pos n)
unfolding itoa read_digits
atoi-itoa n h = rw (atoi-digits_onto (suc n) n [] (omega arith)) (ground arith)

pub atoi-itoa_negsuc : (n : ℕ) → n < max_int → atoi (itoa (negsuc n)) ≡ some (negsuc n)
unfolding atoi itoa read_digits
atoi-itoa_negsuc n h =
    rw (read_nat-digits_onto (suc (suc n)) (suc n) [] (omega arith)) (ground arith)
