-- ===== src/Writer/Laws.antt =====
-- What itoa of the writer prints.
use native.Mathlib.Nat.{pow-succ', one-le-pow}
use redis_sentinel_reconcile.Prelude.{
  ℕ, zero, suc, ◌+◌, ◌/◌, ◌%◌, ◌^◌, ◌≤◌, ◌<◌, [], ◌∷◌, ◌++◌, none, some, ◌≡◌, refl, arith, ltb,
  Bool-cases, inl, inr,
}
use redis_sentinel_reconcile.Prelude.Int.{pos, negsuc}
use redis_sentinel_reconcile.Text.{Text, codes}
use redis_sentinel_reconcile.Text.Decimal.{digits_onto}
use redis_sentinel_reconcile.Text.Decimal
use redis_sentinel_reconcile.Net.{sprint_addr}
use redis_sentinel_reconcile.Writer.{fill, itoa, format_addr}

-- The last round of the loop writes the first digit.
fill-digit :
    (room n : ℕ) (acc : Text) → 0 < n → n < 10 → fill (suc room) n acc ≡ some ((b'0' + n) ∷ acc)
unfolding fill
fill-digit room zero acc p h = absurd (omega arith)
fill-digit room (suc m) acc p h =
    let small : suc m / 10 ≡ 0 = omega arith in
    let last : suc m % 10 ≡ suc m = omega arith in rw (fill, small, last) refl

-- Any other round leaves a tenth of the number.
fill-step :
    (room n : ℕ) (acc : Text)
    → 0 < n
    → fill (suc room) n acc ≡ fill room (n / 10) ((b'0' + n % 10) ∷ acc)
unfolding fill
fill-step room zero acc p = absurd (omega arith)
fill-step room (suc m) acc p = refl

-- The loop fills the buffer where the number has no more digits than there is room.
fill-digits_onto :
    (room fuel n : ℕ) (acc : Text)
    → n < fuel
    → n < 10 ^ room
    → 0 < n
    → fill room n acc ≡ some (digits_onto fuel n acc)
unfolding digits_onto
fill-digits_onto zero fuel n acc h r p = absurd (omega arith)
fill-digits_onto (suc room) zero n acc h r p = absurd (omega arith)
fill-digits_onto (suc room) (suc fuel) n acc h r p = elim (Bool-cases (ltb n 10)) [
  | inl last ↦ rw last (fill-digit room n acc p (ground (arith, last)))
  | inr more ↦
      rw (more, fill-step room n acc p)
        (fill-digits_onto room fuel (n / 10) ((b'0' + n % 10) ∷ acc) (ground (arith, more, h))
          (omega (arith, pow-succ' 10 room)) (ground (arith, more)))
]

fill_over : (room n : ℕ) (acc : Text) → 10 ^ room ≤ n → fill room n acc ≡ none
fill_over zero zero acc h = absurd (omega arith)
fill_over zero (suc n) acc h = unfold fill in refl
fill_over (suc room) n acc h =
    rw (fill-step room n acc (omega (arith, pow-succ' 10 room, one-le-pow room 10 (omega arith))))
      (fill_over room (n / 10) _ (omega (arith, pow-succ' 10 room)))

itoa_below : (n : ℕ) → n < 10 ^ 16 → itoa (pos n) ≡ some (Decimal.itoa (pos n))
unfolding itoa Decimal.itoa codes
itoa_below zero h = refl
itoa_below (suc n) h = fill-digits_onto 16 (suc (suc n)) (suc n) [] (omega arith) h (omega arith)

itoa_over : (n : ℕ) → 10 ^ 16 ≤ n → itoa (pos n) ≡ none
unfolding itoa
itoa_over zero h = absurd (omega arith)
itoa_over (suc n) h = fill_over 16 (suc n) [] h

-- Below 10^16 the writer's formatAddr is the address that the reconciler prints. From 10^16 on its
-- buffer of 16 bytes is too short and it panics. For a port below 0 it leaves the port out.
pub format_addr_lem :
    (host : Text)
    → ((n : ℕ) → n < 10 ^ 16 → format_addr host (pos n) ≡ some (sprint_addr host (pos n)))
      × ((n : ℕ) → 10 ^ 16 ≤ n → format_addr host (pos n) ≡ none)
      × ((n : ℕ) → format_addr host (negsuc n) ≡ some (host ++ b':' ∷ []))
unfolding format_addr sprint_addr
format_addr_lem host = (
  λ n h. rw (format_addr, itoa_below n h) refl,
  λ n h. rw (format_addr, itoa_over n h) refl,
  λ n. unfold itoa in refl,
)
