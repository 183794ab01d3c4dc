-- ===== src/Text/Laws.antt =====
-- Laws of the text operations.
use redis_sentinel_reconcile.Prelude.{
  ℕ, true, false, [], ◌∷◌, ◌++◌, ◌≡◌, ◌↔◌, refl, arith, none, some,
}
use redis_sentinel_reconcile.Text.{
  Text, text_eq, equal_fold, to_lower, has_byte, cut_first, cut_last, lower_byte,
}

pub text_eq_iff : (a b : Text) → (text_eq a b ≡ true) ↔ (a ≡ b)
unfolding text_eq
text_eq_iff [] [] = ground arith
text_eq_iff [] (y ∷ ys) = ground arith
text_eq_iff (x ∷ xs) [] = ground arith
text_eq_iff (x ∷ xs) (y ∷ ys) = ground (arith, text_eq_iff xs ys)

pub text_eq_refl : (a : Text) → text_eq a a ≡ true
text_eq_refl a = (text_eq_iff a a).1 refl

pub text_eq_comm : (a b : Text) → text_eq a b ≡ text_eq b a
text_eq_comm a b = ground (arith, text_eq_iff a b, text_eq_iff b a)

pub equal_fold_refl : (a : Text) → equal_fold a a ≡ true
unfolding equal_fold
equal_fold_refl a = text_eq_refl (to_lower a)

pub equal_fold_comm : (a b : Text) → equal_fold a b ≡ equal_fold b a
unfolding equal_fold
equal_fold_comm a b = text_eq_comm (to_lower a) (to_lower b)

pub lower_byte_idem : (c : ℕ) → lower_byte (lower_byte c) ≡ lower_byte c
lower_byte_idem c = ground arith

pub to_lower_idem : (s : Text) → to_lower (to_lower s) ≡ to_lower s
unfolding to_lower
to_lower_idem [] = refl
to_lower_idem (c ∷ s) = cc (lower_byte_idem c, to_lower_idem s)

pub has_byte-append :
    (c : ℕ) (a b : Text) → has_byte c a ≡ false → has_byte c b ≡ false → has_byte c (a ++ b) ≡ false
unfolding has_byte
has_byte-append c [] b p q = q
has_byte-append c (x ∷ a) b p q = ground (arith, has_byte-append c a b)

-- A text with no `c` cannot be cut at one.
pub cut_last-none : (c : ℕ) (s : Text) → has_byte c s ≡ false → cut_last c s ≡ none
unfolding cut_last has_byte
cut_last-none c [] h = refl
cut_last-none c (x ∷ s) h = ground (arith, cut_last-none c s)

pub cut_last-append :
    (c : ℕ) (a b : Text) → has_byte c b ≡ false → cut_last c (a ++ c ∷ b) ≡ some (a, b)
unfolding cut_last
cut_last-append c [] b h = ground (arith, cut_last-none c b h)
cut_last-append c (x ∷ a) b h = ground (arith, cut_last-append c a b h)

pub cut_first-append :
    (c : ℕ) (a b : Text) → has_byte c a ≡ false → cut_first c (a ++ c ∷ b) ≡ some (a, b)
unfolding cut_first has_byte
cut_first-append c [] b h = ground arith
cut_first-append c (x ∷ a) b h = ground (arith, cut_first-append c a b)
