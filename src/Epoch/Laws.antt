-- ===== src/Epoch/Laws.antt =====
-- When the equal-epoch trap is reported.
use redis_sentinel_reconcile.Prelude.{
  ℕ, ◌≤◌, Bool, true, false, not, ◌&&◌, List, [], ◌∷◌, ◌≡◌, ◌↔◌, refl, arith, leb, length, any, all,
  map, if◌then◌else◌, Bool-cases, inl, inr, ◌∙◌,
}
use redis_sentinel_reconcile.Prelude.Int.{int_eq_iff, int_eq}
use redis_sentinel_reconcile.Text.{text_eq, to_lower}
use redis_sentinel_reconcile.Text.Laws.{text_eq_iff}
use redis_sentinel_reconcile.Epoch.{Sample, set_of, report, sample_ads, known_epochs}

-- Whether all elements of a list are equal.
unfoldable pub agree : {A : Type 0} → (A → A → Bool) → List A → Bool
agree eq [] = true
agree eq (x ∷ xs) = all (eq x) xs

module _ {A : Type 0} (eq : A → A → Bool) (eq_iff : (a b : A) → (eq a b ≡ true) ↔ (a ≡ b)) where
  any-set_of : (y : A) (xs : List A) → any (eq y) (set_of eq xs) ≡ any (eq y) xs
  unfolding set_of
  any-set_of y [] = refl
  any-set_of y (x ∷ xs) = ground (arith, any-set_of y xs, any-set_of x xs, eq_iff y x)

  set_of-not_empty : (x : A) (xs : List A) → 1 ≤ length (set_of eq (x ∷ xs))
  unfolding set_of
  set_of-not_empty x [] = ground arith
  set_of-not_empty x (y ∷ ys) = ground (arith, set_of-not_empty y ys)

  all-any : (x y : A) (ys : List A) → any (eq x) ys ≡ true → all (eq y) ys ≡ true → x ≡ y
  all-any x y [] h k = absurd (cc)
  all-any x y (z ∷ zs) h k = ground (arith, eq_iff x z, eq_iff y z, all-any x y zs)

  any-all_not : (x y : A) (ys : List A) → any (eq x) (y ∷ ys) ≡ false → all (eq x) (y ∷ ys) ≡ false
  any-all_not x y ys h = ground (arith, h)

  set_of-step :
      (x : A) (xs : List A)
      → set_of eq (x ∷ xs) ≡ (if any (eq x) xs then set_of eq xs else x ∷ set_of eq xs)
  unfolding set_of
  set_of-step x xs = rw (any-set_of x xs) refl

  all_same : (x y : A) (ys : List A) → eq x y ≡ true → all (eq x) ys ≡ all (eq y) ys
  all_same x y ys h = rw ((eq_iff x y).0 h) refl

  all_found :
      (x y : A) (ys : List A)
      → any (eq x) (y ∷ ys) ≡ true
      → all (eq y) ys ≡ (eq x y && all (eq x) ys)
  all_found x y ys found = elim (Bool-cases (all (eq y) ys)) [
    | inl every ↦ ground (arith, found, every, eq_iff x y, all-any x y ys, all_same x y ys)
    | inr other ↦ ground (arith, other, all_same x y ys)
  ]

  -- The set of a list has at most one element exactly when all its elements are equal.
  length-set_of : (xs : List A) → leb (length (set_of eq xs)) 1 ≡ agree eq xs
  unfolding agree
  length-set_of [] = unfold set_of in ground arith
  length-set_of (x ∷ []) = unfold set_of in ground arith
  length-set_of (x ∷ y ∷ ys) = elim (Bool-cases (any (eq x) (y ∷ ys))) [
    | inl found ↦
        rw (set_of-step x (y ∷ ys), found) (length-set_of (y ∷ ys) ∙ all_found x y ys found)
    | inr fresh ↦
        rw (set_of-step x (y ∷ ys), fresh)
          (ground (arith, set_of-not_empty y ys, any-all_not x y ys fresh))
  ]

leb_two : (n : ℕ) → leb 2 n ≡ not (leb n 1)
leb_two n = ground arith

-- The trap is reported exactly when the ads, in any letter case, do not all agree and the epochs
-- that are known all agree.
pub report-trap :
    (samples : List Sample)
    → (report samples).trap ≡ (
        not (agree text_eq (map to_lower (sample_ads samples)))
        && agree int_eq (known_epochs samples))
unfolding report
report-trap samples =
    rw
      (
        leb_two (length (set_of text_eq (map to_lower (sample_ads samples)))),
        length-set_of text_eq text_eq_iff (map to_lower (sample_ads samples)),
        length-set_of int_eq int_eq_iff (known_epochs samples),
      )
      refl
