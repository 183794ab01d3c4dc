-- ===== src/Text/Trim.antt =====
-- White space at the ends of a text, and prefixes that are not there.
use redis_sentinel_reconcile.Prelude.{
  ℕ, true, false, not, [], ◌∷◌, ◌≡◌, refl, arith, ◌∙◌, ap, ◌==◌, all, ◌++◌, none, some, Bool-cases,
  inl, inr,
}
use redis_sentinel_reconcile.Text.{
  Text, is_space, trim_left, trim_right, trim_space, trim_suffix_byte, has_prefix, strip_prefix,
  trim_prefix,
}

trim_right_idem : (s : Text) → trim_right (trim_right s) ≡ trim_right s
unfolding trim_right
trim_right_idem [] = refl
trim_right_idem (c ∷ s) = ground (arith, trim_right_idem s)

trim_left-trim_right :
    (c : ℕ) (s : Text) → is_space c ≡ false → trim_left (trim_right (c ∷ s)) ≡ trim_right (c ∷ s)
unfolding trim_left trim_right
trim_left-trim_right c s h = ground (arith, h)

trim_left-trim_space : (s : Text) → trim_left (trim_right (trim_left s)) ≡ trim_right (trim_left s)
unfolding trim_left
trim_left-trim_space [] = unfold trim_right in refl
trim_left-trim_space (c ∷ s) = elim (Bool-cases (is_space c)) [
  | inl space ↦ rw space (trim_left-trim_space s)
  | inr mark ↦ rw mark (trim_left-trim_right c s mark)
]

pub trim_space_idem : (s : Text) → trim_space (trim_space s) ≡ trim_space s
unfolding trim_space
trim_space_idem s = ap trim_right (trim_left-trim_space s) ∙ trim_right_idem (trim_left s)

trim_right-snoc : (s : Text) (c : ℕ) → is_space c ≡ false → trim_right (s ++ c ∷ []) ≡ s ++ c ∷ []
unfolding trim_right
trim_right-snoc [] c h = ground (arith, h)
trim_right-snoc (x ∷ []) c h = ground (arith, trim_right-snoc [] c h)
trim_right-snoc (x ∷ y ∷ s) c h = ground (arith, trim_right-snoc (y ∷ s) c h)

pub trim_space-ends :
    (a : ℕ) (s : Text) (c : ℕ)
    → is_space a ≡ false
    → is_space c ≡ false
    → trim_space (a ∷ (s ++ c ∷ [])) ≡ a ∷ (s ++ c ∷ [])
unfolding trim_space trim_left
trim_space-ends a s c ha hc = ground (arith, ha, trim_right-snoc (a ∷ s) c hc)

pub trim_suffix_byte-snoc :
    (d : ℕ) (s : Text) (c : ℕ) → (c == d) ≡ false → trim_suffix_byte d (s ++ c ∷ []) ≡ s ++ c ∷ []
unfolding trim_suffix_byte
trim_suffix_byte-snoc d [] c h = ground (arith, h)
trim_suffix_byte-snoc d (x ∷ []) c h = ground (arith, h)
trim_suffix_byte-snoc d (x ∷ y ∷ s) c h = ground (arith, trim_suffix_byte-snoc d (y ∷ s) c h)

trim_left_plain : (k : Text) → all (λ c. not (is_space c)) k ≡ true → trim_left k ≡ k
unfolding trim_left
trim_left_plain [] h = refl
trim_left_plain (c ∷ k) h = ground (arith, h)

trim_right_plain : (k : Text) → all (λ c. not (is_space c)) k ≡ true → trim_right k ≡ k
unfolding trim_right
trim_right_plain [] h = refl
trim_right_plain (c ∷ []) h = ground (arith, h)
trim_right_plain (c ∷ d ∷ k) h = ground (arith, trim_right_plain (d ∷ k))

pub trim_space_plain : (k : Text) → all (λ c. not (is_space c)) k ≡ true → trim_space k ≡ k
unfolding trim_space
trim_space_plain k h = ap trim_right (trim_left_plain k h) ∙ trim_right_plain k h

strip_prefix-none : (s p : Text) → has_prefix s p ≡ false → strip_prefix s p ≡ none
unfolding strip_prefix has_prefix
strip_prefix-none s [] h = absurd (cc)
strip_prefix-none [] (d ∷ p) h = refl
strip_prefix-none (c ∷ s) (d ∷ p) h = ground (arith, strip_prefix-none s p)

pub trim_prefix-none : (s p : Text) → has_prefix s p ≡ false → trim_prefix s p ≡ s
unfolding trim_prefix
trim_prefix-none s p h = ground (arith, strip_prefix-none s p h)

strip_prefix-append : (p s : Text) → strip_prefix (p ++ s) p ≡ some s
unfolding strip_prefix
strip_prefix-append [] s = refl
strip_prefix-append (c ∷ p) s = ground (arith, strip_prefix-append p s)

pub trim_prefix-append : (p s : Text) → trim_prefix (p ++ s) p ≡ s
unfolding trim_prefix
trim_prefix-append p s = rw (trim_prefix, strip_prefix-append p s) refl

pub first_byte :
    (d : ℕ) (c : ℕ) (s p : Text) → (c == d) ≡ false → has_prefix (c ∷ s) (d ∷ p) ≡ false
unfolding has_prefix
first_byte d c s p h = ground (arith, h)
