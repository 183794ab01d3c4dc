-- ===== src/Text/Within.antt =====
-- What strings.HasPrefix and strings.Contains tell.
use redis_sentinel_reconcile.Prelude.{
  true, [], ◌∷◌, ◌++◌, ◌≡◌, ◌↔◌, refl, arith, ◌∙◌, ap, Bool-cases, inl, inr,
}
use redis_sentinel_reconcile.Text.{Text, has_prefix, contains}

-- A text stands somewhere in another one.
abbrev pub Within : Text → Text → Type 0
Within sub s = (before : Text) × (after : Text) × (s ≡ before ++ (sub ++ after))

prefix_sound : (s p : Text) → has_prefix s p ≡ true → (after : Text) × (s ≡ p ++ after)
unfolding has_prefix
prefix_sound s [] h = (s, refl)
prefix_sound [] (p ∷ ps) h = absurd (cc)
prefix_sound (c ∷ s) (p ∷ ps) h =
    let (after, same) = prefix_sound s ps (ground (arith, h)) in (after, ground (arith, h, same))

prefix_complete : (p after : Text) → has_prefix (p ++ after) p ≡ true
unfolding has_prefix
prefix_complete [] after = refl
prefix_complete (c ∷ p) after = ground (arith, prefix_complete p after)

contains_sound : (s sub : Text) → contains s sub ≡ true → Within sub s
unfolding contains
contains_sound [] sub h = let (after, same) = prefix_sound [] sub h in ([], after, same)
contains_sound (c ∷ s) sub h = elim (Bool-cases (has_prefix (c ∷ s) sub)) [
  | inl here ↦ (let (after, same) = prefix_sound (c ∷ s) sub here in ([], after, same))
  | inr later ↦
      (let (before, after, same) = contains_sound s sub (ground (arith, later, h)) in
        (c ∷ before, after, ap (λ t. c ∷ t) same))
]

contains_complete : (before sub after : Text) → contains (before ++ (sub ++ after)) sub ≡ true
unfolding contains
contains_complete [] [] [] = unfold has_prefix in refl
contains_complete [] [] (c ∷ after) = ground (arith, prefix_complete [] (c ∷ after))
contains_complete [] (c ∷ sub) after = ground (arith, prefix_complete (c ∷ sub) after)
contains_complete (c ∷ before) sub after = ground (arith, contains_complete before sub after)

pub contains_iff : (s sub : Text) → (contains s sub ≡ true) ↔ Within sub s
contains_iff s sub = (
  contains_sound s sub,
  λ (before, after, same). ap (λ t. contains t sub) same ∙ contains_complete before sub after,
)
