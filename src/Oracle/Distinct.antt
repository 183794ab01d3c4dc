-- ===== src/Oracle/Distinct.antt =====
-- How many different texts a list holds, whatever their order.
use mathlib.Core.List.{Permᴰ}
use redis_sentinel_reconcile.Prelude.{
  ℕ, suc, true, List, [], ◌∷◌, ◌≡◌, refl, ◌∙◌, arith, any, if◌then◌else◌,
}
use redis_sentinel_reconcile.Text.{Text, text_eq}
use redis_sentinel_reconcile.Text.Laws.{text_eq_iff, text_eq_comm}

-- The number of texts of a list that differ from those seen and from one another.
unfoldable pub distinct : List Text → List Text → ℕ
distinct seen [] = 0
distinct seen (x ∷ xs) =
    if any (text_eq x) seen then distinct seen xs else suc (distinct (x ∷ seen) xs)

abbrev SameSeen : List Text → List Text → Type 0
SameSeen s t = (y : Text) → any (text_eq y) s ≡ any (text_eq y) t

SameSeen-cons : (x : Text) (s t : List Text) → SameSeen s t → SameSeen (x ∷ s) (x ∷ t)
SameSeen-cons x s t h y = ground (arith, h y)

distinct-SameSeen : (xs s t : List Text) → SameSeen s t → distinct s xs ≡ distinct t xs
unfolding distinct
distinct-SameSeen [] s t h = refl
distinct-SameSeen (x ∷ xs) s t h = ground (
  arith,
  h x,
  distinct-SameSeen xs s t h,
  distinct-SameSeen xs (x ∷ s) (x ∷ t) (SameSeen-cons x s t h),
)

SameSeen-swap : (x y : Text) (s : List Text) → SameSeen (x ∷ y ∷ s) (y ∷ x ∷ s)
SameSeen-swap x y s z = ground arith

distinct-swap : (x y : Text) (s xs : List Text) → distinct s (x ∷ y ∷ xs) ≡ distinct s (y ∷ x ∷ xs)
unfolding distinct
distinct-swap x y s xs = ground (
  arith,
  distinct-SameSeen xs (x ∷ y ∷ s) (y ∷ x ∷ s) (SameSeen-swap x y s),
  text_eq_comm x y,
  text_eq_iff x y,
)

distinct-swap_eq :
    {a b c d : Text}
    → a ≡ d
    → b ≡ c
    → (s l : List Text) → distinct s (a ∷ b ∷ l) ≡ distinct s (c ∷ d ∷ l)
distinct-swap_eq {a} {b} e f s l = cc (distinct-swap a b s l)

pub distinct-Permᴰ :
    {xs ys : List Text} → Permᴰ xs ys → (s : List Text) → distinct s xs ≡ distinct s ys
unfolding distinct
distinct-Permᴰ Permᴰ.nil s = refl
distinct-Permᴰ (Permᴰ.cons {a} {b} {l₁} {l₂} e p) s =
    rw e (ground (arith, distinct-Permᴰ p s, distinct-Permᴰ p (b ∷ s)))
distinct-Permᴰ (Permᴰ.swap {a} {b} {l} e f) s = distinct-swap_eq e f s l
distinct-Permᴰ (Permᴰ.trans p q) s = distinct-Permᴰ p s ∙ distinct-Permᴰ q s

-- Where nothing is new, every text was seen.
pub distinct-zero :
    (s xs : List Text) (x : Text)
    → distinct s xs ≡ 0
    → any (text_eq x) xs ≡ true
    → any (text_eq x) s ≡ true
unfolding distinct
distinct-zero s [] x h m = cc
distinct-zero s (y ∷ ys) x h m = ground (arith, distinct-zero s ys x, text_eq_iff x y)

distinct-zero_one :
    (z : Text) (zs : List Text) (x : Text)
    → distinct (z ∷ []) zs ≡ 0
    → any (text_eq x) (z ∷ zs) ≡ true
    → x ≡ z
distinct-zero_one z zs x h m = ground (arith, distinct-zero (z ∷ []) zs x, text_eq_iff x z)

-- A list with one distinct text repeats it.
pub distinct-one :
    (xs : List Text) (x y : Text)
    → distinct [] xs ≡ 1
    → any (text_eq x) xs ≡ true
    → any (text_eq y) xs ≡ true
    → x ≡ y
unfolding distinct
distinct-one [] x y h m n = cc
distinct-one (z ∷ zs) x y h m n = ground (arith, distinct-zero_one z zs x, distinct-zero_one z zs y)
