-- ===== src/Text.antt =====
-- Go strings as lists of bytes, and what the program uses of package strings. Texts are ASCII:
-- case mapping and white space are those of the ASCII range.
pub mod Within
pub mod Decimal
pub mod Laws
pub mod Trim
use Prim.Native.Char.{code}
use redis_sentinel_reconcile.Prelude.{
  ℕ, ◌+◌, ◌-◌, String, Bool, true, false, ◌&&◌, ◌||◌, List, [], ◌∷◌, ◌++◌, map, leb, ◌==◌, any,
  Option, none, some, if◌then◌else◌,
}

abbrev pub Text : Type 0
Text = List ℕ

-- A literal. It stays folded until a proof unfolds it.
unfoldable pub codes : String → Text
codes String.[] = []
codes (String.◌∷◌ c s) = code c ∷ codes s

-- a == b
unfoldable pub text_eq : Text → Text → Bool
text_eq [] [] = true
text_eq [] (y ∷ ys) = false
text_eq (x ∷ xs) [] = false
text_eq (x ∷ xs) (y ∷ ys) = x == y && text_eq xs ys

-- s == ""
abbrev pub is_empty : Text → Bool
is_empty [] = true
is_empty (x ∷ xs) = false

abbrev pub lower_byte : ℕ → ℕ
lower_byte c = if leb b'A' c && leb c b'Z' then c + 32 else c

abbrev pub upper_byte : ℕ → ℕ
upper_byte c = if leb b'a' c && leb c b'z' then c - 32 else c

-- strings.ToLower
unfoldable pub to_lower : Text → Text
to_lower = map lower_byte

-- strings.ToUpper
unfoldable pub to_upper : Text → Text
to_upper = map upper_byte

-- strings.EqualFold
unfoldable pub equal_fold : Text → Text → Bool
equal_fold a b = text_eq (to_lower a) (to_lower b)

-- strings.HasPrefix
unfoldable pub has_prefix : Text → Text → Bool
has_prefix s [] = true
has_prefix [] (p ∷ ps) = false
has_prefix (c ∷ s) (p ∷ ps) = c == p && has_prefix s ps

-- strings.Contains
unfoldable pub contains : Text → Text → Bool
unfolding has_prefix
contains [] sub = has_prefix [] sub
contains (c ∷ s) sub = has_prefix (c ∷ s) sub || contains s sub

-- strings.IndexByte(s, c) >= 0
unfoldable pub has_byte : ℕ → Text → Bool
has_byte c s = any (λ x. x == c) s

-- The texts before and after the first `c`.
unfoldable pub cut_first : ℕ → Text → Option (Text × Text)
cut_first c [] = none
cut_first c (x ∷ s) =
    if x == c
    then some ([], s)
    else elim (cut_first c s) [ none ↦ none | some (a, b) ↦ some (x ∷ a, b) ]

-- The texts before and after the last `c`.
unfoldable pub cut_last : ℕ → Text → Option (Text × Text)
cut_last c [] = none
cut_last c (x ∷ s) = elim (cut_last c s) [
  | some (a, b) ↦ some (x ∷ a, b)
  | none ↦ if x == c then some ([], s) else none
]

-- strings.HasSuffix
unfoldable pub has_suffix : Text → Text → Bool
has_suffix [] suffix = text_eq [] suffix
has_suffix (c ∷ s) suffix = text_eq (c ∷ s) suffix || has_suffix s suffix

-- strings.ReplaceAll for an old text of one byte
unfoldable pub replace_all_byte : ℕ → Text → Text → Text
replace_all_byte c new [] = []
replace_all_byte c new (x ∷ s) =
    if x == c then new ++ replace_all_byte c new s else x ∷ replace_all_byte c new s

abbrev pub is_space : ℕ → Bool
is_space c = c == b' ' || (leb 9 c && leb c 13)

-- strings.TrimLeft of white space
unfoldable pub trim_left : Text → Text
trim_left [] = []
trim_left (c ∷ s) = let rest = trim_left s in if is_space c then rest else c ∷ s

-- strings.TrimRight of white space
unfoldable pub trim_right : Text → Text
trim_right [] = []
trim_right (c ∷ s) = elim (trim_right s) [
  | [] ↦ if is_space c then [] else c ∷ []
  | d ∷ t ↦ c ∷ d ∷ t
]

-- strings.TrimSpace
unfoldable pub trim_space : Text → Text
unfolding trim_left trim_right
trim_space s = trim_right (trim_left s)

-- strings.TrimSuffix for a suffix of one byte
unfoldable pub trim_suffix_byte : ℕ → Text → Text
trim_suffix_byte c [] = []
trim_suffix_byte c (x ∷ []) = if x == c then [] else x ∷ []
trim_suffix_byte c (x ∷ y ∷ s) = x ∷ trim_suffix_byte c (y ∷ s)

-- The text behind a prefix, if it is there.
unfoldable pub strip_prefix : Text → Text → Option Text
strip_prefix s [] = some s
strip_prefix [] (p ∷ ps) = none
strip_prefix (c ∷ s) (p ∷ ps) = if c == p then strip_prefix s ps else none

-- strings.TrimPrefix
unfoldable pub trim_prefix : Text → Text → Text
unfolding strip_prefix
trim_prefix s prefix = elim (strip_prefix s prefix) [ none ↦ s | some rest ↦ rest ]

abbrev cons_part : ℕ → List Text → List Text
cons_part c [] = (c ∷ []) ∷ []
cons_part c (part ∷ parts) = (c ∷ part) ∷ parts

-- strings.Split for a separator of one byte
unfoldable pub split_byte : ℕ → Text → List Text
split_byte c [] = [] ∷ []
split_byte c (x ∷ s) = let rest = split_byte c s in if x == c then [] ∷ rest else cons_part x rest
