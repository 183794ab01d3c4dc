-- ===== src/EnvFile/Print.antt =====
-- A printer of configuration files, and the map that is read back.
use mathlib.Core.List.{append_assoc}
use redis_sentinel_reconcile.Prelude.{
  ℕ, Bool, true, false, not, ◌&&◌, ◌||◌, [], ◌∷◌, ◌++◌, ◌≡◌, refl, arith, ◌==◌, leb, all,
}
use redis_sentinel_reconcile.Prelude.Result.{ok}
use redis_sentinel_reconcile.Text.{
  Text, codes, to_upper, has_byte, has_prefix, trim_space, replace_all_byte, is_space,
}
use redis_sentinel_reconcile.Text.Trim.{
  trim_space-ends, trim_suffix_byte-snoc, trim_space_plain, trim_prefix-none, first_byte,
}
use redis_sentinel_reconcile.Text.Laws.{cut_first-append}
use redis_sentinel_reconcile.Text.Decimal.{is_digit}
use redis_sentinel_reconcile.Sentinel.{Fields, put_field}
use redis_sentinel_reconcile.EnvFile.{
  canonical_file_key, valid_env_key, is_tail, read_value, parse_env_line, entry, read_line,
  continues_key,
}
use redis_sentinel_reconcile.EnvFile.Quote.{escape, unquote_double-escape}

abbrev pub plain_byte : ℕ → Bool
plain_byte c = c == b'_' || (leb b'A' c && leb c b'Z') || is_digit c

-- A key as the file stores it: upper-case letters, digits and '_', no digit first, and no RSR_ in
-- front.
unfoldable pub is_plain_key : Text → Bool
is_plain_key [] = false
is_plain_key (c ∷ k) =
    not (is_digit c) && all plain_byte (c ∷ k) && not (has_prefix (c ∷ k) (codes "RSR_"))

unfoldable pub print_line : Text → Text → Text
print_line k v = k ++ b'=' ∷ b'"' ∷ (escape v ++ b'"' ∷ [])

-- The lines of a file, with a line break behind each.
unfoldable pub print_file : Fields → Text
print_file [] = []
print_file ((k, v) ∷ kvs) = print_line k v ++ b'\n' ∷ print_file kvs

-- The pairs as they are stored in turn.
unfoldable pub put_all : Fields → Fields → Fields
put_all [] m = m
put_all ((k, v) ∷ kvs) m = put_all kvs (put_field k v m)

pub plain-upper : (k : Text) → all plain_byte k ≡ true → to_upper k ≡ k
unfolding to_upper
plain-upper [] h = refl
plain-upper (c ∷ k) h = ground (arith, plain-upper k)

pub plain-replace : (k : Text) → all plain_byte k ≡ true → replace_all_byte b'-' (b'_' ∷ []) k ≡ k
unfolding replace_all_byte
plain-replace [] h = refl
plain-replace (c ∷ k) h = ground (arith, plain-replace k)

pub plain-space : (k : Text) → all plain_byte k ≡ true → all (λ c. not (is_space c)) k ≡ true
plain-space [] h = refl
plain-space (c ∷ k) h = ground (arith, plain-space k)

plain-equals : (k : Text) → all plain_byte k ≡ true → has_byte b'=' k ≡ false
unfolding has_byte
plain-equals [] h = refl
plain-equals (c ∷ k) h = ground (arith, plain-equals k)

plain-continues : (k : Text) → all plain_byte k ≡ true → all continues_key k ≡ true
plain-continues [] h = refl
plain-continues (c ∷ k) h = ground (arith, plain-continues k)

-- A line that starts with a byte of a key is no comment and has no `export`.
starts_plain :
    (c : ℕ) (s : Text)
    → plain_byte c ≡ true
    → (has_prefix (c ∷ s) (codes "--") ≡ false)
      × (has_prefix (c ∷ s) (codes "#") ≡ false)
      × (has_prefix (c ∷ s) (codes "export ") ≡ false)
unfolding codes
starts_plain c s h = (
  first_byte b'-' c s _ (ground (arith, h)),
  first_byte b'#' c s _ (ground (arith, h)),
  first_byte b'e' c s _ (ground (arith, h)),
)

plain_parts :
    (c : ℕ) (k : Text)
    → is_plain_key (c ∷ k) ≡ true
    → (plain_byte c ≡ true)
      × (all plain_byte (c ∷ k) ≡ true)
      × (has_prefix (c ∷ k) (codes "RSR_") ≡ false)
unfolding is_plain_key
plain_parts c k h = ground (arith, h)

pub plain-canonical : (k : Text) → is_plain_key k ≡ true → canonical_file_key k ≡ k
unfolding canonical_file_key
plain-canonical [] h = unfold is_plain_key in absurd (cc)
plain-canonical (c ∷ k) h =
    let (first, plain, bare) = plain_parts c k h in
    rw
      (
        trim_space_plain (c ∷ k) (plain-space (c ∷ k) plain),
        trim_prefix-none (c ∷ k) (codes "--") (starts_plain c k first).0,
        plain-replace (c ∷ k) plain,
        plain-upper (c ∷ k) plain,
      )
      (trim_prefix-none (c ∷ k) (codes "RSR_") bare)

pub plain-valid : (k : Text) → is_plain_key k ≡ true → valid_env_key k ≡ true
unfolding is_plain_key valid_env_key
plain-valid [] h = absurd (cc)
plain-valid (c ∷ k) h = ground (arith, plain-continues k)

parse_env_line-print_line :
    (k v : Text) → is_plain_key k ≡ true → parse_env_line (print_line k v) ≡ ok (k, v)
unfolding parse_env_line read_value print_line is_tail trim_space
parse_env_line-print_line [] v h = unfold is_plain_key in absurd (cc)
parse_env_line-print_line (c ∷ k) v h =
    let (first, plain, bare) = plain_parts c k h in
    ground (
      arith,
      cut_first-append b'=' (c ∷ k) (b'"' ∷ (escape v ++ b'"' ∷ [])) (plain-equals (c ∷ k) plain),
      trim_space_plain (c ∷ k) (plain-space (c ∷ k) plain),
      plain-canonical (c ∷ k) h,
      plain-valid (c ∷ k) h,
      unquote_double-escape v [] refl,
    )

-- A printed line is one entry.
pub read_line-print_line :
    (k v : Text) → is_plain_key k ≡ true → read_line (print_line k v) ≡ entry k v
unfolding read_line print_line
read_line-print_line [] v h = unfold is_plain_key in absurd (cc)
read_line-print_line (c ∷ k) v h =
    let (first, plain, bare) = plain_parts c k h in
    let body = k ++ b'=' ∷ b'"' ∷ escape v in
    let (dashes, comment, export) = starts_plain c (body ++ b'"' ∷ []) first in
    let same : print_line (c ∷ k) v ≡ c ∷ (body ++ b'"' ∷ []) = rw append_assoc in
    rw
      (
        same,
        trim_suffix_byte-snoc b'\r' (c ∷ body) b'"' refl,
        trim_space-ends c body b'"' (ground (arith, first)) refl,
        comment,
        export,
        ← same,
        parse_env_line-print_line (c ∷ k) v h,
        plain-canonical (c ∷ k) h,
        plain-valid (c ∷ k) h,
      )
      refl
