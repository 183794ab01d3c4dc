-- ===== src/EnvFile/RoundTrip.antt =====
-- A printed configuration file is read back as the map of its pairs.
use redis_sentinel_reconcile.Prelude.{
  ℕ, suc, true, false, List, [], ◌∷◌, ◌++◌, ◌≡◌, refl, ◌∙◌, arith, all, All,
}
use redis_sentinel_reconcile.Prelude.Result.{ok}
use redis_sentinel_reconcile.Text.{Text, has_byte, split_byte, trim_space, trim_suffix_byte}
use redis_sentinel_reconcile.Text.Laws.{has_byte-append}
use redis_sentinel_reconcile.Sentinel.{Fields, put_field}
use redis_sentinel_reconcile.EnvFile.{entry, read_line, read_lines, skip, parse_env_file}
use redis_sentinel_reconcile.EnvFile.Print.{
  plain_byte, is_plain_key, print_line, print_file, put_all, read_line-print_line,
}
use redis_sentinel_reconcile.EnvFile.Quote.{escape}

-- A stored key, and a value without a line break.
abbrev pub IsPrintable : Text × Text → Type 0
IsPrintable (k, v) = (is_plain_key k ≡ true) × (has_byte b'\n' v ≡ false)

plain-line : (k : Text) → all plain_byte k ≡ true → has_byte b'\n' k ≡ false
unfolding has_byte
plain-line [] h = refl
plain-line (c ∷ k) h = ground (arith, plain-line k)

key-line : (k : Text) → is_plain_key k ≡ true → has_byte b'\n' k ≡ false
unfolding is_plain_key
key-line [] h = absurd (cc)
key-line (c ∷ k) h = plain-line (c ∷ k) (ground (arith, h))

escape-line : (v : Text) → has_byte b'\n' v ≡ false → has_byte b'\n' (escape v) ≡ false
unfolding has_byte escape
escape-line [] h = refl
escape-line (c ∷ v) h = ground (arith, escape-line v)

print_line-line :
    (k v : Text)
    → is_plain_key k ≡ true
    → has_byte b'\n' v ≡ false
    → has_byte b'\n' (print_line k v) ≡ false
unfolding print_line
print_line-line k v hk hv =
    has_byte-append b'\n' k (b'=' ∷ b'"' ∷ (escape v ++ b'"' ∷ [])) (key-line k hk)
      (unfold has_byte in has_byte-append b'\n' (escape v) (b'"' ∷ []) (escape-line v hv) refl)

split_byte-line :
    (c : ℕ) (a b : Text) → has_byte c a ≡ false → split_byte c (a ++ c ∷ b) ≡ a ∷ split_byte c b
unfolding split_byte has_byte
split_byte-line c [] b h = ground arith
split_byte-line c (x ∷ a) b h = ground (arith, split_byte-line c a b)

read_empty : read_line [] ≡ skip
unfolding read_line trim_space trim_suffix_byte
read_empty = refl

read_lines_entry :
    (i : ℕ) (m : Fields) (k v raw : Text) (raws : List Text)
    → read_line raw ≡ entry k v
    → read_lines i m (raw ∷ raws) ≡ read_lines (suc i) (put_field k v m) raws
unfolding read_lines
read_lines_entry i m k v raw raws h = rw (read_lines, h) refl

read_lines-print_file :
    (kvs : Fields) (i : ℕ) (m : Fields)
    → All IsPrintable kvs
    → read_lines i m (split_byte b'\n' (print_file kvs)) ≡ ok (put_all kvs m)
unfolding print_file put_all
read_lines-print_file [] i m h = unfold read_lines split_byte in ground (arith, read_empty)
read_lines-print_file ((k, v) ∷ kvs) i m ((hk, hv), hs) =
    rw (split_byte-line b'\n' (print_line k v) (print_file kvs) (print_line-line k v hk hv)) (
      read_lines_entry i m k v (print_line k v) _ (read_line-print_line k v hk)
      ∙ read_lines-print_file kvs (suc i) (put_field k v m) hs)

-- A file of stored keys and any values without a line break, each in double quotes with its quotes
-- and backslashes escaped, is read as the map to which the pairs are added in turn.
pub parse_env_file-print_file :
    (kvs : Fields) → All IsPrintable kvs → parse_env_file (print_file kvs) ≡ ok (put_all kvs [])
unfolding parse_env_file
parse_env_file-print_file kvs h = read_lines-print_file kvs 1 [] h
