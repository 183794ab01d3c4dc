-- ===== src/Examples/Files.antt =====
-- The theorems on the config file, at small files.
use redis_sentinel_reconcile.Prelude.{[], ◌∷◌, true, ◌≡◌, refl}
use redis_sentinel_reconcile.Prelude.Result.{ok, err}
use redis_sentinel_reconcile.Text.{
  Text, codes, text_eq, has_prefix, has_byte, to_upper, cut_first, replace_all_byte, trim_left,
  trim_right, trim_space, trim_suffix_byte, strip_prefix, trim_prefix, split_byte,
}
use redis_sentinel_reconcile.Sentinel.{Fields, put_field}
use redis_sentinel_reconcile.EnvFile.{
  parse_env_file, read_lines, read_line, parse_env_line, read_value, unquote_double, unquote_single,
  read_double, is_tail, canonical_file_key, valid_env_key, expected_key_value,
}
use redis_sentinel_reconcile.EnvFile.Print.{is_plain_key, print_file, put_all}
use redis_sentinel_reconcile.EnvFile.RoundTrip.{parse_env_file-print_file}
use redis_sentinel_reconcile.EnvFile.Lines.{
  FirstBad, valid_keys, parse_env_file-valid_keys, parse_env_file-FirstBad,
}

-- A password with a quote, a backslash, a '#' and a space at its end.
abbrev settings : Fields
settings =
    (codes "MASTER_NAME", codes "mymaster")
    ∷ (codes "REDIS_PASSWORD", b'p' ∷ b'"' ∷ b'\\' ∷ b'#' ∷ b' ' ∷ [])
    ∷ []

plain_keys :
    (is_plain_key (codes "MASTER_NAME") ≡ true) × (is_plain_key (codes "REDIS_PASSWORD") ≡ true)
unfolding is_plain_key codes has_prefix
plain_keys = (refl, refl)

parse_env_file-print_file_example : parse_env_file (print_file settings) ≡ ok (put_all settings [])
parse_env_file-print_file_example = parse_env_file-print_file settings (
  (plain_keys.0, unfold has_byte codes in refl),
  ((plain_keys.1, unfold has_byte codes in refl), tt),
)

abbrev good_file : Text
good_file = codes "# local\nexport sentinel-addr='db:26379' # here\n"

read_good : parse_env_file good_file ≡ ok ((codes "SENTINEL_ADDR", codes "db:26379") ∷ [])
unfolding parse_env_file read_lines read_line parse_env_line read_value unquote_double
    unquote_single read_double is_tail canonical_file_key valid_env_key codes text_eq has_prefix
    has_byte to_upper cut_first replace_all_byte trim_left trim_right trim_space trim_suffix_byte
    strip_prefix trim_prefix split_byte put_field
read_good = refl

parse_env_file-valid_keys_example :
    valid_keys ((codes "SENTINEL_ADDR", codes "db:26379") ∷ []) ≡ true
parse_env_file-valid_keys_example = parse_env_file-valid_keys good_file _ read_good

abbrev bad_file : Text
bad_file = codes "APPLY=false\n\nTLS\nonce"

read_bad : parse_env_file bad_file ≡ err (3, expected_key_value)
unfolding parse_env_file read_lines read_line parse_env_line read_value unquote_double
    unquote_single read_double is_tail canonical_file_key valid_env_key codes text_eq has_prefix
    has_byte to_upper cut_first replace_all_byte trim_left trim_right trim_space trim_suffix_byte
    strip_prefix trim_prefix split_byte put_field
read_bad = refl

parse_env_file-FirstBad_example : FirstBad 1 (split_byte b'\n' bad_file) 3 expected_key_value
parse_env_file-FirstBad_example = parse_env_file-FirstBad bad_file 3 expected_key_value read_bad
