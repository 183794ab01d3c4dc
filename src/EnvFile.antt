-- ===== src/EnvFile.antt =====
-- cmd/reconciler/configfile.go: the KEY=VALUE file of --config, and the environment laid over it. The
-- letters and digits of a key are those of ASCII.
pub mod Quote
pub mod Print
pub mod Lines
pub mod RoundTrip
use redis_sentinel_reconcile.Prelude.{
  ℕ, suc, Bool, true, false, not, ◌&&◌, ◌||◌, List, [], ◌∷◌, ◌++◌, Option, none, some, leb, ◌==◌,
  all, if◌then◌else◌,
}
use redis_sentinel_reconcile.Prelude.Result.{Result, ok, err, ◌>>=◌}
use redis_sentinel_reconcile.Text.{
  Text, codes, text_eq, is_empty, to_upper, has_prefix, cut_first, replace_all_byte, trim_space,
  trim_suffix_byte, strip_prefix, trim_prefix, split_byte,
}
use redis_sentinel_reconcile.Text.Decimal.{is_digit}
use redis_sentinel_reconcile.Sentinel.{Fields, field, put_field}

-- A getenvFunc; "" stands for a variable that is not set.
abbrev pub Getenv : Type 0
Getenv = Text → Text

pub data LineError : Type 0 where
  expected_key_value : LineError
  invalid_key : Text → LineError
  trailing_garbage unterminated_double unterminated_single : LineError

-- canonicalFileKey
unfoldable pub canonical_file_key : Text → Text
canonical_file_key k =
    trim_prefix
      (to_upper (replace_all_byte b'-' (b'_' ∷ []) (trim_prefix (trim_space k) (codes "--"))))
      (codes "RSR_")

abbrev pub is_letter : ℕ → Bool
is_letter c = (leb b'A' c && leb c b'Z') || (leb b'a' c && leb c b'z')

abbrev starts_key : ℕ → Bool
starts_key c = c == b'_' || is_letter c

abbrev continues_key : ℕ → Bool
continues_key c = c == b'-' || c == b'_' || is_letter c || is_digit c

unfoldable pub valid_env_key : Text → Bool
valid_env_key [] = false
valid_env_key (c ∷ k) = starts_key c && all continues_key k

-- What may stand behind a quoted value: white space and a comment.
unfoldable pub is_tail : Text → Bool
is_tail s = let tail = trim_space s in is_empty tail || has_prefix tail (codes "#")

abbrev write_byte : ℕ → Result LineError Text → Result LineError Text
write_byte c (ok v) = ok (c ∷ v)
write_byte c (err e) = err e

-- The loop of unquoteDouble; the flag is `escaped`.
unfoldable pub read_double : Bool → Text → Result LineError Text
unfolding is_tail
read_double escaped [] = err unterminated_double
read_double true (c ∷ s) = write_byte c (read_double false s)
read_double false (c ∷ s) =
    let escape = read_double true s in
    let copy = write_byte c (read_double false s) in
    if c == b'\\'
    then escape
    else if c == b'"'
    then if is_tail s then ok [] else err trailing_garbage
    else copy

-- unquoteDouble, behind its first quote
unfoldable pub unquote_double : Text → Result LineError Text
unfolding read_double
unquote_double s = read_double false s

-- unquoteSingle, behind its first quote
unfoldable pub unquote_single : Text → Result LineError Text
unfolding is_tail
unquote_single s = elim (cut_first b'\'' s) [
  | none ↦ err unterminated_single
  | some (v, after) ↦ if is_tail after then ok v else err trailing_garbage
]

-- The switch on the first byte of a value.
unfoldable pub read_value : Text → Result LineError Text
unfolding unquote_double unquote_single
read_value [] = ok []
read_value (c ∷ s) =
    if c == b'"'
    then unquote_double s
    else if c == b'\''
    then unquote_single s
    else ok (trim_space (c ∷ s))

abbrev with_key : Text → Result LineError Text → Result LineError (Text × Text)
with_key key (ok v) = ok (key, v)
with_key key (err e) = err e

-- What follows the cut at the first '='.
key_value : Text → Text → Result LineError (Text × Text)
key_value key rest =
    if is_empty (canonical_file_key key)
      || (not (valid_env_key key) && not (valid_env_key (canonical_file_key key)))
    then err (invalid_key key)
    else with_key key (read_value rest)

unfoldable pub parse_env_line : Text → Result LineError (Text × Text)
unfolding key_value
parse_env_line line = elim (cut_first b'=' line) [
  | none ↦ err expected_key_value
  | some (before, rest) ↦
      if is_empty before then err expected_key_value else key_value (trim_space before) rest
]

-- What a line adds to the map.
pub data Line : Type 0 where
  skip : Line
  bad : LineError → Line
  entry : Text → Text → Line

without_export : Text → Text
without_export line =
    if has_prefix line (codes "export ")
    then trim_space (trim_prefix line (codes "export"))
    else line

-- The key of a pair, checked as it is stored.
stored : Result LineError (Text × Text) → Line
stored (err e) = bad e
stored (ok (key, v)) =
    let k = canonical_file_key key in if valid_env_key k then entry k v else bad (invalid_key k)

-- One round of the loop of loadEnvFile.
unfoldable pub read_line : Text → Line
unfolding without_export stored
read_line raw =
    let line = trim_space (trim_suffix_byte b'\r' raw) in
    if is_empty line || has_prefix line (codes "#")
    then skip
    else stored (parse_env_line (without_export line))

abbrev pub step_line : ℕ → Fields → Line → Result (ℕ × LineError) Fields
step_line i out skip = ok out
step_line i out (bad e) = err (i, e)
step_line i out (entry k v) = ok (put_field k v out)

-- The loop from line `i` on.
unfoldable pub read_lines : ℕ → Fields → List Text → Result (ℕ × LineError) Fields
read_lines i out [] = ok out
read_lines i out (raw ∷ raws) = elim (step_line i out (read_line raw)) [
  | err e ↦ err e
  | ok out' ↦ read_lines (suc i) out' raws
]

pub data FileError : Type 0 where
  unreadable : FileError
  at_line : ℕ → LineError → FileError

-- The map of a file by its text.
unfoldable pub parse_env_file : Text → Result (ℕ × LineError) Fields
unfolding read_lines
parse_env_file b = read_lines 1 [] (split_byte b'\n' b)

-- loadEnvFile; os.ReadFile gives none where it fails.
unfoldable pub load_env_file : (Text → Option Text) → Text → Result FileError Fields
load_env_file read_file path = elim (read_file path) [
  | none ↦ err unreadable
  | some b ↦ elim (parse_env_file b) [ err (i, e) ↦ err (at_line i e) | ok m ↦ ok m ]
]

abbrev pub or_text : Text → Text → Text
or_text a b = if is_empty a then b else a

-- layerGetenv; no file and an empty one are one
unfoldable pub layer_getenv : Getenv → Fields → Getenv
layer_getenv primary file k =
    let bare = trim_prefix k (codes "RSR_") in
    or_text (trim_space (primary k))
      (or_text (field k file) (or_text (field bare file) (field (codes "RSR_" ++ bare) file)))

-- What the arguments say of --config.
pub data Peek : Type 0 where
  absent : Peek
  missing : Peek
  path : Text → Peek

abbrev is_config : Text → Bool
is_config a = text_eq a (codes "--config") || text_eq a (codes "-config")

abbrev given : Text → Peek
given p = if is_empty p then missing else path p

abbrev next_arg : List Text → Peek
next_arg [] = missing
next_arg (p ∷ args) = path p

unfoldable pub peek_args : List Text → Peek
peek_args [] = absent
peek_args (a ∷ args) =
    if is_config a then next_arg args else elim (strip_prefix a (codes "--config=")) [
      | some p ↦ given p
      | none ↦ elim (strip_prefix a (codes "-config=")) [ some p ↦ given p | none ↦ peek_args args ]
    ]

-- peekConfigPath; `none` is its error.
unfoldable pub peek_config_path : List Text → Getenv → Option Text
unfolding peek_args
peek_config_path args getenv = elim (peek_args args) [
  | missing ↦ none
  | path p ↦ some p
  | absent ↦
      some
        (or_text (trim_space (getenv (codes "CONFIG"))) (trim_space (getenv (codes "RSR_CONFIG"))))
]
