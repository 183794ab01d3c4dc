-- ===== src/Metrics/Label.antt =====
-- A label value as it stands between its quotes.
use mathlib.Core.List.{append_assoc}
use redis_sentinel_reconcile.Prelude.{
  ℕ, Bool, true, false, [], ◌∷◌, ◌++◌, ◌≡◌, refl, arith, ◌==◌, if◌then◌else◌, Option, none, some,
}
use redis_sentinel_reconcile.Text.{Text, replace_all_byte}
use redis_sentinel_reconcile.Metrics.{prom_label_value}

abbrev prepend : ℕ → Option (Text × Text) → Option (Text × Text)
prepend c none = none
prepend c (some (v, t)) = some (c ∷ v, t)

-- How a reader of the text format takes a label value up to its closing quote: a backslash escapes
-- the byte behind it (the flag says that one was read), and a line break is not allowed.
unfoldable pub read_label : Bool → Text → Option (Text × Text)
read_label escaped [] = none
read_label true (c ∷ s) = prepend (if c == b'n' then b'\n' else c) (read_label false s)
read_label false (c ∷ s) =
    if c == b'"'
    then some ([], s)
    else if c == b'\n'
    then none
    else if c == b'\\'
    then read_label true s
    else prepend c (read_label false s)

abbrev escape : ℕ → Text
escape c =
    if c == b'\\'
    then b'\\' ∷ b'\\' ∷ []
    else if c == b'\n'
    then b'\\' ∷ b'n' ∷ []
    else if c == b'"'
    then b'\\' ∷ b'"' ∷ []
    else c ∷ []

-- The three passes are one pass.
prom_label_value-cons :
    (c : ℕ) (s : Text) → prom_label_value (c ∷ s) ≡ escape c ++ prom_label_value s
unfolding prom_label_value replace_all_byte
prom_label_value-cons c s = ground arith

read_label-escape :
    (c : ℕ) (s : Text) → read_label false (escape c ++ s) ≡ prepend c (read_label false s)
unfolding read_label
read_label-escape c s = ground arith

-- The value that a label was given is the value that a reader takes, whatever bytes it has.
pub read_label-prom_label_value :
    (s rest : Text) → read_label false (prom_label_value s ++ b'"' ∷ rest) ≡ some (s, rest)
read_label-prom_label_value [] rest = unfold read_label prom_label_value replace_all_byte in refl
read_label-prom_label_value (c ∷ s) rest =
    rw (
      prom_label_value-cons c s,
      append_assoc,
      read_label-escape,
      read_label-prom_label_value s rest,
    )
