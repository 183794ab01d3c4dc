-- ===== src/EnvFile/Quote.antt =====
-- Quoted values: a printer, and what the parser reads back.
use mathlib.Core.List.{append_assoc}
use redis_sentinel_reconcile.Prelude.{
  ℕ, true, false, ◌||◌, [], ◌∷◌, ◌++◌, ◌≡◌, arith, ◌==◌, if◌then◌else◌,
}
use redis_sentinel_reconcile.Prelude.Result.{ok}
use redis_sentinel_reconcile.Text.{Text, has_byte}
use redis_sentinel_reconcile.Text.Laws.{cut_first-append}
use redis_sentinel_reconcile.EnvFile.{
  write_byte, is_tail, read_double, unquote_double, unquote_single,
}

abbrev escape_byte : ℕ → Text
escape_byte c = if c == b'"' || c == b'\\' then b'\\' ∷ c ∷ [] else c ∷ []

-- A value with its quotes and backslashes escaped.
unfoldable pub escape : Text → Text
escape [] = []
escape (c ∷ v) = escape_byte c ++ escape v

read_double-escape_byte :
    (c : ℕ) (s : Text) → read_double false (escape_byte c ++ s) ≡ write_byte c (read_double false s)
unfolding read_double
read_double-escape_byte c s = ground arith

-- A value of any bytes, escaped and closed by a quote, is read back when nothing but white space
-- and a comment stands behind it.
pub unquote_double-escape :
    (v tail : Text) → is_tail tail ≡ true → unquote_double (escape v ++ b'"' ∷ tail) ≡ ok v
unfolding unquote_double escape
unquote_double-escape [] tail h = unfold read_double in ground (arith, h)
unquote_double-escape (c ∷ v) tail h =
    rw (append_assoc, read_double-escape_byte, unquote_double-escape v tail h)

-- Between single quotes a value without a single quote is read as it is.
unquote_single-literal :
    (v tail : Text)
    → has_byte b'\'' v ≡ false
    → is_tail tail ≡ true
    → unquote_single (v ++ b'\'' ∷ tail) ≡ ok v
unfolding unquote_single
unquote_single-literal v tail plain h = ground (arith, cut_first-append b'\'' v tail plain, h)
