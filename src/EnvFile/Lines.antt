-- ===== src/EnvFile/Lines.antt =====
-- The keys of a file that is read, and the line of an error.
use redis_sentinel_reconcile.Prelude.{
  ℕ, suc, ◌+◌, Bool, true, false, ◌&&◌, List, [], ◌∷◌, ◌≡◌, refl, arith, length, ◌++◌, ◌⊎◌, inl,
  inr, sym, ap, ◌∙◌, all,
}
use redis_sentinel_reconcile.Prelude.Result.{Result, ok, err}
use redis_sentinel_reconcile.Text.{Text, split_byte}
use redis_sentinel_reconcile.Sentinel.{Fields, put_field}
use redis_sentinel_reconcile.EnvFile.{
  LineError, Line, skip, bad, entry, read_line, read_lines, parse_env_file, valid_env_key,
}

abbrev pub valid_keys : Fields → Bool
valid_keys [] = true
valid_keys ((k, v) ∷ m) = valid_env_key k && valid_keys m

put_field-valid_keys :
    (k v : Text) (m : Fields)
    → valid_env_key k ≡ true
    → valid_keys m ≡ true
    → valid_keys (put_field k v m) ≡ true
unfolding put_field
put_field-valid_keys k v [] hk hm = ground (arith, hk)
put_field-valid_keys k v ((j, w) ∷ m) hk hm = ground (arith, put_field-valid_keys k v m)

read_line-valid : (raw k v : Text) → read_line raw ≡ entry k v → valid_env_key k ≡ true
unfolding read_line
read_line-valid raw k v h = ground (arith, h)

-- What is read behind a line that adds `l`.
read_after : ℕ → Fields → Line → List Text → Result (ℕ × LineError) Fields
read_after i out skip raws = read_lines (suc i) out raws
read_after i out (bad e) raws = err (i, e)
read_after i out (entry k v) raws = read_lines (suc i) (put_field k v out) raws

read_lines-cons :
    (i : ℕ) (out : Fields) (raw : Text) (raws : List Text) (l : Line)
    → read_line raw ≡ l
    → read_lines i out (raw ∷ raws) ≡ read_after i out l raws
unfolding read_lines read_after
read_lines-cons i out raw raws skip h = rw (read_lines, h) refl
read_lines-cons i out raw raws (bad e) h = rw (read_lines, h) refl
read_lines-cons i out raw raws (entry k v) h = rw (read_lines, h) refl

Line-cases :
    (l : Line)
    → (l ≡ skip) ⊎ ((e : LineError) × (l ≡ bad e)) ⊎ ((k : Text) × (v : Text) × (l ≡ entry k v))
Line-cases skip = inl refl
Line-cases (bad e) = inr (inl (e, refl))
Line-cases (entry k v) = inr (inr (k, v, refl))

read_lines-valid_keys :
    (raws : List Text) (i : ℕ) (out m : Fields)
    → valid_keys out ≡ true
    → read_lines i out raws ≡ ok m
    → valid_keys m ≡ true
unfolding read_after
read_lines-valid_keys [] i out m valid h = unfold read_lines in ground (arith, valid, h)
read_lines-valid_keys (raw ∷ raws) i out m valid h = elim (Line-cases (read_line raw)) [
  | inl e ↦
      read_lines-valid_keys raws (suc i) out m valid
        (sym (read_lines-cons i out raw raws skip e) ∙ h)
  | inr (inl (x, e)) ↦ ground (arith, h, read_lines-cons i out raw raws (bad x) e)
  | inr (inr (k, v, e)) ↦
      read_lines-valid_keys raws (suc i) (put_field k v out) m
        (put_field-valid_keys k v out (read_line-valid raw k v e) valid)
        (sym (read_lines-cons i out raw raws (entry k v) e) ∙ h)
]

-- Every key of the map of a file is a valid key.
pub parse_env_file-valid_keys :
    (b : Text) (m : Fields) → parse_env_file b ≡ ok m → valid_keys m ≡ true
unfolding parse_env_file
parse_env_file-valid_keys b m h = read_lines-valid_keys (split_byte b'\n' b) 1 [] m refl h

-- A line that the reader accepts.
abbrev pub is_accepted : Line → Bool
is_accepted (bad e) = false
is_accepted _ = true

-- Line `n` of `raws`, counted from `i`, is the first that is not accepted, for the reason `e`.
pub record FirstBad (i : ℕ) (raws : List Text) (n : ℕ) (e : LineError) : Type 0 where
  pub before : List Text
  pub raw : Text
  pub after : List Text
  pub lines : raws ≡ before ++ raw ∷ after
  pub number : n ≡ i + length before
  pub accepted : all (λ r. is_accepted (read_line r)) before ≡ true
  pub reason : read_line raw ≡ bad e

FirstBad-cons :
    (i : ℕ) (raw : Text) (raws : List Text) (n : ℕ) (e : LineError)
    → is_accepted (read_line raw) ≡ true
    → FirstBad (suc i) raws n e
    → FirstBad i (raw ∷ raws) n e
FirstBad-cons i raw raws n e good f = record {
  before = raw ∷ f.before;
  raw = f.raw;
  after = f.after;
  lines = ap (λ l. raw ∷ l) (f.lines);
  number = omega (arith, f.number);
  accepted = ground (arith, good, f.accepted);
  reason = f.reason;
}

read_lines-FirstBad :
    (raws : List Text) (i : ℕ) (out : Fields) (n : ℕ) (e : LineError)
    → read_lines i out raws ≡ err (n, e)
    → FirstBad i raws n e
unfolding read_after
read_lines-FirstBad [] i out n e h = unfold read_lines in absurd (cc)
read_lines-FirstBad (raw ∷ raws) i out n e h = elim (Line-cases (read_line raw)) [
  | inl s ↦
      FirstBad-cons i raw raws n e (rw s)
        (read_lines-FirstBad raws (suc i) out n e (sym (read_lines-cons i out raw raws skip s) ∙ h))
  | inr (inl (x, s)) ↦
      let same = sym (read_lines-cons i out raw raws (bad x) s) ∙ h in
      record {
        before = [];
        raw = raw;
        after = raws;
        lines = refl;
        number = ground (arith, same);
        accepted = refl;
        reason = ground (arith, same, s);
      }
  | inr (inr (k, v, s)) ↦ FirstBad-cons i raw raws n e (rw s) (
      read_lines-FirstBad raws (suc i) (put_field k v out) n e
        (sym (read_lines-cons i out raw raws (entry k v) s) ∙ h))
]

-- The error of a file names its first line that is not accepted, counted from one, and the reason.
pub parse_env_file-FirstBad :
    (b : Text) (n : ℕ) (e : LineError)
    → parse_env_file b ≡ err (n, e)
    → FirstBad 1 (split_byte b'\n' b) n e
unfolding parse_env_file
parse_env_file-FirstBad b n e h = read_lines-FirstBad (split_byte b'\n' b) 1 [] n e h
