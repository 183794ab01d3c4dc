-- ===== src/Flags/Last.antt =====
-- What an argument `--name=value` does, and the value that it gives to a flag last.
use redis_sentinel_reconcile.Prelude.{
  true, false, List, [], ◌∷◌, ◌++◌, none, some, ◌≡◌, refl, arith, ◌∙◌, sym, all, map, Option,
  Option-cases, inl, inr,
}
use redis_sentinel_reconcile.Prelude.Result.{ok, err}
use redis_sentinel_reconcile.Text.{Text, codes, has_byte}
use redis_sentinel_reconcile.Text.Laws.{cut_first-append, text_eq_refl}
use redis_sentinel_reconcile.Flags.{
  Flag, text, switch, duration, int, jitter, addrs, flag_name, Parsers, Values, named, read_arg,
  parse_flags, parse_from, step_arg, assign, set_value, invalid_value, put_at, parse_bool,
  multi_flag_set, text_name, bool_name, duration_name, int_name, addrs_name,
}
use redis_sentinel_reconcile.Flags.Found.{name_byte, is_flag_name, found}
use redis_sentinel_reconcile.Flags.Laws.{mentions, Same, parse_flags-Same}

name-equals : (s : Text) → all name_byte s ≡ true → has_byte b'=' s ≡ false
unfolding has_byte
name-equals [] h = refl
name-equals (c ∷ s) h = ground (arith, name-equals s)

read_arg-named :
    (name a : Text)
    → is_flag_name name ≡ true
    → read_arg (codes "--" ++ (name ++ b'=' ∷ a)) ≡ named name (some a)
unfolding read_arg is_flag_name codes
read_arg-named [] a h = absurd (cc)
read_arg-named (c ∷ s) a h = ground (arith, h, name-equals s, cut_first-append b'=' s a)

-- A flag and its value as one argument.
abbrev pub spell : Flag × Text → Text
spell (f, a) = codes "--" ++ (flag_name f ++ b'=' ∷ a)

-- The values behind those arguments, in order.
abbrev pub set_all : Parsers → List (Flag × Text) → Values → Option Values
set_all p [] v = some v
set_all p ((f, a) ∷ more) v = elim (set_value p f a v) [ none ↦ none | some u ↦ set_all p more u ]

-- The text `a` is the value of the flag in `w`; to a list of addresses it adds to that of `u`.
abbrev pub Gives : Parsers → Flag → Text → Values → Values → Type 0
Gives p (text f) a u w = w.texts f ≡ a
Gives p (switch f) a u w = parse_bool a ≡ some (w.bools f)
Gives p (duration f) a u w = p.parse_duration a ≡ some (w.durations f)
Gives p (int f) a u w = p.parse_int a ≡ some (w.ints f)
Gives p jitter a u w = p.is_float a ≡ true
Gives p (addrs f) a u w = w.lists f ≡ u.lists f ++ multi_flag_set a []

step_arg-spell :
    (p : Parsers) (f : Flag) (a : Text) (v : Values)
    → step_arg p none (spell (f, a)) v ≡ assign p f a v
unfolding step_arg
step_arg-spell p f a v =
    let (here, plain) = found f in rw (step_arg, read_arg-named (flag_name f) a plain, here) refl

multi_flag_set-append : (a : Text) (m : List Text) → multi_flag_set a m ≡ m ++ multi_flag_set a []
unfolding multi_flag_set
multi_flag_set-append a m = refl

-- What `set_value` stores, and what the rest of the arguments keep, is what the flag was given.
set_value-Gives :
    (p : Parsers) (f : Flag) (a : Text) (u v w : Values)
    → set_value p f a u ≡ some v
    → Same f v w
    → Gives p f a u w
unfolding set_value put_at Same
set_value-Gives p (text f) a u v w h same = ground (arith, h, same, text_eq_refl (text_name f))
set_value-Gives p (switch f) a u v w h same = ground (arith, h, same, text_eq_refl (bool_name f))
set_value-Gives p (duration f) a u v w h same =
    ground (arith, h, same, text_eq_refl (duration_name f))
set_value-Gives p (int f) a u v w h same = ground (arith, h, same, text_eq_refl (int_name f))
set_value-Gives p jitter a u v w h same = ground (arith, h)
set_value-Gives p (addrs f) a u v w h same =
    ground (arith, h, same, text_eq_refl (addrs_name f), multi_flag_set-append a (u.lists f))

module _ (p : Parsers) (f : Flag) (a : Text) (args : List Text) (v : Values) where
  parse_from-refused :
      set_value p f a v ≡ none
      → parse_from p none (spell (f, a) ∷ args) v ≡ err (invalid_value (flag_name f))
  unfolding parse_from assign
  parse_from-refused e = rw (parse_from, step_arg-spell p f a v, assign, e) refl

  parse_from-set :
      (u : Values)
      → set_value p f a v ≡ some u
      → parse_from p none (spell (f, a) ∷ args) v ≡ parse_from p none args u
  unfolding parse_from assign
  parse_from-set u e = rw (parse_from, step_arg-spell p f a v, assign, e) refl

  -- Where the parse ends without error, the flag takes the value.
  parse_from-takes :
      (w : Values)
      → parse_from p none (spell (f, a) ∷ args) v ≡ ok w
      → (u : Values) × (set_value p f a v ≡ some u) × (parse_from p none args u ≡ ok w)
  parse_from-takes w h = elim (Option-cases (set_value p f a v)) [
    | inl refused ↦ absurd (ground (arith, parse_from-refused refused, h))
    | inr (u, sets) ↦ (u, sets, sym (parse_from-set u sets) ∙ h)
  ]

module _ (p : Parsers) (f : Flag) (a : Text) (after : List Text) (w : Values) where
  last_from :
      (before : List (Flag × Text)) (v : Values)
      → mentions (flag_name f) after ≡ false
      → parse_from p none (map spell before ++ (spell (f, a) ∷ after)) v ≡ ok w
      → (u : Values) × (set_all p before v ≡ some u) × Gives p f a u w
  last_from [] v ne h =
      let (u, sets, rest) = parse_from-takes p f a after v w h in
      (
        v,
        refl,
        set_value-Gives p f a v u w sets
            (parse_flags-Same p f after u w ne (unfold parse_flags in rest)),
      )
  last_from ((g, b) ∷ before) v ne h =
      let (u, sets, rest) =
        parse_from-takes p g b (map spell before ++ (spell (f, a) ∷ after)) v w h in
      let (x, all_, gives) = last_from before u ne rest in (x, rw (set_all, sets) all_, gives)

  -- In a parse without error of arguments `--name=value`, of one more for the flag `f`, and of any
  -- arguments behind it that do not name `f` again, `f` ends with that value whatever the arguments
  -- in front gave to it; a list of addresses ends with that value's behind those that it had.
  pub parse_flags-last :
      (before : List (Flag × Text)) (v : Values)
      → mentions (flag_name f) after ≡ false
      → parse_flags p (map spell before ++ (spell (f, a) ∷ after)) v ≡ ok w
      → (u : Values) × (set_all p before v ≡ some u) × Gives p f a u w
  unfolding parse_flags parse_from
  parse_flags-last before v = last_from before v
