-- ===== src/Flags/Laws.antt =====
-- What the command line does to a setting: a flag that it does not name keeps its value, and the last
-- value that it gives to a flag of text stands.
use redis_sentinel_reconcile.Prelude.{
  Bool, true, false, not, ◌||◌, List, [], ◌∷◌, any, Option, none, some, ◌≡◌, ◌⊎◌, inl, inr, refl,
  arith, ◌∙◌, sym, Option-cases, Bool-cases, or_false, if◌then◌else◌,
}
use redis_sentinel_reconcile.Prelude.Result.{ok, err, Holds, Holds-ok, Holds-err}
use redis_sentinel_reconcile.Text.{Text, codes, text_eq}
use redis_sentinel_reconcile.Text.Laws.{text_eq_iff}
use redis_sentinel_reconcile.Flags.{
  Flag, text, switch, duration, int, jitter, addrs, flag_name, find_flag, formal, all_flags,
  Parsers, Values, put_at, set_value, FlagError, Arg, no_flag, malformed, named, read_arg, Next,
  stop, fail, go_on, step_arg, assign, without_value, undefined, parse_from, parse_flags,
}

-- Whether an argument names a flag.
abbrev is_named : Text → Arg → Bool
is_named name (named n v) = text_eq n name
is_named name _ = false

-- Whether some argument, a value of a flag included, reads as the flag of that name.
unfoldable pub mentions : Text → List Text → Bool
mentions name args = any (λ a. is_named name (read_arg a)) args

-- The two stores hold the same value of a flag.
unfoldable pub Same : Flag → Values → Values → Type 0
Same (text f) v w = v.texts f ≡ w.texts f
Same (switch f) v w = v.bools f ≡ w.bools f
Same (duration f) v w = v.durations f ≡ w.durations f
Same (int f) v w = v.ints f ≡ w.ints f
Same jitter v w = Unit
Same (addrs f) v w = v.lists f ≡ w.lists f

Same-refl : (f : Flag) (v : Values) → Same f v v
unfolding Same
Same-refl (text f) v = refl
Same-refl (switch f) v = refl
Same-refl (duration f) v = refl
Same-refl (int f) v = refl
Same-refl jitter v = tt
Same-refl (addrs f) v = refl

Same-trans : (f : Flag) (u v w : Values) → Same f u v → Same f v w → Same f u w
unfolding Same
Same-trans (text f) u v w a b = a ∙ b
Same-trans (switch f) u v w a b = a ∙ b
Same-trans (duration f) u v w a b = a ∙ b
Same-trans (int f) u v w a b = a ∙ b
Same-trans jitter u v w a b = tt
Same-trans (addrs f) u v w a b = a ∙ b

set_value-Same :
    (p : Parsers) (f g : Flag) (a : Text) (v w : Values)
    → text_eq (flag_name f) (flag_name g) ≡ false
    → set_value p g a v ≡ some w
    → Same f v w
unfolding set_value put_at Same flag_name
set_value-Same p (text f) g a v w ne h = ground (arith, ne, h)
set_value-Same p (switch f) g a v w ne h = ground (arith, ne, h)
set_value-Same p (duration f) g a v w ne h = ground (arith, ne, h)
set_value-Same p (int f) g a v w ne h = ground (arith, ne, h)
set_value-Same p jitter g a v w ne h = tt
set_value-Same p (addrs f) g a v w ne h = ground (arith, ne, h)

if_some-cases :
    {A : Type 0} (b : Bool) (x y : A) (o : Option A)
    → (if b then some x else o) ≡ some y
    → ((b ≡ true) × (x ≡ y)) ⊎ (o ≡ some y)
if_some-cases true x y o h = inl (refl, cc)
if_some-cases false x y o h = inr h

find_flag-name :
    (name : Text) (flags : List Flag) (g : Flag)
    → find_flag name flags ≡ some g
    → text_eq (flag_name g) name ≡ true
unfolding find_flag
find_flag-name name [] g h = absurd (cc)
find_flag-name name (f ∷ flags) g h =
    elim (if_some-cases (text_eq (flag_name f) name) f g (find_flag name flags) h) [
      | inl (found, same) ↦ rw (sym same) found
      | inr later ↦ find_flag-name name flags g later
    ]

-- The flag that waits for an argument is not `f`.
abbrev is_other : Flag → Option Flag → Bool
is_other f none = true
is_other f (some g) = not (text_eq (flag_name f) (flag_name g))

-- What a step that goes on leaves of `f`.
abbrev Kept : Flag → Values → Next → Type 0
Kept f v stop = Unit
Kept f v (fail e) = Unit
Kept f v (go_on waiting w) = Same f v w × (is_other f waiting ≡ true)

assign-Kept :
    (p : Parsers) (f g : Flag) (a : Text) (v : Values)
    → text_eq (flag_name f) (flag_name g) ≡ false
    → Kept f v (assign p g a v)
unfolding assign
assign-Kept p f g a v ne = elim (Option-cases (set_value p g a v)) [
  | inl none_ ↦ rw (assign, none_) tt
  | inr (w, e) ↦ rw (assign, e) (set_value-Same p f g a v w ne e, refl)
]

without_value-Kept :
    (p : Parsers) (f g : Flag) (v : Values)
    → text_eq (flag_name f) (flag_name g) ≡ false
    → Kept f v (without_value p g v)
unfolding without_value
without_value-Kept p f (switch g) v ne = assign-Kept p f (switch g) _ v ne
without_value-Kept p f (text g) v ne = (Same-refl f v, ground (arith, ne))
without_value-Kept p f (duration g) v ne = (Same-refl f v, ground (arith, ne))
without_value-Kept p f (int g) v ne = (Same-refl f v, ground (arith, ne))
without_value-Kept p f jitter v ne = (Same-refl f v, ground (arith, ne))
without_value-Kept p f (addrs g) v ne = (Same-refl f v, ground (arith, ne))

text_eq-differ : (a b c : Text) → text_eq b c ≡ true → text_eq c a ≡ false → text_eq a b ≡ false
text_eq-differ a b c same ne =
    ground (arith, same, ne, text_eq_iff b c, text_eq_iff c a, text_eq_iff a b)

on_value-Kept :
    (p : Parsers) (f g : Flag) (value : Option Text) (v : Values)
    → text_eq (flag_name f) (flag_name g) ≡ false
    → Kept f v (elim value [ none ↦ without_value p g v | some a ↦ assign p g a v ])
on_value-Kept p f g none v ne = without_value-Kept p f g v ne
on_value-Kept p f g (some a) v ne = assign-Kept p f g a v ne

undefined-Kept : (p : Parsers) (f : Flag) (name : Text) (v : Values) → Kept f v (undefined p name)
unfolding undefined
undefined-Kept p f name v =
    elim (Bool-cases (text_eq name (codes "help") || text_eq name (codes "h"))) [
      | inl asks ↦ rw (undefined, asks) tt
      | inr unknown ↦ rw (undefined, unknown) tt
    ]

formal-Kept :
    (p : Parsers) (f : Flag) (name : Text) (value : Option Text) (v : Values)
    → text_eq name (flag_name f) ≡ false
    → Kept f v (elim (formal name) [
      | none ↦ undefined p name
      | some g ↦ elim value [ none ↦ without_value p g v | some a ↦ assign p g a v ]
    ])
unfolding formal
formal-Kept p f name value v ne = elim (Option-cases (formal name)) [
  | inl none_ ↦ rw none_ (undefined-Kept p f name v)
  | inr (g, e) ↦ rw e (
      on_value-Kept p f g value v
        (text_eq-differ (flag_name f) (flag_name g) name (find_flag-name name all_flags g e) ne))
]

arg-Kept :
    (p : Parsers) (f : Flag) (a : Text) (arg : Arg) (v : Values)
    → is_named (flag_name f) arg ≡ false
    → Kept f v (elim arg [
      | no_flag ↦ stop
      | malformed ↦ fail (FlagError.bad_syntax a)
      | named name value ↦ elim (formal name) [
        | none ↦ undefined p name
        | some g ↦ elim value [ none ↦ without_value p g v | some b ↦ assign p g b v ]
      ]
    ])
arg-Kept p f a no_flag v ne = tt
arg-Kept p f a malformed v ne = tt
arg-Kept p f a (named name value) v ne = formal-Kept p f name value v ne

step_arg-Kept :
    (p : Parsers) (f : Flag) (waiting : Option Flag) (a : Text) (v : Values)
    → is_other f waiting ≡ true
    → is_named (flag_name f) (read_arg a) ≡ false
    → Kept f v (step_arg p waiting a v)
unfolding step_arg
step_arg-Kept p f none a v other ne = arg-Kept p f a (read_arg a) v ne
step_arg-Kept p f (some g) a v other ne = assign-Kept p f g a v (ground (arith, other))

module _ (p : Parsers) (f : Flag) where
  after_step :
      (args : List Text) (v : Values) (n : Next)
      → Kept f v n
      → ((waiting : Option Flag) (w : Values)
          → is_other f waiting ≡ true
          → Holds (Same f w) (parse_from p waiting args w))
      → Holds
          (Same f v)
          (elim n [ stop ↦ ok v | fail e ↦ err e | go_on waiting w ↦ parse_from p waiting args w ])
  after_step args v stop kept rest = Holds-ok _ v refl (Same-refl f v)
  after_step args v (fail e) kept rest = Holds-err e
  after_step args v (go_on waiting w) (same, other) rest = record {
    at = λ u e. Same-trans f v w u same ((rest waiting w other).at u e);
  }

  parse_from-Same :
      (waiting : Option Flag) (args : List Text) (v : Values)
      → is_other f waiting ≡ true
      → mentions (flag_name f) args ≡ false
      → Holds (Same f v) (parse_from p waiting args v)
  unfolding parse_from mentions
  parse_from-Same none [] v other ne = Holds-ok _ v refl (Same-refl f v)
  parse_from-Same (some g) [] v other ne = Holds-err _
  parse_from-Same none (a ∷ args) v other ne =
      let (here, later) = or_false _ _ ne in
      after_step args v (step_arg p none a v) (step_arg-Kept p f none a v other here)
        λ waiting w o. parse_from-Same waiting args w o later
  parse_from-Same (some g) (a ∷ args) v other ne =
      let (here, later) = or_false _ _ ne in
      after_step args v (step_arg p (some g) a v) (step_arg-Kept p f (some g) a v other here)
        λ waiting w o. parse_from-Same waiting args w o later

  -- In a parse without error, a flag that no argument names keeps the value that it had before.
  pub parse_flags-Same :
      (args : List Text) (v w : Values)
      → mentions (flag_name f) args ≡ false
      → parse_flags p args v ≡ ok w
      → Same f v w
  unfolding parse_flags
  parse_flags-Same args v w ne = (parse_from-Same none args v refl ne).at w
