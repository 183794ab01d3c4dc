-- ===== src/Flags.antt =====
-- The command line of cmd/reconciler/config.go and main.go: the flags that parseConfig defines,
-- multiFlag, and the FlagSet.Parse of package flag that reads them.
mod Table
pub mod Laws
pub mod Found
pub mod Last
unfoldable pub use Table.*
use redis_sentinel_reconcile.Prelude.{
  ℕ, Bool, true, false, ◌||◌, List, [], ◌∷◌, ◌++◌, any, Option, none, some, ◌==◌, if◌then◌else◌,
}
use redis_sentinel_reconcile.Prelude.Int.{ℤ}
use redis_sentinel_reconcile.Prelude.Result.{Result, ok, err}
use redis_sentinel_reconcile.Text.{
  Text, codes, text_eq, is_empty, cut_first, trim_space, split_byte,
}

-- The functions of strconv and time that read a flag's value; `none` is an error.
pub record Parsers : Type 0 where
  pub parse_duration : Text → Option ℤ
  pub parse_int : Text → Option ℤ
  pub is_float : Text → Bool

-- The values of the flags.
pub record Values : Type 0 where
  pub texts : TextFlag → Text
  pub bools : BoolFlag → Bool
  pub durations : DurationFlag → ℤ
  pub ints : IntFlag → ℤ
  pub lists : AddrsFlag → List Text

-- A store with a new value at the variable `f`.
unfoldable pub put_at : {A B : Type 0} → (A → Text) → A → B → (A → B) → A → B
put_at name f b store g = if text_eq (name g) (name f) then b else store g

keep_parts : List Text → List Text
keep_parts [] = []
keep_parts (part ∷ parts) =
    let rest = keep_parts parts in
    if is_empty (trim_space part) then rest else trim_space part ∷ rest

-- The method Set of multiFlag, which never fails.
unfoldable pub multi_flag_set : Text → List Text → List Text
unfolding keep_parts
multi_flag_set value m = m ++ keep_parts (split_byte b',' value)

-- strconv.ParseBool
unfoldable pub parse_bool : Text → Option Bool
parse_bool s =
    if any (text_eq s)
      (codes "1" ∷ codes "t" ∷ codes "T" ∷ codes "true" ∷ codes "TRUE" ∷ codes "True" ∷ [])
    then some true
    else if any (text_eq s)
        (codes "0" ∷ codes "f" ∷ codes "F" ∷ codes "false" ∷ codes "FALSE" ∷ codes "False" ∷ [])
    then some false
    else none

abbrev map_some : {A B : Type 0} → (A → B) → Option A → Option B
map_some f none = none
map_some f (some a) = some (f a)

-- The method Set of a flag's value; `none` is its error.
unfoldable pub set_value : Parsers → Flag → Text → Values → Option Values
unfolding multi_flag_set parse_bool
set_value p (text f) v vals = some (record vals { texts = put_at text_name f v vals.texts })
set_value p (switch f) v vals =
    map_some (λ b. record vals { bools = put_at bool_name f b vals.bools }) (parse_bool v)
set_value p (duration f) v vals =
    map_some (λ d. record vals { durations = put_at duration_name f d vals.durations })
      (p.parse_duration v)
set_value p (int f) v vals =
    map_some (λ n. record vals { ints = put_at int_name f n vals.ints }) (p.parse_int v)
set_value p jitter v vals = if p.is_float v then some vals else none
set_value p (addrs f) v vals =
    some (record vals { lists = put_at addrs_name f (multi_flag_set v (vals.lists f)) vals.lists })

pub data FlagError : Type 0 where
  help : FlagError
  bad_syntax flag_not_defined needs_argument invalid_value : Text → FlagError

-- What an argument is by itself.
pub data Arg : Type 0 where
  no_flag : Arg
  malformed : Arg
  named : Text → Option Text → Arg

-- What follows the dashes, cut at the first '=' behind the first byte.
read_name : Text → Arg
read_name [] = malformed
read_name (c ∷ s) = if c == b'-' || c == b'=' then malformed else elim (cut_first b'=' s) [
  | none ↦ named (c ∷ s) none
  | some (a, v) ↦ named (c ∷ a) (some v)
]

unfoldable pub read_arg : Text → Arg
unfolding read_name
read_arg [] = no_flag
read_arg (c ∷ []) = no_flag
read_arg (c ∷ d ∷ s) =
    if c == b'-'
    then if d == b'-' then if is_empty s then no_flag else read_name s else read_name (d ∷ s)
    else no_flag

-- Whether the flags end, fail, or go on; a flag may wait for the next argument.
pub data Next : Type 0 where
  stop : Next
  fail : FlagError → Next
  go_on : Option Flag → Values → Next

module _ (p : Parsers) where
  unfoldable pub assign : Flag → Text → Values → Next
  assign f v vals = elim (set_value p f v vals) [
    | none ↦ fail (invalid_value (flag_name f))
    | some vals' ↦ go_on none vals'
  ]

  -- A flag without a value.
  unfoldable pub without_value : Flag → Values → Next
  unfolding assign
  without_value (switch f) vals = assign (switch f) (codes "true") vals
  without_value f vals = go_on (some f) vals

  unfoldable pub undefined : Text → Next
  undefined name =
      if text_eq name (codes "help") || text_eq name (codes "h")
      then fail help
      else fail (flag_not_defined name)

  -- One argument, with the flag that waits for it.
  unfoldable pub step_arg : Option Flag → Text → Values → Next
  unfolding without_value undefined
  step_arg (some f) a vals = assign f a vals
  step_arg none a vals = elim (read_arg a) [
    | no_flag ↦ stop
    | malformed ↦ fail (bad_syntax a)
    | named name value ↦ elim (formal name) [
      | none ↦ undefined name
      | some f ↦ elim value [ none ↦ without_value f vals | some v ↦ assign f v vals ]
    ]
  ]

  parse_from : Option Flag → List Text → Values → Result FlagError Values
  unfolding step_arg
  parse_from none [] vals = ok vals
  parse_from (some f) [] vals = err (needs_argument (flag_name f))
  parse_from waiting (a ∷ args) vals = elim (step_arg waiting a vals) [
    | stop ↦ ok vals
    | fail e ↦ err e
    | go_on waiting' vals' ↦ parse_from waiting' args vals'
  ]

  -- FlagSet.Parse; the arguments behind the flags are left.
  unfoldable pub parse_flags : List Text → Values → Result FlagError Values
  unfolding parse_from
  parse_flags args vals = parse_from none args vals
