-- ===== src/Examples/Arguments.antt =====
-- The theorems on single arguments, pod names and the writer's addresses.
use redis_sentinel_reconcile.Prelude.{
  ℕ, false, List, [], ◌∷◌, ◌++◌, none, some, map, ◌≡◌, ◌≤◌, ◌<◌, ◌^◌, refl,
}
use redis_sentinel_reconcile.Prelude.Int.{pos, negsuc}
use redis_sentinel_reconcile.Prelude.Result.{ok}
use redis_sentinel_reconcile.Text.{Text, codes, text_eq, cut_first}
use redis_sentinel_reconcile.Net.{sprint_addr}
use redis_sentinel_reconcile.Flags.{
  TextFlag, AddrsFlag, Flag, text, text_name, addrs_name, bool_name, int_name, duration_name,
  flag_name, formal, all_flags, Values, put_at, multi_flag_set, set_value, read_arg, step_arg,
  assign, without_value, parse_flags,
}
use redis_sentinel_reconcile.Flags.Laws.{mentions}
use redis_sentinel_reconcile.Flags.Last.{spell, set_all, parse_flags-last}
use redis_sentinel_reconcile.Settings.{defaults, sentinel_addr_from_ordinal}
use redis_sentinel_reconcile.Settings.Ordinal.{sentinel_addr_from_ordinal_lem}
use redis_sentinel_reconcile.Writer.{format_addr}
use redis_sentinel_reconcile.Writer.Laws.{format_addr_lem}
use redis_sentinel_reconcile.Examples.{sentinel}
use redis_sentinel_reconcile.Examples.Cli.{parsers, getenv, quiet}

abbrev initial : Values
initial = defaults parsers getenv

-- A store in which the address of the Sentinel was given.
abbrev addressed : Values → Values
addressed v = record v {
  lists =
      put_at addrs_name AddrsFlag.sentinel_addrs
        (multi_flag_set sentinel (v.lists AddrsFlag.sentinel_addrs)) v.lists;
}

parses_quiet : (v : Values) → parse_flags parsers quiet v ≡ ok (addressed v)
unfolding parse_flags step_arg read_arg assign without_value set_value formal all_flags flag_name
    text_name bool_name duration_name int_name addrs_name codes text_eq cut_first
parses_quiet v = refl

unnamed : mentions (flag_name (text TextFlag.master_name)) quiet ≡ false
unfolding mentions read_arg flag_name text_name bool_name codes text_eq cut_first
unnamed = refl

-- Stores in which the master's name was given.
abbrev renamed : Text → Values → Values
renamed name v = record v { texts = put_at text_name TextFlag.master_name name v.texts }

-- The name is given twice.
abbrev first_name : List (Flag × Text)
first_name = (text TextFlag.master_name, codes "main1") ∷ []

abbrev last_values : Values
last_values = addressed (renamed (codes "main2") (renamed (codes "main1") initial))

parses_named :
    parse_flags parsers
      (map spell first_name ++ (spell (text TextFlag.master_name, codes "main2") ∷ quiet))
      initial
    ≡ ok last_values
unfolding parse_flags step_arg read_arg assign without_value set_value formal all_flags flag_name
    text_name bool_name duration_name int_name addrs_name codes text_eq cut_first
parses_named = refl

parse_flags-last_example :
    (u : Values) × (set_all parsers first_name initial ≡ some u)
    × (last_values.texts TextFlag.master_name ≡ codes "main2")
parse_flags-last_example =
    parse_flags-last parsers (text TextFlag.master_name) (codes "main2") quiet last_values
      first_name initial unnamed parses_named

sentinel_addr_from_ordinal_lem_example :
    sentinel_addr_from_ordinal
      (codes "rsr-x" ++ b'-' ∷ codes "12")
      (codes "valkey-")
      (codes ".svc:26379")
    ≡ codes "valkey-" ++ codes "12" ++ codes ".svc:26379"
sentinel_addr_from_ordinal_lem_example =
    sentinel_addr_from_ordinal_lem (codes "rsr-x") (codes "12") (codes "valkey-")
      (codes ".svc:26379") (unfold codes in refl) (unfold codes in refl) (unfold codes in refl)

format_addr_lem_example :
    ((n : ℕ)
      → n < 10 ^ 16
      → format_addr (codes "db") (pos n) ≡ some (sprint_addr (codes "db") (pos n)))
    × ((n : ℕ) → 10 ^ 16 ≤ n → format_addr (codes "db") (pos n) ≡ none)
    × ((n : ℕ) → format_addr (codes "db") (negsuc n) ≡ some (codes "db" ++ b':' ∷ []))
format_addr_lem_example = format_addr_lem (codes "db")
