-- ===== src/Examples/Cli.antt =====
-- The theorems on the command line, the environment and the whole program, at a small process.
use redis_sentinel_reconcile.Prelude.{
  true, false, List, [], ◌∷◌, ◌++◌, none, some, ◌≡◌, ◌≢◌, ◌⊎◌, refl, if◌then◌else◌,
}
use redis_sentinel_reconcile.Prelude.Int.{ℤ, pos}
use redis_sentinel_reconcile.Prelude.Result.{ok, err}
use redis_sentinel_reconcile.Text.{
  Text, codes, text_eq, to_upper, to_lower, has_prefix, contains, cut_first, cut_last,
  replace_all_byte, trim_space, trim_left, trim_right, strip_prefix, trim_prefix, split_byte,
}
use redis_sentinel_reconcile.Sentinel.{Fields, field, field?}
use redis_sentinel_reconcile.Redisconn.{Files, build_tls, seconds}
use redis_sentinel_reconcile.EnvFile.{
  Getenv, unreadable, load_env_file, layer_getenv, or_text, peek_config_path, peek_args,
}
use redis_sentinel_reconcile.EnvVars.{
  bare_name, env_names, first_env, env_or, env_str, bool_or, env_bool, env_apply, env_duration,
  env_int,
}
use redis_sentinel_reconcile.Flags.{
  BoolFlag, switch, text_name, bool_name, flag_name, Parsers, put_at, set_value, parse_flags,
  duration_name, int_name, addrs_name, all_flags, formal, multi_flag_set, parse_bool, read_arg,
  step_arg, assign, without_value, TextFlag, text,
}
use redis_sentinel_reconcile.Settings.{
  Process, parse_config, parse_with, file_fields, read_flags, check_values, defaults,
  resolve_sentinel_addrs, resolve_redis_addrs, or_set, of_tls, tls_settings_of, config_of,
  sentinel_addr_from_ordinal, text_of_env, bool_of_env, text_default, text_extra, bool_default,
  duration_default, int_default,
}
use redis_sentinel_reconcile.Flags.Laws.{mentions}
use redis_sentinel_reconcile.EnvVars.Laws.{env_str-layer_getenv}
use redis_sentinel_reconcile.EnvVars.Spelling.{Spelled, canonical_file_key-flag_name}
use redis_sentinel_reconcile.Settings.Sources.{parse_config-sources}
use redis_sentinel_reconcile.Settings.Laws.{IsUsable, parse_config-IsUsable}
use redis_sentinel_reconcile.Reconcile.Config.{Config}
use redis_sentinel_reconcile.Reconcile.Safety.{changes_other, is_heal_step}
use redis_sentinel_reconcile.Reconcile.Safety.Select.{select}
use redis_sentinel_reconcile.Start.{Build, refused, ran, wants_version, main}
use redis_sentinel_reconcile.Start.Laws.{main-one_sentinel, main-dry_run}
use redis_sentinel_reconcile.Start.Ends.{main-refusal, main-file_error}
use redis_sentinel_reconcile.Examples.{env, cfg, start, sentinel, live}

-- A store of nothing but --config's file name.
abbrev no_files : Files
no_files = record {
  read_file = λ path. none;
  has_pem_certificates = λ pem. false;
  key_pair_loads = λ cert key. false;
}

-- Parsers that take no value.
abbrev pub parsers : Parsers
parsers = record { parse_duration = λ v. none; parse_int = λ v. none; is_float = λ v. false }

abbrev pub getenv : Getenv
getenv k =
    if text_eq k (codes "REDIS_ADDRS")
    then live
    else if text_eq k (codes "RSR_MASTER_NAME")
    then codes "main"
    else []

abbrev process : Process
process = record { getenv = getenv; files = no_files; parsers = parsers }

abbrev build : Build
build = record { version = codes "dev"; commit = [] }

abbrev args : List Text
args = codes "--apply" ∷ (codes "--sentinel-addr=" ++ sentinel) ∷ []

-- The config of those arguments.
abbrev parsed : Config
parsed = record cfg {
  sentinel_addrs = sentinel ∷ [];
  master_name = codes "main";
  interval = seconds 30;
  heal_cooldown = seconds 900;
  heal_lease_ttl = pos 0;
  equal_epoch_escalate = true;
  lease_holder = [];
}

parses : parse_config args process ≡ ok parsed
unfolding parse_config parse_with file_fields read_flags check_values parse_flags defaults
    peek_config_path peek_args layer_getenv resolve_sentinel_addrs resolve_redis_addrs or_set of_tls
    tls_settings_of build_tls config_of sentinel_addr_from_ordinal text_of_env bool_of_env env_apply
    env_bool env_str env_or env_int env_duration env_names first_env bare_name bool_or step_arg
    read_arg assign without_value set_value formal all_flags flag_name text_name bool_name
    duration_name int_name addrs_name put_at multi_flag_set parse_bool text_default text_extra
    bool_default duration_default int_default field field? codes text_eq to_upper to_lower cut_first
    cut_last contains has_prefix replace_all_byte trim_space trim_left trim_right strip_prefix
    trim_prefix split_byte
parses = refl

abbrev waits : List ℤ
waits = pos 10 ∷ []

parse_config-IsUsable_example : IsUsable parsed
parse_config-IsUsable_example = parse_config-IsUsable args process parsed parses

main-one_sentinel_example :
    select (changes_other sentinel) (main env build process args waits start).1.journal
    ≡ select (changes_other sentinel) []
main-one_sentinel_example =
    main-one_sentinel env build process start args parsed sentinel [] waits parses refl refl

-- The same without --apply.
abbrev pub quiet : List Text
quiet = (codes "--sentinel-addr=" ++ sentinel) ∷ []

no_path : peek_config_path quiet getenv ≡ some []
unfolding peek_config_path peek_args codes text_eq strip_prefix trim_space trim_left trim_right
no_path = refl

not_asked : (env_apply (layer_getenv getenv []) ≡ false) × (mentions (codes "apply") quiet ≡ false)
unfolding env_apply env_bool env_names bare_name first_env layer_getenv field field? mentions
    read_arg codes text_eq to_upper to_lower replace_all_byte contains has_prefix cut_first
    trim_space trim_left trim_right strip_prefix trim_prefix
not_asked = (refl, refl)

main-dry_run_example :
    select is_heal_step (main env build process quiet waits start).1.journal
    ≡ select is_heal_step []
main-dry_run_example =
    main-dry_run env build process start quiet [] [] waits no_path (unfold file_fields in refl)
      not_asked.0 not_asked.1

main-refusal_example :
    (((main env build process [] waits start).1 ≡ start)
      × ((main env build process [] waits start).0 ≢ ran))
    ⊎ ((c : Config) × (parse_config [] process ≡ ok c) × IsUsable c)
main-refusal_example = main-refusal env build process start [] waits

abbrev with_file : List Text
with_file = codes "--config" ∷ codes "/etc/rsr" ∷ []

no_file :
    (wants_version with_file ≡ false)
    × (peek_config_path with_file getenv ≡ some (codes "/etc/rsr"))
    × (load_env_file no_files.read_file (codes "/etc/rsr") ≡ err unreadable)
unfolding wants_version peek_config_path peek_args load_env_file codes text_eq strip_prefix
no_file = (refl, refl, refl)

main-file_error_example : main env build process with_file waits start ≡ (refused 2, start)
main-file_error_example =
    main-file_error env build process start with_file (codes "/etc/rsr") unreadable waits no_file.0
      no_file.1 (unfold codes in refl) no_file.2

-- The file's value stands before that of the environment's RSR_MASTER_NAME.
abbrev file : Fields
file = (codes "MASTER_NAME", codes "other") ∷ []

own_name :
    (has_prefix (bare_name (codes "master-name")) (codes "RSR_") ≡ false)
    × (field (codes "RSR_" ++ bare_name (codes "master-name")) file ≡ [])
unfolding bare_name has_prefix field field? text_eq codes to_upper replace_all_byte
own_name = (refl, refl)

env_str-layer_getenv_example :
    env_str (layer_getenv getenv file) (codes "mymaster") (codes "master-name") []
    ≡ or_text (trim_space (getenv (bare_name (codes "master-name")))) (
        or_text (trim_space (field (bare_name (codes "master-name")) file)) (
          or_text
            (trim_space (getenv (codes "RSR_" ++ bare_name (codes "master-name"))))
            (codes "mymaster")))
env_str-layer_getenv_example =
    env_str-layer_getenv getenv file (codes "mymaster") (codes "master-name") own_name.0 own_name.1

file_wins :
    env_str (layer_getenv getenv file) (codes "mymaster") (codes "master-name") [] ≡ codes "other"
unfolding env_str env_or env_names first_env layer_getenv bare_name has_prefix field field? text_eq
    codes to_upper replace_all_byte trim_space trim_left trim_right trim_prefix strip_prefix
file_wins = refl

canonical_file_key-flag_name_example : Spelled (flag_name (switch BoolFlag.local_sentinel))
canonical_file_key-flag_name_example = canonical_file_key-flag_name (switch BoolFlag.local_sentinel)

-- No argument names the master, so its name is that of RSR_MASTER_NAME.
unnamed_master :
    (peek_config_path args getenv ≡ some [])
    × (mentions (flag_name (text TextFlag.master_name)) args ≡ false)
unfolding peek_config_path peek_args strip_prefix trim_space trim_left trim_right mentions read_arg
    flag_name text_name codes text_eq cut_first
unnamed_master = (refl, refl)

parse_config-sources_example :
    parsed.master_name
    ≡ env_str (layer_getenv getenv []) (codes "mymaster") (codes "master-name") []
parse_config-sources_example =
    parse_config-sources args process [] [] parsed (text TextFlag.master_name) unnamed_master.0
      (unfold file_fields in refl) parses unnamed_master.1
