-- ===== src/Settings.antt =====
-- parseConfig of cmd/reconciler/config.go: from the command line, the environment and the config file
-- to the Config of a Reconciler.
pub mod Laws
pub mod Made
pub mod Sources
pub mod Dry
pub mod Ordinal
use redis_sentinel_reconcile.Prelude.{
  ℕ, ◌*◌, Bool, true, false, not, ◌&&◌, ◌||◌, List, [], ◌∷◌, ◌++◌, all, Option, none, some,
  if◌then◌else◌,
}
use redis_sentinel_reconcile.Prelude.Int.{ℤ, pos}
use redis_sentinel_reconcile.Prelude.Result.{Result, ok, err, ◌>>=◌}
use redis_sentinel_reconcile.Text.{Text, codes, is_empty, cut_last}
use redis_sentinel_reconcile.Text.Decimal.{is_digit}
use redis_sentinel_reconcile.Sentinel.{Fields}
use redis_sentinel_reconcile.EnvFile.{
  Getenv, FileError, load_env_file, layer_getenv, peek_config_path,
}
use redis_sentinel_reconcile.EnvVars.{env_str, env_bool, env_apply, env_duration, env_int}
use redis_sentinel_reconcile.Flags.{
  TextFlag, BoolFlag, DurationFlag, IntFlag, AddrsFlag, text_name, bool_name, duration_name,
  int_name, addrs_name, Parsers, Values, multi_flag_set, FlagError, parse_flags,
}
use redis_sentinel_reconcile.Redisconn.{
  TlsConfig, TlsSettings, TlsError, Files, TlsResult, build_tls, seconds,
}
use redis_sentinel_reconcile.Messages.{required_addr_err}
use redis_sentinel_reconcile.Reconcile.Config.{Config}

-- What the process has: its environment, the files, and the parsers of strconv and time.
pub record Process : Type 0 where
  pub getenv : Getenv
  pub files : Files
  pub parsers : Parsers

abbrev minutes : ℕ → ℤ
minutes n = seconds (n * 60)

-- The literal default of a flag of text.
unfoldable pub text_default : TextFlag → Text
text_default TextFlag.master_name = codes "mymaster"
text_default _ = []

-- The environment names of a flag beside the two of envNames.
unfoldable pub text_extra : TextFlag → List Text
text_extra TextFlag.tls_cert = codes "TLS_CERT_FILE" ∷ []
text_extra TextFlag.tls_key = codes "TLS_KEY_FILE" ∷ []
text_extra _ = []

unfoldable pub bool_default : BoolFlag → Bool
bool_default BoolFlag.local_sentinel = true
bool_default BoolFlag.skip_failover = true
bool_default BoolFlag.heal_lease = true
bool_default BoolFlag.equal_epoch_esc = true
bool_default _ = false

unfoldable pub duration_default : DurationFlag → ℤ
duration_default DurationFlag.interval = seconds 30
duration_default DurationFlag.heal_cooldown = minutes 15
duration_default DurationFlag.heal_lease_ttl = pos 0

unfoldable pub int_default : IntFlag → ℤ
int_default IntFlag.quorum = pos 2
int_default IntFlag.min_reachable = pos 0

-- The value of a flag of text before the command line is read.
unfoldable pub text_of_env : Getenv → TextFlag → Text
unfolding text_default text_extra
text_of_env getenv TextFlag.config = []
text_of_env getenv f = env_str getenv (text_default f) (text_name f) (text_extra f)

unfoldable pub bool_of_env : Getenv → BoolFlag → Bool
unfolding bool_default
bool_of_env getenv BoolFlag.apply = env_apply getenv
bool_of_env getenv f = env_bool getenv (bool_default f) (bool_name f) []

unfoldable pub defaults : Parsers → Getenv → Values
unfolding text_of_env bool_of_env duration_default int_default
defaults p getenv = record {
  texts = text_of_env getenv;
  bools = bool_of_env getenv;
  durations = λ f. env_duration p.parse_duration getenv (duration_default f) (duration_name f);
  ints = λ f. env_int getenv (int_default f) (int_name f);
  lists = λ f. [];
}

-- What stands behind the last '-', where it is a number.
ordinal : Option (Text × Text) → Option Text
ordinal none = none
ordinal (some (name, [])) = none
ordinal (some (name, c ∷ ord)) = if all is_digit (c ∷ ord) then some (c ∷ ord) else none

unfoldable pub sentinel_addr_from_ordinal : Text → Text → Text → Text
unfolding ordinal
sentinel_addr_from_ordinal pod_name prefix suffix =
    if is_empty prefix || is_empty pod_name
    then []
    else elim (ordinal (cut_last b'-' pod_name)) [ none ↦ [] | some ord ↦ prefix ++ ord ++ suffix ]

-- What parseConfig returns in place of a config.
pub data ConfigError : Type 0 where
  config_needs_path : ConfigError
  config_file : FileError → ConfigError
  flags : FlagError → ConfigError
  required_addr : Text → ConfigError
  global_apply : ConfigError
  tls_settings : TlsError → ConfigError

abbrev is_nil : List Text → Bool
is_nil [] = true
is_nil (a ∷ addrs) = false

-- A list of addresses, or the one that a text adds to an empty list.
unfoldable pub or_set : Text → List Text → List Text
or_set value m = if is_nil m then multi_flag_set value m else m

unfoldable pub resolve_sentinel_addrs : Getenv → Values → List Text
unfolding or_set
resolve_sentinel_addrs getenv v =
    or_set
      (sentinel_addr_from_ordinal (getenv (codes "POD_NAME")) (v.texts TextFlag.from_prefix)
        (v.texts TextFlag.from_suffix))
      (or_set (env_str getenv [] (addrs_name AddrsFlag.sentinel_addrs) [])
        (v.lists AddrsFlag.sentinel_addrs))

unfoldable pub resolve_redis_addrs : Getenv → Values → List Text
unfolding or_set
resolve_redis_addrs getenv v =
    or_set (env_str getenv [] (addrs_name AddrsFlag.redis_addrs) []) (v.lists AddrsFlag.redis_addrs)

unfoldable pub tls_settings_of : Values → TlsSettings
tls_settings_of v = record {
  enabled = v.bools BoolFlag.tls_on;
  skip_verify = v.bools BoolFlag.tls_skip;
  ca_file = v.texts TextFlag.tls_ca;
  cert_file = v.texts TextFlag.tls_cert;
  key_file = v.texts TextFlag.tls_key;
}

unfoldable pub config_of : List Text → List Text → Values → Option TlsConfig → Config
config_of sentinel_addrs redis_addrs v tls_cfg = record {
  sentinel_addrs = sentinel_addrs;
  master_name = v.texts TextFlag.master_name;
  interval = v.durations DurationFlag.interval;
  apply = v.bools BoolFlag.apply;
  once = v.bools BoolFlag.once;
  redis_password = v.texts TextFlag.redis_password;
  sentinel_password = v.texts TextFlag.sentinel_password;
  redis_addrs = redis_addrs;
  local_sentinel = v.bools BoolFlag.local_sentinel;
  quorum = v.ints IntFlag.quorum;
  require_local_for_apply = not (v.bools BoolFlag.allow_global_apply);
  allow_global_apply = v.bools BoolFlag.allow_global_apply;
  heal_cooldown = v.durations DurationFlag.heal_cooldown;
  min_reachable_redis = v.ints IntFlag.min_reachable;
  skip_on_failover_in_progress = v.bools BoolFlag.skip_failover;
  metrics_addr = v.texts TextFlag.metrics_addr;
  heal_lease = v.bools BoolFlag.heal_lease;
  heal_lease_ttl = v.durations DurationFlag.heal_lease_ttl;
  equal_epoch_escalate = v.bools BoolFlag.equal_epoch_esc;
  lease_holder = v.texts TextFlag.lease_holder;
  redis_username = v.texts TextFlag.redis_username;
  sentinel_username = v.texts TextFlag.sentinel_username;
  sentinel_redis_username = v.texts TextFlag.sentinel_redis_username;
  sentinel_redis_password = v.texts TextFlag.sentinel_redis_password;
  tls = tls_cfg;
  tls_ca_file = v.texts TextFlag.tls_ca;
  tls_server_name = v.texts TextFlag.tls_server;
}

-- The config file's fields; no path is no file.
unfoldable pub file_fields : Process → Text → Result ConfigError Fields
file_fields p config_path =
    if is_empty config_path then ok [] else elim (load_env_file p.files.read_file config_path) [
      | err e ↦ err (config_file e)
      | ok file ↦ ok file
    ]

unfoldable pub read_flags : Process → Getenv → List Text → Result ConfigError Values
unfolding defaults
read_flags p getenv args = elim (parse_flags p.parsers args (defaults p.parsers getenv)) [
  | err e ↦ err (flags e)
  | ok v ↦ ok v
]

-- What parseConfig makes of BuildTLS's answer.
unfoldable pub of_tls : List Text → List Text → Values → TlsResult → Result ConfigError Config
unfolding config_of
of_tls sentinel_addrs redis_addrs v (TlsResult.failed e) = err (tls_settings e)
of_tls sentinel_addrs redis_addrs v (TlsResult.config tls_cfg) =
    ok (config_of sentinel_addrs redis_addrs v tls_cfg)

-- What follows fs.Parse.
unfoldable pub check_values : Process → Getenv → Text → Values → Result ConfigError Config
unfolding resolve_sentinel_addrs resolve_redis_addrs required_addr_err tls_settings_of of_tls
check_values p getenv config_path v =
    let sentinel_addrs = resolve_sentinel_addrs getenv v in
    let redis_addrs = resolve_redis_addrs getenv v in
    if is_nil sentinel_addrs || is_nil redis_addrs
    then err
        (required_addr (required_addr_err config_path (is_nil sentinel_addrs) (is_nil redis_addrs)))
    else if v.bools BoolFlag.apply
        && not (v.bools BoolFlag.local_sentinel)
        && not (v.bools BoolFlag.allow_global_apply)
    then err global_apply
    else of_tls sentinel_addrs redis_addrs v (build_tls p.files (tls_settings_of v))

-- What follows the choice of a config file.
unfoldable pub parse_with : Process → List Text → Text → Result ConfigError Config
unfolding file_fields read_flags check_values
parse_with p args config_path = file_fields p config_path >>= λ file.
    let getenv = layer_getenv p.getenv file in
    read_flags p getenv args >>= λ v. check_values p getenv config_path v

unfoldable pub parse_config : List Text → Process → Result ConfigError Config
unfolding parse_with
parse_config args p = elim (peek_config_path args p.getenv) [
  | none ↦ err config_needs_path
  | some config_path ↦ parse_with p args config_path
]
