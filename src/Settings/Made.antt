-- ===== src/Settings/Made.antt =====
-- What a config of parseConfig is made of.
use redis_sentinel_reconcile.Prelude.{◌||◌, List, Option, some, ◌≡◌, refl}
use redis_sentinel_reconcile.Prelude.Result.{
  Result, ok, err, ◌>>=◌, Holds, Holds-ok, Holds-err, Holds-guard,
}
use redis_sentinel_reconcile.Text.{Text}
use redis_sentinel_reconcile.Sentinel.{Fields}
use redis_sentinel_reconcile.EnvFile.{Getenv, layer_getenv, peek_config_path}
use redis_sentinel_reconcile.Flags.{FlagError, Values, parse_flags}
use redis_sentinel_reconcile.Redisconn.{TlsConfig, TlsResult, build_tls}
use redis_sentinel_reconcile.Messages.{required_addr_err}
use redis_sentinel_reconcile.Reconcile.Config.{Config}
use redis_sentinel_reconcile.Settings.{
  Process, ConfigError, flags, is_nil, resolve_sentinel_addrs, resolve_redis_addrs, tls_settings_of,
  defaults, config_of, file_fields, read_flags, of_tls, check_values, parse_with, parse_config,
}

module _ (p : Process) (args : List Text) (getenv : Getenv) where
  -- A config of the values that the arguments leave.
  pub record IsMade (cfg : Config) : Type 0 where
    pub values : Values
    pub tls : Option TlsConfig
    pub parsed : parse_flags p.parsers args (defaults p.parsers getenv) ≡ ok values
    pub secured : build_tls p.files (tls_settings_of values) ≡ TlsResult.config tls
    pub made :
        cfg
        ≡ config_of
            (resolve_sentinel_addrs getenv values)
            (resolve_redis_addrs getenv values)
            values
            tls

  of_tls-IsMade :
      (v : Values) (r : TlsResult)
      → parse_flags p.parsers args (defaults p.parsers getenv) ≡ ok v
      → build_tls p.files (tls_settings_of v) ≡ r
      → Holds IsMade (of_tls (resolve_sentinel_addrs getenv v) (resolve_redis_addrs getenv v) v r)
  unfolding of_tls
  of_tls-IsMade v (TlsResult.failed e) h b = Holds-err _
  of_tls-IsMade v (TlsResult.config c) h b =
      Holds-ok _ _ refl (record { values = v; tls = c; parsed = h; secured = b; made = refl })

  check_values-IsMade :
      (path : Text) (v : Values)
      → parse_flags p.parsers args (defaults p.parsers getenv) ≡ ok v
      → Holds IsMade (check_values p getenv path v)
  unfolding check_values
  check_values-IsMade path v h =
      let ss = resolve_sentinel_addrs getenv v in
      let rs = resolve_redis_addrs getenv v in
      Holds-guard (is_nil ss || is_nil rs)
        (ConfigError.required_addr (required_addr_err path (is_nil ss) (is_nil rs))) _
        λ given.
          Holds-guard _ ConfigError.global_apply (of_tls ss rs v _)
            λ local. of_tls-IsMade v (build_tls p.files (tls_settings_of v)) h refl

  after_flags :
      (path : Text) (r : Result FlagError Values)
      → parse_flags p.parsers args (defaults p.parsers getenv) ≡ r
      → Holds IsMade
          ((elim r [ err e ↦ err (flags e) | ok v ↦ ok v ]) >>= λ v. check_values p getenv path v)
  after_flags path (err e) h = Holds-err _
  after_flags path (ok v) h = check_values-IsMade path v h

pub parse_config-IsMade :
    (args : List Text) (p : Process) (path : Text) (file : Fields)
    → peek_config_path args p.getenv ≡ some path
    → file_fields p path ≡ ok file
    → Holds (IsMade p args (layer_getenv p.getenv file)) (parse_config args p)
unfolding parse_config parse_with read_flags
parse_config-IsMade args p path file peeked loaded =
    let getenv = layer_getenv p.getenv file in
    rw (parse_config, peeked, parse_with, loaded)
      (after_flags p args getenv path (parse_flags p.parsers args (defaults p.parsers getenv)) refl)
