-- ===== src/Settings/Sources.antt =====
-- Where the settings of a config of parseConfig come from.
use redis_sentinel_reconcile.Prelude.{
  false, true, not, List, [], ◌∷◌, some, ◌≡◌, refl, sym, ap, ◌∙◌,
}
use redis_sentinel_reconcile.Prelude.Int.{pos}
use redis_sentinel_reconcile.Prelude.Result.{ok}
use redis_sentinel_reconcile.Text.{Text, codes}
use redis_sentinel_reconcile.Sentinel.{Fields}
use redis_sentinel_reconcile.EnvFile.{Getenv, layer_getenv, peek_config_path}
use redis_sentinel_reconcile.EnvVars.{env_str, env_bool, env_apply, env_duration, env_int}
use redis_sentinel_reconcile.Flags.{
  TextFlag, BoolFlag, DurationFlag, IntFlag, AddrsFlag, Flag, text, switch, duration, int, jitter,
  addrs, text_name, bool_name, duration_name, int_name, addrs_name, flag_name, multi_flag_set,
}
use redis_sentinel_reconcile.Flags.Laws.{mentions, Same, parse_flags-Same}
use redis_sentinel_reconcile.Redisconn.{TlsSettings, TlsResult, build_tls}
use redis_sentinel_reconcile.Reconcile.Config.{Config}
use redis_sentinel_reconcile.Settings.{
  Process, resolve_sentinel_addrs, resolve_redis_addrs, tls_settings_of, defaults, config_of,
  file_fields, parse_config, or_set, text_of_env, bool_of_env, text_default, text_extra,
  bool_default, duration_default, int_default,
}
use redis_sentinel_reconcile.Settings.Made.{IsMade, parse_config-IsMade}

-- The TLS config of `cfg` comes from settings that pass a test.
abbrev FromTls : Process → Config → (TlsSettings → Type 0) → Type 0
FromTls p cfg P = (s : TlsSettings) × (build_tls p.files s ≡ TlsResult.config cfg.tls) × P s

-- What of a config comes from the environment `g` where no argument names the flag.
abbrev pub FromText : Process → Getenv → Config → TextFlag → Type 0
FromText p g cfg TextFlag.master_name =
    cfg.master_name ≡ env_str g (codes "mymaster") (codes "master-name") []
FromText p g cfg TextFlag.redis_password =
    cfg.redis_password ≡ env_str g [] (codes "redis-password") []
FromText p g cfg TextFlag.sentinel_password =
    cfg.sentinel_password ≡ env_str g [] (codes "sentinel-password") []
FromText p g cfg TextFlag.redis_username =
    cfg.redis_username ≡ env_str g [] (codes "redis-username") []
FromText p g cfg TextFlag.sentinel_username =
    cfg.sentinel_username ≡ env_str g [] (codes "sentinel-username") []
FromText p g cfg TextFlag.sentinel_redis_username =
    cfg.sentinel_redis_username ≡ env_str g [] (codes "sentinel-redis-username") []
FromText p g cfg TextFlag.sentinel_redis_password =
    cfg.sentinel_redis_password ≡ env_str g [] (codes "sentinel-redis-password") []
FromText p g cfg TextFlag.metrics_addr = cfg.metrics_addr ≡ env_str g [] (codes "metrics-addr") []
FromText p g cfg TextFlag.lease_holder = cfg.lease_holder ≡ env_str g [] (codes "lease-holder") []
FromText p g cfg TextFlag.tls_ca = cfg.tls_ca_file ≡ env_str g [] (codes "tls-ca-file") []
FromText p g cfg TextFlag.tls_server =
    cfg.tls_server_name ≡ env_str g [] (codes "tls-server-name") []
FromText p g cfg TextFlag.tls_cert =
    FromTls p cfg λ s. s.cert_file ≡ env_str g [] (codes "tls-cert") (codes "TLS_CERT_FILE" ∷ [])
FromText p g cfg TextFlag.tls_key =
    FromTls p cfg λ s. s.key_file ≡ env_str g [] (codes "tls-key") (codes "TLS_KEY_FILE" ∷ [])
FromText p g cfg TextFlag.config = Unit
FromText p g cfg TextFlag.from_prefix = Unit
FromText p g cfg TextFlag.from_suffix = Unit

abbrev pub FromBool : Process → Getenv → Config → BoolFlag → Type 0
FromBool p g cfg BoolFlag.apply = cfg.apply ≡ env_apply g
FromBool p g cfg BoolFlag.once = cfg.once ≡ env_bool g false (codes "once") []
FromBool p g cfg BoolFlag.local_sentinel =
    cfg.local_sentinel ≡ env_bool g true (codes "local-sentinel") []
FromBool p g cfg BoolFlag.skip_failover =
    cfg.skip_on_failover_in_progress ≡ env_bool g true (codes "skip-on-failover-in-progress") []
FromBool p g cfg BoolFlag.heal_lease = cfg.heal_lease ≡ env_bool g true (codes "heal-lease") []
FromBool p g cfg BoolFlag.equal_epoch_esc =
    cfg.equal_epoch_escalate ≡ env_bool g true (codes "equal-epoch-escalate") []
FromBool p g cfg BoolFlag.allow_global_apply =
    (cfg.allow_global_apply ≡ env_bool g false (codes "allow-global-apply") [])
    × (cfg.require_local_for_apply ≡ not (env_bool g false (codes "allow-global-apply") []))
FromBool p g cfg BoolFlag.tls_on = FromTls p cfg λ s. s.enabled ≡ env_bool g false (codes "tls") []
FromBool p g cfg BoolFlag.tls_skip =
    FromTls p cfg λ s. s.skip_verify ≡ env_bool g false (codes "tls-skip-verify") []

abbrev pub FromDuration : Process → Getenv → Config → DurationFlag → Type 0
FromDuration p g cfg DurationFlag.interval =
    cfg.interval ≡ env_duration p.parsers.parse_duration g (pos 30000000000) (codes "interval")
FromDuration p g cfg DurationFlag.heal_cooldown =
    cfg.heal_cooldown
    ≡ env_duration p.parsers.parse_duration g (pos 900000000000) (codes "heal-cooldown")
FromDuration p g cfg DurationFlag.heal_lease_ttl =
    cfg.heal_lease_ttl ≡ env_duration p.parsers.parse_duration g (pos 0) (codes "heal-lease-ttl")

abbrev pub FromInt : Getenv → Config → IntFlag → Type 0
FromInt g cfg IntFlag.quorum = cfg.quorum ≡ env_int g (pos 2) (codes "quorum")
FromInt g cfg IntFlag.min_reachable =
    cfg.min_reachable_redis ≡ env_int g (pos 0) (codes "min-reachable-redis")

-- Nothing is asked of the config file's name, the jitter and what makes the list of the Sentinels.
abbrev pub FromEnv : Process → Getenv → Config → Flag → Type 0
FromEnv p g cfg (text f) = FromText p g cfg f
FromEnv p g cfg (switch f) = FromBool p g cfg f
FromEnv p g cfg (duration f) = FromDuration p g cfg f
FromEnv p g cfg (int f) = FromInt g cfg f
FromEnv p g cfg (addrs AddrsFlag.redis_addrs) =
    cfg.redis_addrs ≡ multi_flag_set (env_str g [] (codes "redis-addrs") []) []
FromEnv p g cfg (addrs AddrsFlag.sentinel_addrs) = Unit
FromEnv p g cfg jitter = Unit

module _ (p : Process) (args : List Text) (g : Getenv) (cfg : Config)
    (m : IsMade p args g cfg) where
  -- A text of the config is that of the environment where its flag keeps its value.
  made_by :
      {A : Type 0} (of : Config → A) (x : A)
      → of (
          config_of
            (resolve_sentinel_addrs g m.values)
            (resolve_redis_addrs g m.values)
            m.values
            m.tls)
        ≡ x
      → of cfg ≡ x
  made_by of x h = ap of m.made ∙ h

  tls_by : (P : TlsSettings → Type 0) → P (tls_settings_of m.values) → FromTls p cfg P
  tls_by P h = (
    tls_settings_of m.values,
    m.secured ∙ ap TlsResult.config (sym (made_by (λ c. c.tls) m.tls (unfold config_of in refl))),
    h,
  )

  from_text : (f : TextFlag) → Same (text f) (defaults p.parsers g) m.values → FromText p g cfg f
  unfolding Same defaults config_of text_of_env bool_of_env text_default text_extra bool_default
      duration_default int_default text_name bool_name duration_name int_name tls_settings_of
  from_text TextFlag.master_name h = made_by (λ c. c.master_name) _ (sym h)
  from_text TextFlag.redis_password h = made_by (λ c. c.redis_password) _ (sym h)
  from_text TextFlag.sentinel_password h = made_by (λ c. c.sentinel_password) _ (sym h)
  from_text TextFlag.redis_username h = made_by (λ c. c.redis_username) _ (sym h)
  from_text TextFlag.sentinel_username h = made_by (λ c. c.sentinel_username) _ (sym h)
  from_text TextFlag.sentinel_redis_username h = made_by (λ c. c.sentinel_redis_username) _ (sym h)
  from_text TextFlag.sentinel_redis_password h = made_by (λ c. c.sentinel_redis_password) _ (sym h)
  from_text TextFlag.metrics_addr h = made_by (λ c. c.metrics_addr) _ (sym h)
  from_text TextFlag.lease_holder h = made_by (λ c. c.lease_holder) _ (sym h)
  from_text TextFlag.tls_ca h = made_by (λ c. c.tls_ca_file) _ (sym h)
  from_text TextFlag.tls_server h = made_by (λ c. c.tls_server_name) _ (sym h)
  from_text TextFlag.tls_cert h = tls_by _ (sym h)
  from_text TextFlag.tls_key h = tls_by _ (sym h)
  from_text TextFlag.config h = tt
  from_text TextFlag.from_prefix h = tt
  from_text TextFlag.from_suffix h = tt

  from_bool : (f : BoolFlag) → Same (switch f) (defaults p.parsers g) m.values → FromBool p g cfg f
  unfolding Same defaults config_of text_of_env bool_of_env text_default text_extra bool_default
      duration_default int_default text_name bool_name duration_name int_name tls_settings_of
  from_bool BoolFlag.apply h = made_by (λ c. c.apply) _ (sym h)
  from_bool BoolFlag.once h = made_by (λ c. c.once) _ (sym h)
  from_bool BoolFlag.local_sentinel h = made_by (λ c. c.local_sentinel) _ (sym h)
  from_bool BoolFlag.skip_failover h = made_by (λ c. c.skip_on_failover_in_progress) _ (sym h)
  from_bool BoolFlag.heal_lease h = made_by (λ c. c.heal_lease) _ (sym h)
  from_bool BoolFlag.equal_epoch_esc h = made_by (λ c. c.equal_epoch_escalate) _ (sym h)
  from_bool BoolFlag.allow_global_apply h = (
    made_by (λ c. c.allow_global_apply) _ (sym h),
    made_by (λ c. c.require_local_for_apply) _ (ap not (sym h)),
  )
  from_bool BoolFlag.tls_on h = tls_by _ (sym h)
  from_bool BoolFlag.tls_skip h = tls_by _ (sym h)

  from_duration :
      (f : DurationFlag)
      → Same (duration f) (defaults p.parsers g) m.values
      → FromDuration p g cfg f
  unfolding Same defaults config_of text_of_env bool_of_env text_default text_extra bool_default
      duration_default int_default text_name bool_name duration_name int_name tls_settings_of
  from_duration DurationFlag.interval h = made_by (λ c. c.interval) _ (sym h)
  from_duration DurationFlag.heal_cooldown h = made_by (λ c. c.heal_cooldown) _ (sym h)
  from_duration DurationFlag.heal_lease_ttl h = made_by (λ c. c.heal_lease_ttl) _ (sym h)

  from_int : (f : IntFlag) → Same (int f) (defaults p.parsers g) m.values → FromInt g cfg f
  unfolding Same defaults config_of text_of_env bool_of_env text_default text_extra bool_default
      duration_default int_default text_name bool_name duration_name int_name tls_settings_of
  from_int IntFlag.quorum h = made_by (λ c. c.quorum) _ (sym h)
  from_int IntFlag.min_reachable h = made_by (λ c. c.min_reachable_redis) _ (sym h)

  from_redis :
      Same (addrs AddrsFlag.redis_addrs) (defaults p.parsers g) m.values
      → FromEnv p g cfg (addrs AddrsFlag.redis_addrs)
  unfolding Same defaults config_of resolve_redis_addrs or_set addrs_name
  from_redis h = made_by (λ c. c.redis_addrs) _ (rw (sym h) refl)

  from_env : (f : Flag) → Same f (defaults p.parsers g) m.values → FromEnv p g cfg f
  from_env (text f) h = from_text f h
  from_env (switch f) h = from_bool f h
  from_env (duration f) h = from_duration f h
  from_env (int f) h = from_int f h
  from_env jitter h = tt
  from_env (addrs AddrsFlag.redis_addrs) h = from_redis h
  from_env (addrs AddrsFlag.sentinel_addrs) h = tt

-- Where no argument names a flag, what a config of parseConfig has of the flag is what the flag's
-- variables give in the environment over the config file, or else the flag's default; a flag of TLS
-- is so read in the settings that the config's TLS config is built of. Of the flags for the config
-- file, the jitter, the list of Sentinels and the two parts of an ordinal name, nothing is said.
pub parse_config-sources :
    (args : List Text) (p : Process) (path : Text) (file : Fields) (cfg : Config) (f : Flag)
    → peek_config_path args p.getenv ≡ some path
    → file_fields p path ≡ ok file
    → parse_config args p ≡ ok cfg
    → mentions (flag_name f) args ≡ false
    → FromEnv p (layer_getenv p.getenv file) cfg f
parse_config-sources args p path file cfg f peeked loaded parsed unnamed =
    let g = layer_getenv p.getenv file in
    let m = (parse_config-IsMade args p path file peeked loaded).at cfg parsed in
    from_env p args g cfg m f
      (parse_flags-Same p.parsers f args (defaults p.parsers g) m.values unnamed m.parsed)
