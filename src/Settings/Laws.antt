-- ===== src/Settings/Laws.antt =====
-- What a config that parseConfig gives satisfies, and when it gives one.
use redis_sentinel_reconcile.Prelude.{
  false, not, ◌&&◌, ◌||◌, List, Option, none, some, ◌≡◌, refl, or_false,
}
use redis_sentinel_reconcile.Prelude.Result.{
  ok, err, Holds, Holds-ok, Holds-err, Holds-guard, Holds-bind,
}
use redis_sentinel_reconcile.Text.{Text}
use redis_sentinel_reconcile.EnvFile.{Getenv, peek_config_path}
use redis_sentinel_reconcile.Flags.{BoolFlag, Values}
use redis_sentinel_reconcile.Redisconn.{TlsResult}
use redis_sentinel_reconcile.Messages.{required_addr_err}
use redis_sentinel_reconcile.Reconcile.Config.{Config}
use redis_sentinel_reconcile.Settings.{
  Process, ConfigError, is_nil, resolve_sentinel_addrs, resolve_redis_addrs, file_fields,
  read_flags, of_tls, check_values, parse_with, parse_config,
}

-- A config that a Reconciler can start from.
pub record IsUsable (cfg : Config) : Type 0 where
  pub sentinel : is_nil cfg.sentinel_addrs ≡ false
  pub redis : is_nil cfg.redis_addrs ≡ false
  pub local : (cfg.apply && not cfg.local_sentinel && not cfg.allow_global_apply) ≡ false
  pub required : cfg.require_local_for_apply ≡ not cfg.allow_global_apply

of_tls-IsUsable :
    (ss rs : List Text) (v : Values) (r : TlsResult)
    → is_nil ss ≡ false
    → is_nil rs ≡ false
    → (v.bools BoolFlag.apply
        && not (v.bools BoolFlag.local_sentinel)
        && not (v.bools BoolFlag.allow_global_apply))
      ≡ false
    → Holds IsUsable (of_tls ss rs v r)
unfolding of_tls
of_tls-IsUsable ss rs v (TlsResult.failed e) hs hr local = Holds-err _
of_tls-IsUsable ss rs v (TlsResult.config c) hs hr local =
    Holds-ok _ _ refl (record { sentinel = hs; redis = hr; local = local; required = refl })

check_values-IsUsable :
    (p : Process) (getenv : Getenv) (path : Text) (v : Values)
    → Holds IsUsable (check_values p getenv path v)
unfolding check_values
check_values-IsUsable p getenv path v =
    let ss = resolve_sentinel_addrs getenv v in
    let rs = resolve_redis_addrs getenv v in
    Holds-guard (is_nil ss || is_nil rs)
      (ConfigError.required_addr (required_addr_err path (is_nil ss) (is_nil rs))) _
      λ given. Holds-guard _ ConfigError.global_apply (of_tls ss rs v _) λ local.
        let (hs, hr) = or_false (is_nil ss) (is_nil rs) given in
        of_tls-IsUsable ss rs v _ hs hr local

parse_with-IsUsable :
    (p : Process) (args : List Text) (path : Text) → Holds IsUsable (parse_with p args path)
unfolding parse_with
parse_with-IsUsable p args path =
    Holds-bind (file_fields p path) _
      λ file. Holds-bind (read_flags p _ args) _ λ v. check_values-IsUsable p _ path v

on_path-IsUsable :
    (p : Process) (args : List Text) (o : Option Text)
    → Holds IsUsable
        (elim o [ none ↦ err ConfigError.config_needs_path | some path ↦ parse_with p args path ])
on_path-IsUsable p args none = Holds-err _
on_path-IsUsable p args (some path) = parse_with-IsUsable p args path

-- A config of parseConfig lists a Sentinel and a Redis address, does not apply without
-- --local-sentinel unless --allow-global-apply is set, and requires a local Sentinel exactly without
-- --allow-global-apply.
pub parse_config-IsUsable :
    (args : List Text) (p : Process) (cfg : Config) → parse_config args p ≡ ok cfg → IsUsable cfg
unfolding parse_config
parse_config-IsUsable args p cfg = (on_path-IsUsable p args (peek_config_path args p.getenv)).at cfg
