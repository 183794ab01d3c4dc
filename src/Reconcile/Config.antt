-- ===== src/Reconcile/Config.antt =====
-- Config, New and the dial settings of internal/reconcile/reconcile.go. A Reconciler is its `Config`
-- beside the state of World.antt (lastHeal and metrics).
use redis_sentinel_reconcile.Prelude.{Bool, true, not, List, [], if◌then◌else◌, Option}
use redis_sentinel_reconcile.Prelude.Int.{ℤ, pos, is_positive}
use redis_sentinel_reconcile.Text.{Text}
use redis_sentinel_reconcile.Redisconn.{TlsConfig, Dial}

-- IntervalJitter is left out: it is a float64 that only nextInterval uses, which is not modelled.
pub record Config : Type 0 where
  pub sentinel_addrs : List Text
  pub master_name : Text
  pub interval : ℤ
  pub apply : Bool
  pub once : Bool
  pub redis_password : Text
  pub sentinel_password : Text
  pub redis_addrs : List Text
  pub local_sentinel : Bool
  pub quorum : ℤ
  pub require_local_for_apply : Bool
  pub allow_global_apply : Bool
  pub heal_cooldown : ℤ
  pub min_reachable_redis : ℤ
  pub skip_on_failover_in_progress : Bool
  pub metrics_addr : Text
  pub heal_lease : Bool
  pub heal_lease_ttl : ℤ
  pub equal_epoch_escalate : Bool
  pub lease_holder : Text
  pub redis_username : Text
  pub sentinel_username : Text
  pub sentinel_redis_username : Text
  pub sentinel_redis_password : Text
  pub tls : Option TlsConfig
  pub tls_ca_file : Text
  pub tls_server_name : Text

-- The settings that New corrects.
unfoldable pub new : Config → Config
new cfg = record cfg {
  quorum = if is_positive cfg.quorum then cfg.quorum else pos 2;
  require_local_for_apply =
      if not cfg.allow_global_apply then true else cfg.require_local_for_apply;
}

unfoldable pub redis_dial : Config → Dial
redis_dial cfg = record {
  addr = [];
  username = cfg.redis_username;
  password = cfg.redis_password;
  tls = cfg.tls;
  tls_server_name = cfg.tls_server_name;
  timeout = pos 0;
}

unfoldable pub sentinel_dial : Config → Text → Dial
sentinel_dial cfg addr = record {
  addr = addr;
  username = cfg.sentinel_username;
  password = cfg.sentinel_password;
  tls = cfg.tls;
  tls_server_name = cfg.tls_server_name;
  timeout = pos 0;
}
