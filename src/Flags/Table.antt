-- ===== src/Flags/Table.antt =====
-- The flags that parseConfig (cmd/reconciler/config.go) defines, and their names.
use redis_sentinel_reconcile.Prelude.{List, [], ◌∷◌, Option, none, some, if◌then◌else◌}
use redis_sentinel_reconcile.Text.{Text, codes, text_eq}

-- The variables that parseConfig defines, by the type of their flag.
pub data TextFlag : Type 0 where
  config master_name redis_password sentinel_password redis_username sentinel_username
        sentinel_redis_username sentinel_redis_password metrics_addr lease_holder tls_ca tls_server
        tls_cert tls_key from_prefix from_suffix :
      TextFlag

pub data BoolFlag : Type 0 where
  apply once local_sentinel allow_global_apply skip_failover heal_lease equal_epoch_esc tls_on
        tls_skip :
      BoolFlag

pub data DurationFlag : Type 0 where
  interval heal_cooldown heal_lease_ttl : DurationFlag

pub data IntFlag : Type 0 where
  quorum min_reachable : IntFlag

pub data AddrsFlag : Type 0 where
  sentinel_addrs redis_addrs : AddrsFlag

-- The float64 of --interval-jitter is checked and not kept.
pub data Flag : Type 0 where
  text : TextFlag → Flag
  switch : BoolFlag → Flag
  duration : DurationFlag → Flag
  int : IntFlag → Flag
  jitter : Flag
  addrs : AddrsFlag → Flag

unfoldable pub text_name : TextFlag → Text
text_name TextFlag.config = codes "config"
text_name TextFlag.master_name = codes "master-name"
text_name TextFlag.redis_password = codes "redis-password"
text_name TextFlag.sentinel_password = codes "sentinel-password"
text_name TextFlag.redis_username = codes "redis-username"
text_name TextFlag.sentinel_username = codes "sentinel-username"
text_name TextFlag.sentinel_redis_username = codes "sentinel-redis-username"
text_name TextFlag.sentinel_redis_password = codes "sentinel-redis-password"
text_name TextFlag.metrics_addr = codes "metrics-addr"
text_name TextFlag.lease_holder = codes "lease-holder"
text_name TextFlag.tls_ca = codes "tls-ca-file"
text_name TextFlag.tls_server = codes "tls-server-name"
text_name TextFlag.tls_cert = codes "tls-cert"
text_name TextFlag.tls_key = codes "tls-key"
text_name TextFlag.from_prefix = codes "sentinel-from-ordinal-prefix"
text_name TextFlag.from_suffix = codes "sentinel-from-ordinal-suffix"

unfoldable pub bool_name : BoolFlag → Text
bool_name BoolFlag.apply = codes "apply"
bool_name BoolFlag.once = codes "once"
bool_name BoolFlag.local_sentinel = codes "local-sentinel"
bool_name BoolFlag.allow_global_apply = codes "allow-global-apply"
bool_name BoolFlag.skip_failover = codes "skip-on-failover-in-progress"
bool_name BoolFlag.heal_lease = codes "heal-lease"
bool_name BoolFlag.equal_epoch_esc = codes "equal-epoch-escalate"
bool_name BoolFlag.tls_on = codes "tls"
bool_name BoolFlag.tls_skip = codes "tls-skip-verify"

unfoldable pub duration_name : DurationFlag → Text
duration_name DurationFlag.interval = codes "interval"
duration_name DurationFlag.heal_cooldown = codes "heal-cooldown"
duration_name DurationFlag.heal_lease_ttl = codes "heal-lease-ttl"

unfoldable pub int_name : IntFlag → Text
int_name IntFlag.quorum = codes "quorum"
int_name IntFlag.min_reachable = codes "min-reachable-redis"

unfoldable pub addrs_name : AddrsFlag → Text
addrs_name AddrsFlag.sentinel_addrs = codes "sentinel-addr"
addrs_name AddrsFlag.redis_addrs = codes "redis-addrs"

unfoldable pub flag_name : Flag → Text
unfolding text_name bool_name duration_name int_name addrs_name
flag_name (text f) = text_name f
flag_name (switch f) = bool_name f
flag_name (duration f) = duration_name f
flag_name (int f) = int_name f
flag_name jitter = codes "interval-jitter"
flag_name (addrs f) = addrs_name f

-- The flags in the order of their definitions.
unfoldable pub all_flags : List Flag
all_flags =
    text TextFlag.config
    ∷ text TextFlag.master_name
    ∷ duration DurationFlag.interval
    ∷ switch BoolFlag.apply
    ∷ switch BoolFlag.once
    ∷ text TextFlag.redis_password
    ∷ text TextFlag.sentinel_password
    ∷ text TextFlag.redis_username
    ∷ text TextFlag.sentinel_username
    ∷ text TextFlag.sentinel_redis_username
    ∷ text TextFlag.sentinel_redis_password
    ∷ switch BoolFlag.local_sentinel
    ∷ int IntFlag.quorum
    ∷ duration DurationFlag.heal_cooldown
    ∷ switch BoolFlag.allow_global_apply
    ∷ int IntFlag.min_reachable
    ∷ switch BoolFlag.skip_failover
    ∷ jitter
    ∷ text TextFlag.metrics_addr
    ∷ switch BoolFlag.heal_lease
    ∷ duration DurationFlag.heal_lease_ttl
    ∷ switch BoolFlag.equal_epoch_esc
    ∷ text TextFlag.lease_holder
    ∷ switch BoolFlag.tls_on
    ∷ switch BoolFlag.tls_skip
    ∷ text TextFlag.tls_ca
    ∷ text TextFlag.tls_server
    ∷ text TextFlag.tls_cert
    ∷ text TextFlag.tls_key
    ∷ text TextFlag.from_prefix
    ∷ text TextFlag.from_suffix
    ∷ addrs AddrsFlag.sentinel_addrs
    ∷ addrs AddrsFlag.redis_addrs
    ∷ []

unfoldable pub find_flag : Text → List Flag → Option Flag
unfolding flag_name
find_flag name [] = none
find_flag name (f ∷ flags) = if text_eq (flag_name f) name then some f else find_flag name flags

-- The flag of a name, in the map `formal` of a FlagSet.
unfoldable pub formal : Text → Option Flag
unfolding find_flag all_flags
formal name = find_flag name all_flags
