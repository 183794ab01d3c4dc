-- ===== src/Examples.antt =====
-- A small deployment to evaluate the model on: Sentinel advertises a dead master, and another node
-- is the writable one. The world is the value of the lease key.
mod Parts
mod Runs
mod Clock
mod Replies
mod Files
mod Diverge
mod Cli
mod Arguments
use redis_sentinel_reconcile.Prelude.{
  ℕ, Bool, true, false, not, List, [], ◌∷◌, Option, none, some, if◌then◌else◌,
}
use redis_sentinel_reconcile.Prelude.Int.{ℤ, pos}
use redis_sentinel_reconcile.Text.{Text, codes, text_eq, has_byte}
use redis_sentinel_reconcile.Net.{Resolver}
use redis_sentinel_reconcile.Oracle.{NodeResult}
use redis_sentinel_reconcile.Redisconn.{Options}
use redis_sentinel_reconcile.Commands.{Reply, ok, err, str}
use redis_sentinel_reconcile.Metrics.{new_metrics}
use redis_sentinel_reconcile.Reconcile.Config.{Config}
use redis_sentinel_reconcile.World.{Env, St}

abbrev dead : Text
dead = codes "10.0.0.1:6379"

abbrev live : Text
live = codes "10.0.0.2:6379"

abbrev other : Text
other = codes "10.0.0.3:6379"

abbrev sentinel : Text
sentinel = codes "10.0.0.9:26379"

-- Every host is an address, of version 6 if it has a colon.
abbrev plain_resolver : Resolver
plain_resolver = record {
  parse_ip = λ h. true;
  lookup_ip = λ h. record { is_v4 = not (has_byte b':' h); string = h } ∷ [];
}

abbrev set_nx_of : Text → Option Text → Reply Bool × Option Text
set_nx_of v none = (ok true, some v)
set_nx_of v (some t) = (ok false, some t)

abbrev get_of : Option Text → Reply Text × Option Text
get_of none = (err (codes "redis: nil"), none)
get_of (some t) = (ok t, some t)

abbrev env : Env (Option Text)
env = record {
  resolver = plain_resolver;
  do_string_slice = λ o a w. (ok (codes "10.0.0.1" ∷ codes "6379" ∷ []), w);
  do_slice = λ o a w. (ok [], w);
  do_err = λ o a w. (none, w);
  redis_role = λ o w. (
    (if text_eq o.addr live
        then ok (str (codes "master") ∷ [])
        else err (codes "connection refused")),
    w,
  );
  redis_info = λ o t w. (ok [], w);
  redis_set = λ o k at ttl w. (none, w);
  redis_set_nx = λ o k v ttl w. set_nx_of v w;
  redis_get = λ o k w. get_of w;
  redis_expire = λ o k ttl w. (none, w);
  now = λ w. (1000, w);
  unix = λ w. (1, w);
  sleep = λ d w. w;
  hostname = λ w. (codes "host", w);
  getpid = λ w. (pos 7, w);
  range_order = λ l w. (l, w);
}

abbrev cfg : Config
cfg = record {
  sentinel_addrs = sentinel ∷ other ∷ [];
  master_name = codes "mymaster";
  interval = pos 10;
  apply = true;
  once = false;
  redis_password = [];
  sentinel_password = [];
  redis_addrs = live ∷ [];
  local_sentinel = true;
  quorum = pos 2;
  require_local_for_apply = true;
  allow_global_apply = false;
  heal_cooldown = pos 60;
  min_reachable_redis = pos 0;
  skip_on_failover_in_progress = true;
  metrics_addr = [];
  heal_lease = true;
  heal_lease_ttl = pos 30;
  equal_epoch_escalate = false;
  lease_holder = codes "me";
  redis_username = [];
  sentinel_username = [];
  sentinel_redis_username = [];
  sentinel_redis_password = [];
  tls = none;
  tls_ca_file = [];
  tls_server_name = [];
}

abbrev start : St (Option Text)
start = record {
  world = none;
  last_heal = none;
  metrics = new_metrics (codes "mymaster") true;
  journal = [];
}

abbrev master_at : Text → Text → NodeResult
master_at addr id = record {
  addr = addr;
  role = codes "master";
  writable = true;
  master_host = [];
  master_port = pos 0;
  run_id = id;
  err = none;
}

-- The live master under two addresses, by its run id.
abbrev one_master : List NodeResult
one_master = master_at live (codes "a") ∷ master_at other (codes "a") ∷ []

abbrev two_masters : List NodeResult
two_masters = master_at live (codes "a") ∷ master_at other (codes "b") ∷ []
