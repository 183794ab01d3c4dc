-- ===== src/Examples/Diverge.antt =====
-- A difference that comes to a heal, at the deployment of Examples.antt.
use mathlib.Core.List.{Memᴰ}
use redis_sentinel_reconcile.Prelude.{true, false, any, some, ◌≡◌, inr, refl}
use redis_sentinel_reconcile.Prelude.Int.{pos}
use redis_sentinel_reconcile.Text.{
  codes, text_eq, to_lower, has_byte, cut_last, equal_fold, contains, has_prefix, has_suffix,
}
use redis_sentinel_reconcile.Text.Decimal.{
  itoa, print_nat, digits_onto, atoi, read_nat, read_digits,
}
use redis_sentinel_reconcile.Net.{
  same_redis_endpoint, resolve_key, join_host_port, preferred_ip, endpoint_ip_port, split_host_port,
  sprint_addr, addr_host,
}
use redis_sentinel_reconcile.Oracle.{classify_writable, identity_key, is_writable_master}
use redis_sentinel_reconcile.Commands.{monitor, ok, wire}
use redis_sentinel_reconcile.HealPlan.Laws.{at_oracle, writable_at_ad}
use redis_sentinel_reconcile.Sentinel.{
  Client, new_client, get_info, kv_slice_to_map, field, field?, put_field,
}
use redis_sentinel_reconcile.Reconcile.Config.{sentinel_dial, redis_dial}
use redis_sentinel_reconcile.Reconcile.Tick.{check_diverge}
use redis_sentinel_reconcile.Reconcile.Tick.Monitors.{guards_at, lease_at, check_diverge-monitors}
use redis_sentinel_reconcile.World.{
  sentinel_call, ◌>>=◌, pure, send, ask, count, get_last_heal, note, on_metrics,
}
use redis_sentinel_reconcile.Reconcile.Guards.{
  preflight_apply, requires_local, is_failover_in_progress, check_cooldown, check_reachable,
  count_reachable_seeds, few_reachable, min_reachable, refuse_apply,
}
use redis_sentinel_reconcile.Reconcile.Nodes.{reply_flags}
use redis_sentinel_reconcile.Lease.{
  acquire_heal_lease, after_set_nx, check_holder, lease_key, lease_options, lease_ttl,
  resolve_holder,
}
use redis_sentinel_reconcile.Metrics.{inc, bump, counter_key}
use redis_sentinel_reconcile.Redisconn.{client, clone_for_addr, timeout_or}
use redis_sentinel_reconcile.Examples.{env, cfg, start, live, sentinel, plain_resolver, one_master}

abbrev asked : Client
asked = new_client plain_resolver (sentinel_dial cfg sentinel)

live_endpoint : endpoint_ip_port plain_resolver live ≡ some (codes "10.0.0.2", pos 6379)
unfolding endpoint_ip_port split_host_port codes cut_last has_byte atoi read_nat read_digits
live_endpoint = refl

one_writable : (classify_writable plain_resolver one_master).1 ≡ 1
unfolding classify_writable identity_key is_writable_master codes text_eq
one_writable = refl

-- What the ads of the dead node are to the oracle and to the nodes.
differs :
    (same_redis_endpoint plain_resolver (sprint_addr (codes "10.0.0.1") (pos 6379)) live ≡ false)
    × (any (at_oracle plain_resolver (sprint_addr (codes "10.0.0.1") (pos 6379)) live) one_master
        ≡ true)
    × (any
          (writable_at_ad plain_resolver (sprint_addr (codes "10.0.0.1") (pos 6379)) live)
          one_master
        ≡ false)
unfolding sprint_addr itoa print_nat digits_onto same_redis_endpoint equal_fold resolve_key
    split_host_port join_host_port preferred_ip to_lower has_byte text_eq codes cut_last
differs = (refl, refl, refl)

passes : (guards_at env cfg asked live one_master start).0 ≡ true
unfolding preflight_apply requires_local is_failover_in_progress check_cooldown check_reachable
    count_reachable_seeds few_reachable min_reachable refuse_apply reply_flags get_info
    kv_slice_to_map field field? put_field ◌>>=◌ pure send ask count get_last_heal note on_metrics
    acquire_heal_lease after_set_nx check_holder lease_key lease_options lease_ttl resolve_holder
    inc bump counter_key wire client clone_for_addr timeout_or addr_host new_client sentinel_dial
    contains to_lower text_eq codes same_redis_endpoint resolve_key split_host_port join_host_port
    preferred_ip cut_last equal_fold has_byte has_prefix itoa print_nat digits_onto has_suffix
    redis_dial
passes = refl

granted :
    (lease_at env cfg asked live (guards_at env cfg asked live one_master start).1).0 ≡ ok true
unfolding preflight_apply requires_local is_failover_in_progress check_cooldown check_reachable
    count_reachable_seeds few_reachable min_reachable refuse_apply reply_flags get_info
    kv_slice_to_map field field? put_field ◌>>=◌ pure send ask count get_last_heal note on_metrics
    acquire_heal_lease after_set_nx check_holder lease_key lease_options lease_ttl resolve_holder
    inc bump counter_key wire client clone_for_addr timeout_or addr_host new_client sentinel_dial
    contains to_lower text_eq codes same_redis_endpoint resolve_key split_host_port join_host_port
    preferred_ip cut_last equal_fold has_byte has_prefix itoa print_nat digits_onto has_suffix
    redis_dial
granted = refl

check_diverge-monitors_example :
    Memᴰ
      (sentinel_call asked.addr (monitor cfg.master_name (codes "10.0.0.2") (pos 6379) cfg.quorum))
      (check_diverge env cfg live one_master false
        (asked, ok (codes "10.0.0.1", pos 6379))
        start).1.journal
check_diverge-monitors_example =
    check_diverge-monitors env cfg asked live (codes "10.0.0.1") (pos 6379) one_master false
      (codes "10.0.0.2") (pos 6379) start refl differs.0 passes (inr granted) one_writable differs.1
      (inr differs.2) live_endpoint
