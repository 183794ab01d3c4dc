-- ===== src/Reconcile/Tick.antt =====
-- tick and Run (internal/reconcile/reconcile.go). A view is kept beside its client, so that an index
-- into both slices is an element of one list. Closing the connections is left out.
pub mod Steady
pub mod Reads
pub mod Heals
pub mod Run
pub mod Monitors
use redis_sentinel_reconcile.Prelude.{
  ℕ, zero, suc, ◌+◌, ◌*◌, Bool, true, false, not, ◌&&◌, ◌||◌, List, [], ◌∷◌, ◌++◌, leb, ltb, ◌==◌,
  length, any, map, Option, none, some, if◌then◌else◌,
}
use redis_sentinel_reconcile.Prelude.Int.{ℤ, pos}
use redis_sentinel_reconcile.Text.{Text, codes, text_eq, is_empty, equal_fold}
use redis_sentinel_reconcile.Text.Decimal.{itoa}
use redis_sentinel_reconcile.Net.{Resolver, same_redis_endpoint, sprint_addr, join_host_port}
use redis_sentinel_reconcile.Oracle.{NodeResult, Err, classify_writable}
use redis_sentinel_reconcile.Redisconn.{Dial, timeout_or}
use redis_sentinel_reconcile.Metrics.{
  reset_tick_gauges, set_writable_masters, note_diverged, note_would_heal,
}
use redis_sentinel_reconcile.Commands.{Reply, ok, err}
use redis_sentinel_reconcile.Sentinel.{
  Client, Fields, new_client, field, redis_addr_from_info, get_master, get_info, get_replicas,
}
use redis_sentinel_reconcile.Probe.{probe_dial}
use redis_sentinel_reconcile.Epoch.{EqualEpochReport, detect_equal_epoch_trap}
use redis_sentinel_reconcile.Lease.{acquire_heal_lease}
use redis_sentinel_reconcile.Reconcile.Config.{Config, redis_dial, sentinel_dial}
use redis_sentinel_reconcile.Reconcile.Guards.{refuse_apply, preflight_apply}
use redis_sentinel_reconcile.Reconcile.Heal.{heal_api, pause}
use redis_sentinel_reconcile.World.{
  Env, heal_lease_error, heal_lease_held, no_redis_nodes_discovered, no_writable_master,
  dual_master, equal_epoch_trap, alert, M, pure, ◌>>=◌, ◌>>◌, ask, note, on_metrics, count,
}
use redis_sentinel_reconcile.Reconcile.Nodes.{
  View, add_addrs, view_addrs, info_addrs, reply_addrs, replies_addrs, reply_flags, is_seed,
  oracle_nodes, probe_dial_of,
}

module _ {W : Type 0} (env : Env W) (cfg : Config) where
  unfoldable pub query_views : List Client → M W (List View)
  query_views [] = pure []
  query_views (c ∷ cs) = do
    reply ← get_master env c cfg.master_name
    views ← query_views cs
    pure ((c, reply) ∷ views)

  unfoldable pub discover : List Client → List Text → M W (List Text)
  unfolding reply_addrs replies_addrs
  discover [] set = pure set
  discover (c ∷ cs) set = do
    info ← get_info env c cfg.master_name
    replicas ← get_replicas env c cfg.master_name
    discover cs (add_addrs (replies_addrs replicas) (add_addrs (reply_addrs info) set))

  unfoldable pub probe_nodes : List Text → M W (List NodeResult)
  unfolding probe_dial_of
  probe_nodes [] = pure []
  probe_nodes (addr ∷ addrs) = do
    n ← probe_dial env addr (probe_dial_of env.resolver cfg addr)
    ns ← probe_nodes addrs
    pure (n ∷ ns)

  -- The lease was answered.
  unfoldable pub after_lease : M W Unit → Reply Bool → M W Unit
  after_lease heal (err e) = refuse_apply heal_lease_error
  after_lease heal (ok false) = refuse_apply heal_lease_held
  after_lease heal (ok true) = do count (codes "heal_lease_acquired"); heal

  unfoldable pub with_lease : Text → M W Unit → M W Unit
  unfolding after_lease
  with_lease master_key heal =
      if cfg.heal_lease
      then (do
        taken ←
            acquire_heal_lease env master_key cfg.master_name cfg.lease_holder
              (timeout_or cfg.heal_cooldown cfg.heal_lease_ttl) (redis_dial cfg)
        after_lease heal taken)
      else heal

  -- The ads differ from the oracle, and --apply is given.
  unfoldable pub apply_heal : Client → Text → Text → List NodeResult → Bool → M W Unit
  unfolding reply_flags
  apply_heal c advertised master_key nodes trap = do
    info ← get_info env c cfg.master_name
    allowed ← preflight_apply env cfg (reply_flags info) nodes
    if allowed
        then with_lease master_key
            (heal_api env cfg c advertised master_key nodes (reply_flags info) trap)
        else pure tt

  pub would_heal : M W Unit
  would_heal = do count (codes "would_heal"); on_metrics note_would_heal

  unfoldable pub diverge : Client → Text → Text → List NodeResult → Bool → M W Unit
  unfolding would_heal
  diverge c advertised master_key nodes trap = do
    count (codes "diverge")
    on_metrics note_diverged
    if cfg.apply then apply_heal c advertised master_key nodes trap else would_heal

  unfoldable pub check_diverge : Text → List NodeResult → Bool → View → M W Unit
  check_diverge master_key nodes trap (c, err e) = pure tt
  check_diverge master_key nodes trap (c, ok (host, port)) =
      if same_redis_endpoint env.resolver (sprint_addr host port) master_key
      then count (codes "noop")
      else diverge c (sprint_addr host port) master_key nodes trap

  unfoldable pub check_all : Text → List NodeResult → Bool → List View → M W Unit
  check_all master_key nodes trap [] = pure tt
  check_all master_key nodes trap (v ∷ vs) = do
    check_diverge master_key nodes trap v
    check_all master_key nodes trap vs

  unfoldable pub check_first : Text → List NodeResult → Bool → List View → M W Unit
  check_first master_key nodes trap [] = pure tt
  check_first master_key nodes trap (v ∷ vs) = check_diverge master_key nodes trap v

  pub alert_trap : EqualEpochReport → M W Unit
  alert_trap rep =
      if rep.trap
      then (do note (alert equal_epoch_trap); count (codes "alert_equal_epoch_trap"))
      else pure tt

  -- One writable master was found.
  unfoldable pub on_oracle : List Client → List View → List NodeResult → Text → M W Unit
  unfolding alert_trap
  on_oracle clients views nodes master_key = do
    rep ← detect_equal_epoch_trap env cfg.master_name clients (sentinel_dial cfg [])
    alert_trap rep
    if not cfg.local_sentinel && ltb 1 (length clients)
        then check_all master_key nodes rep.trap views
        else check_first master_key nodes rep.trap views

  unfoldable pub on_one : List Client → List View → List NodeResult → Option NodeResult → M W Unit
  on_one clients views nodes none = pure tt
  on_one clients views nodes (some w) = on_oracle clients views nodes w.addr

  -- The switch on the count. With a count of one there is a writable node.
  unfoldable pub on_count :
      List Client → List View → List NodeResult → Option NodeResult × ℕ → M W Unit
  on_count clients views nodes (writable, n) =
      if n == 0
      then (do note (alert no_writable_master); count (codes "alert_no_writable"))
      else if leb 2 n
      then (do note (alert dual_master); count (codes "alert_dual_master"))
      else on_one clients views nodes writable

  unfoldable pub classify : List Client → List View → List NodeResult → M W Unit
  classify clients views nodes = do
    let found = classify_writable env.resolver (oracle_nodes env.resolver cfg nodes)
    on_metrics (set_writable_masters found.1)
    on_count clients views nodes found

  unfoldable pub probe_and_classify : List Client → List View → List Text → M W Unit
  probe_and_classify clients views [] = do
    note (alert no_redis_nodes_discovered)
    count (codes "alert_no_redis")
  probe_and_classify clients views (a ∷ addrs) = do
    order ← ask (env.range_order (a ∷ addrs))
    nodes ← probe_nodes order
    classify clients views nodes

  unfoldable pub observe : List Client → M W Unit
  observe clients = do
    views ← query_views clients
    addrs ← discover clients (add_addrs (view_addrs views) (add_addrs cfg.redis_addrs []))
    probe_and_classify clients views addrs

  unfoldable pub clients_of : List Text → List Client
  clients_of [] = []
  clients_of (a ∷ addrs) = new_client env.resolver (sentinel_dial cfg a) ∷ clients_of addrs

  unfoldable pub on_clients : List Client → M W (Option Err)
  on_clients [] = pure (some (codes "no sentinel addresses configured"))
  on_clients (c ∷ cs) = do observe (c ∷ cs); pure none

  unfoldable pub tick : M W (Option Err)
  tick = do
    count (codes "ticks")
    on_metrics reset_tick_gauges
    on_clients (clients_of cfg.sentinel_addrs)

  -- The ticks behind the first one, each after a wait of the timer, until the context is done.
  unfoldable pub run_waits : List ℤ → M W Unit
  run_waits [] = pure tt
  run_waits (wait ∷ waits) = do pause env cfg wait; tick; run_waits waits

  -- Run, given the waits that nextInterval draws before the context is done.
  unfoldable pub run : List ℤ → M W Unit
  run waits = do tick; if cfg.once then pure tt else run_waits waits
