-- ===== src/Metrics/Defs.antt =====
-- internal/reconcile/metrics.go: the names and help texts of the metrics.
use redis_sentinel_reconcile.Prelude.{String, List, [], ◌∷◌}
use redis_sentinel_reconcile.Text.{Text, codes}

-- counterDef and gaugeDef, which have the same fields.
pub record MetricDef : Type 0 where
  pub name : Text
  pub help : Text

abbrev pub define : String → String → MetricDef
define name help = record { name = codes name; help = codes help }

unfoldable pub counter_defs : List MetricDef
counter_defs =
    define "ticks_total" "Reconcile ticks executed."
    ∷ define "noop_total"
        "Ticks where local Sentinel ads already matched the Redis that accepts writes."
    ∷ define "diverge_total"
        "Ticks where local Sentinel ads disagreed with the Redis that accepts writes."
    ∷ define "would_heal_total" "Dry-run ticks that would have healed Sentinel ads."
    ∷ define "heal_attempt_total" "Apply heal attempts started."
    ∷ define "heal_ok_total" "Apply heals that verified ads and a write on the writable Redis."
    ∷ define "heal_fail_total" "Apply heals that did not verify."
    ∷ define "heal_lease_acquired_total" "Heal leases acquired on the writable Redis before apply."
    ∷ define "apply_refused_total" "Apply heals refused by a safety guard."
    ∷ define "alert_no_redis_total" "Ticks with no Redis nodes to probe."
    ∷ define "alert_no_writable_total" "Ticks with zero writable Redis masters on REDIS_ADDRS."
    ∷ define "alert_dual_master_total" "Ticks with two or more writable Redis masters."
    ∷ define "alert_equal_epoch_trap_total"
        "Ticks that detected equal config-epoch and disagreeing ads."
    ∷ define "alert_equal_epoch_escalate_total"
        "Ticks that refused MONITOR under equal-epoch when FAILOVER was unsafe for a reason other than a stale live-replica advertisement."
    ∷ []

unfoldable pub gauge_defs : List MetricDef
gauge_defs =
    define "diverged"
      "1 if the last tick saw Sentinel ads disagree with the Redis that accepts writes, else 0."
    ∷ define "would_heal" "1 if the last tick would have healed (dry-run), else 0."
    ∷ define "writable_masters" "Writable Redis masters seen on the last tick (from REDIS_ADDRS)."
    ∷ []
