-- ===== src/HealPlan.antt =====
-- internal/reconcile/heal_plan.go and failoverPromoteSafe of reconcile.go: what an apply will do.
-- A reason string is a constructor of `Reason`; the strings of the source differ from one another.
pub mod Laws
use redis_sentinel_reconcile.Prelude.{
  ℕ, zero, suc, ◌+◌, Bool, true, false, not, ◌&&◌, ◌||◌, List, [], ◌∷◌, Option, none, some, leb,
  if◌then◌else◌,
}
use redis_sentinel_reconcile.Text.{Text, codes, text_eq, is_empty, contains}
use redis_sentinel_reconcile.Net.{Resolver, same_redis_endpoint}
use redis_sentinel_reconcile.Oracle.{NodeResult, is_none}

-- `unnamed` is a reason that heal_plan.go has no name for.
pub data Reason : Type 0 where
  live_non_oracle live_writable_not_oracle oracle_not_in_topology : Reason
  equal_epoch_escalate no_writable dual_master advertised_unreachable : Reason
  failover_may_promote_non_oracle : Reason
  unnamed : Text → Reason

pub data HealAction : Type 0 where
  failover monitor refuse : HealAction

pub record ApplyHealPlan : Type 0 where
  pub action : HealAction
  pub reason : Reason

abbrev plan : HealAction → Reason → ApplyHealPlan
plan a why = record { action = a; reason = why }

-- The switch on failoverWhy; `otherwise` is the plan behind it.
plan_reason : Reason → ApplyHealPlan → ApplyHealPlan
plan_reason live_writable_not_oracle otherwise = plan refuse live_writable_not_oracle
plan_reason oracle_not_in_topology otherwise = plan refuse oracle_not_in_topology
plan_reason live_non_oracle otherwise = plan monitor live_non_oracle
plan_reason advertised_unreachable otherwise = plan monitor advertised_unreachable
plan_reason _ otherwise = otherwise

unfoldable pub plan_apply_heal : ℕ → Bool → Reason → Bool → Bool → ApplyHealPlan
unfolding plan_reason
plan_apply_heal writable_count failover_safe failover_why equal_epoch_trap escalate =
    if leb writable_count 0
    then plan refuse no_writable
    else if leb 2 writable_count
    then plan refuse dual_master
    else if failover_safe
    then plan failover failover_why
    else plan_reason failover_why (
        if equal_epoch_trap && escalate
        then plan refuse equal_epoch_escalate
        else plan monitor failover_why)

-- The three flags of the loop of failoverPromoteSafe.
pub record Seen : Type 0 where
  pub adv_reachable_master : Bool
  pub advertised_live_non_oracle : Bool
  pub oracle_is_replica_or_master : Bool

-- What one node adds to the flags.
unfoldable pub see : Resolver → Text → Text → NodeResult → Seen → Seen
see r advertised master_key n s =
    if not (is_none n.err)
    then s
    else let is_master = text_eq n.role (codes "master") in
      let is_slave = text_eq n.role (codes "slave") in
      let here = same_redis_endpoint r n.addr advertised in
      record {
        adv_reachable_master = s.adv_reachable_master || (here && is_master && n.writable);
        advertised_live_non_oracle =
            s.advertised_live_non_oracle
            || (here && is_slave && not (same_redis_endpoint r advertised master_key));
        oracle_is_replica_or_master =
            s.oracle_is_replica_or_master
            || (same_redis_endpoint r n.addr master_key && (is_master || is_slave));
      }

unfoldable pub see_all : Resolver → Text → Text → List NodeResult → Seen → Seen
see_all r advertised master_key [] s = s
see_all r advertised master_key (n ∷ ns) s =
    see_all r advertised master_key ns (see r advertised master_key n s)

abbrev pub nothing_seen : Seen
nothing_seen = record {
  adv_reachable_master = false;
  advertised_live_non_oracle = false;
  oracle_is_replica_or_master = false;
}

unfoldable pub adv_down : Text → Bool
adv_down flags =
    contains flags (codes "s_down")
    || contains flags (codes "o_down")
    || contains flags (codes "disconnected")

unfoldable pub failover_promote_safe :
    Resolver → Text → Text → Text → List NodeResult → Bool × Reason
failover_promote_safe r advertised master_key flags nodes =
    let s = see_all r advertised master_key nodes nothing_seen in
    if not s.oracle_is_replica_or_master
    then (false, oracle_not_in_topology)
    else if s.advertised_live_non_oracle
    then (false, live_non_oracle)
    else if s.adv_reachable_master && not (same_redis_endpoint r advertised master_key)
    then (false, live_writable_not_oracle)
    else if adv_down flags || not s.adv_reachable_master
    then (false, advertised_unreachable)
    else (false, failover_may_promote_non_oracle)

-- sentinelMasterAuth
unfoldable pub sentinel_master_auth : Text → Text → Text → Text → Text × Text
sentinel_master_auth probe_user probe_pass sentinel_redis_user sentinel_redis_pass =
    if not (is_empty sentinel_redis_user) || not (is_empty sentinel_redis_pass)
    then (sentinel_redis_user, sentinel_redis_pass)
    else (probe_user, probe_pass)

abbrev auth_option : Text → Text → List (Text × Text) → List (Text × Text)
auth_option option value rest = if not (is_empty value) then (option, value) ∷ rest else rest

-- sentinelAuthAfterMonitor
unfoldable pub sentinel_auth_after_monitor : Text → Text → List (Text × Text)
sentinel_auth_after_monitor username password =
    auth_option (codes "auth-user") username (auth_option (codes "auth-pass") password [])
