-- ===== src/HealPlan/Laws.antt =====
-- What the plan of an apply guarantees.
use redis_sentinel_reconcile.Prelude.{
  ℕ, Bool, true, false, ◌&&◌, ◌||◌, List, [], ◌∷◌, ◌≡◌, ◌≢◌, ◌⊎◌, arith, any, ◌↔◌,
}
use redis_sentinel_reconcile.Text.{Text, text_eq, codes}
use redis_sentinel_reconcile.Net.{Resolver, same_redis_endpoint}
use redis_sentinel_reconcile.Oracle.{NodeResult, is_none}
use redis_sentinel_reconcile.HealPlan.{
  HealAction, monitor, equal_epoch_escalate, plan_apply_heal, see_all, Seen, nothing_seen,
  failover_promote_safe, see,
}

-- FAILOVER is never found safe, at any nodes and flags.
pub failover_promote_safe-false :
    (r : Resolver) (advertised master_key flags : Text) (nodes : List NodeResult)
    → (failover_promote_safe r advertised master_key flags nodes).0 ≡ false
unfolding failover_promote_safe
failover_promote_safe-false r advertised master_key flags nodes = ground arith

-- The plan of healAPI from what was probed.
abbrev pub planned_action :
    Resolver → ℕ → Text → Text → Text → List NodeResult → Bool → Bool → HealAction
planned_action r count advertised master_key flags nodes trap escalate =
    let (safe, why) = failover_promote_safe r advertised master_key flags nodes in
    (plan_apply_heal count safe why trap escalate).action

module _ (r : Resolver) (advertised master_key : Text) where
  abbrev is_replica : NodeResult → Bool
  is_replica n = is_none n.err && text_eq n.role (codes "slave")

  abbrev is_master : NodeResult → Bool
  is_master n = is_none n.err && text_eq n.role (codes "master")

  -- A reached writable master at the advertised address.
  abbrev pub writable_at_ad : NodeResult → Bool
  writable_at_ad n = same_redis_endpoint r n.addr advertised && (is_master n && n.writable)

  -- A reached replica at the advertised address.
  abbrev pub replica_at_ad : NodeResult → Bool
  replica_at_ad n = same_redis_endpoint r n.addr advertised && is_replica n

  -- A reached master or replica at the oracle's address.
  abbrev pub at_oracle : NodeResult → Bool
  at_oracle n = same_redis_endpoint r n.addr master_key && (is_master n || is_replica n)

module _ (r : Resolver) (advertised master_key : Text)
    (apart : same_redis_endpoint r advertised master_key ≡ false) where
  see_flags :
      (n : NodeResult) (s : Seen)
      → see r advertised master_key n s ≡ record {
        adv_reachable_master = s.adv_reachable_master || writable_at_ad r advertised master_key n;
        advertised_live_non_oracle =
            s.advertised_live_non_oracle || replica_at_ad r advertised master_key n;
        oracle_is_replica_or_master =
            s.oracle_is_replica_or_master || at_oracle r advertised master_key n;
      }
  unfolding see
  see_flags n s = ground arith

  see_all-reachable :
      (ns : List NodeResult) (s : Seen)
      → (see_all r advertised master_key ns s).adv_reachable_master
        ≡ (s.adv_reachable_master || any (writable_at_ad r advertised master_key) ns)
  unfolding see_all
  see_all-reachable [] s = ground arith
  see_all-reachable (n ∷ ns) s =
      ground (arith, see_flags n s, see_all-reachable ns (see r advertised master_key n s))

  see_all-replica :
      (ns : List NodeResult) (s : Seen)
      → (see_all r advertised master_key ns s).advertised_live_non_oracle
        ≡ (s.advertised_live_non_oracle || any (replica_at_ad r advertised master_key) ns)
  unfolding see_all
  see_all-replica [] s = ground arith
  see_all-replica (n ∷ ns) s =
      ground (arith, see_flags n s, see_all-replica ns (see r advertised master_key n s))

  see_all-oracle :
      (ns : List NodeResult) (s : Seen)
      → (see_all r advertised master_key ns s).oracle_is_replica_or_master
        ≡ (s.oracle_is_replica_or_master || any (at_oracle r advertised master_key) ns)
  unfolding see_all
  see_all-oracle [] s = ground arith
  see_all-oracle (n ∷ ns) s =
      ground (arith, see_flags n s, see_all-oracle ns (see r advertised master_key n s))

  -- When ads and oracle differ, MONITOR is planned exactly when there is one writable master, the
  -- oracle answered as a master or replica, and the advertised node is a replica or no writable
  -- master. The flags, the epochs and the escalation setting do not matter.
  pub monitor_iff :
      (count : ℕ) (flags : Text) (nodes : List NodeResult) (trap escalate : Bool)
      → (planned_action r count advertised master_key flags nodes trap escalate ≡ monitor) ↔ (
          (count ≡ 1)
          × (any (at_oracle r advertised master_key) nodes ≡ true)
          × ((any (replica_at_ad r advertised master_key) nodes ≡ true)
              ⊎ (any (writable_at_ad r advertised master_key) nodes ≡ false)))
  unfolding plan_apply_heal failover_promote_safe
  monitor_iff count flags nodes trap escalate = ground (
    arith,
    see_all-reachable nodes nothing_seen,
    see_all-replica nodes nothing_seen,
    see_all-oracle nodes nothing_seen,
  )

  -- When ads and oracle differ, the equal-epoch escalation is never the reason of the plan.
  pub escalate_never :
      (count : ℕ) (flags : Text) (nodes : List NodeResult) (trap escalate : Bool)
      → let (safe, why) = failover_promote_safe r advertised master_key flags nodes in
        (plan_apply_heal count safe why trap escalate).reason ≢ equal_epoch_escalate
  unfolding plan_apply_heal failover_promote_safe
  escalate_never count flags nodes trap escalate = ground arith
