-- ===== src/Reconcile/Heal.antt =====
-- healAPI and the checks behind it (internal/reconcile/reconcile.go). The hook `writeProbe`, which
-- only the tests of the repository set, is left out: the write check is reprobeOracleWritable.

pub mod Steady
pub mod Laws
pub mod Monitors
use redis_sentinel_reconcile.Prelude.{
  ℕ, Bool, true, false, not, ◌&&◌, List, [], ◌∷◌, Option, none, some, if◌then◌else◌,
}
use redis_sentinel_reconcile.Prelude.Int.{ℤ}
use redis_sentinel_reconcile.Text.{Text, codes}
use redis_sentinel_reconcile.Net.{same_redis_endpoint, endpoint_ip_port, sprint_addr}
use redis_sentinel_reconcile.Oracle.{NodeResult, Err, is_none, classify_writable}
use redis_sentinel_reconcile.Redisconn.{seconds}
use redis_sentinel_reconcile.HealPlan.{
  Reason, equal_epoch_escalate, live_non_oracle, HealAction, failover, monitor, refuse,
  ApplyHealPlan, plan_apply_heal, failover_promote_safe, sentinel_master_auth,
  sentinel_auth_after_monitor,
}
use redis_sentinel_reconcile.Commands.{Reply, ok, err}
use redis_sentinel_reconcile.Sentinel.{
  Client, get_master, send_failover, send_remove, send_monitor, send_set, send_reset,
}
use redis_sentinel_reconcile.Reconcile.Config.{Config, redis_dial}
use redis_sentinel_reconcile.Reconcile.Guards.{refuse_apply, reprobe_oracle_writable}
use redis_sentinel_reconcile.World
use redis_sentinel_reconcile.World.{
  Env, plan_refused, alert, M, pure, ◌>>=◌, ◌>>◌, ask, note, count, set_last_heal,
}

abbrev pub is_refuse : HealAction → Bool
is_refuse refuse = true
is_refuse _ = false

abbrev pub is_failover : HealAction → Bool
is_failover failover = true
is_failover _ = false

abbrev is_escalate : Reason → Bool
is_escalate equal_epoch_escalate = true
is_escalate _ = false

abbrev pub is_live_non_oracle : Reason → Bool
is_live_non_oracle live_non_oracle = true
is_live_non_oracle _ = false

module _ {W : Type 0} (env : Env W) (cfg : Config) where
  -- time.Sleep
  unfoldable pub pause : ℤ → M W Unit
  pause d = ask (λ w. (tt, env.sleep d w))

  unfoldable pub advertises : Text → Reply (Text × ℤ) → Bool
  advertises master_key (err e) = false
  advertises master_key (ok (host, port)) =
      same_redis_endpoint env.resolver (sprint_addr host port) master_key

  unfoldable pub verify_advertised : Client → Text → M W Bool
  unfolding advertises
  verify_advertised c master_key = do
    reply ← get_master env c cfg.master_name
    pure (advertises master_key reply)

  -- probeOracleWritable
  unfoldable pub probe_oracle_writable : Text → M W (Option Err)
  probe_oracle_writable master_key = reprobe_oracle_writable env cfg master_key (redis_dial cfg)

  unfoldable pub verify_heal : Client → Text → M W Bool
  verify_heal c master_key = do
    same ← verify_advertised c master_key
    if same then (do e ← probe_oracle_writable master_key; pure (is_none e)) else pure false

  -- FAILOVER and its check; false goes on to REMOVE+MONITOR.
  unfoldable pub try_failover : Client → Text → M W Bool
  try_failover c master_key = do
    e ← send_failover env c cfg.master_name
    if is_none e then (do pause (seconds 2); verify_heal c master_key) else pure false

  -- SENTINEL SET for each option; a failure is only logged.
  unfoldable pub rebind_auth : Client → List (Text × Text) → M W Unit
  rebind_auth c [] = pure tt
  rebind_auth c ((option, value) ∷ kvs) = do
    send_set env c cfg.master_name option value
    rebind_auth c kvs

  -- The options that are set again after MONITOR.
  unfoldable pub auth_options : List (Text × Text)
  auth_options =
      let (user, pass) =
        sentinel_master_auth cfg.redis_username cfg.redis_password cfg.sentinel_redis_username
          cfg.sentinel_redis_password in
      sentinel_auth_after_monitor user pass

  unfoldable pub reset_and_verify : Client → Text → M W Unit
  reset_and_verify c master_key = do
    send_reset env c cfg.master_name
    pause (seconds 2)
    good ← verify_heal c master_key
    if good then count (codes "heal_ok") else count (codes "heal_fail")

  unfoldable pub after_monitor : Client → Text → Reason → M W Unit
  after_monitor c master_key why = do
    rebind_auth c auth_options
    pause (seconds 1)
    good ← verify_heal c master_key
    if good
        then count (codes "heal_ok")
        else (if is_live_non_oracle why
            then count (codes "heal_fail")
            else reset_and_verify c master_key)

  -- REMOVE, its failure dropped, and MONITOR.
  unfoldable pub replace_monitor : Client → Text → ℤ → M W (Option Err)
  replace_monitor c ip port = do
    send_remove env c cfg.master_name
    send_monitor env c cfg.master_name ip port cfg.quorum

  -- REMOVE+MONITOR, and what follows it.
  unfoldable pub remove_monitor : Client → Text → Text → ℤ → Reason → M W Unit
  remove_monitor c master_key ip port why = do
    e ← replace_monitor c ip port
    if is_none e then after_monitor c master_key why else count (codes "heal_fail")

  -- What follows the time of the attempt.
  unfoldable pub after_attempt : Client → Text → Text → ℤ → ApplyHealPlan → M W Unit
  after_attempt c master_key ip port plan = do
    count (codes "heal_attempt")
    healed ← (if is_failover plan.action then try_failover c master_key else pure false)
    if healed then count (codes "heal_ok") else remove_monitor c master_key ip port plan.reason

  -- The plan was not to refuse, and the oracle's address is known.
  unfoldable pub carry_out : Client → Text → Text → ℤ → ApplyHealPlan → M W Unit
  carry_out c master_key ip port plan = do
    t ← ask env.now
    set_last_heal t
    after_attempt c master_key ip port plan

  unfoldable pub refuse_plan : Reason → M W Unit
  refuse_plan why =
      if is_escalate why
      then (do
        note (alert World.equal_epoch_escalate)
        count (codes "alert_equal_epoch_escalate")
        refuse_apply (plan_refused why))
      else refuse_apply (plan_refused why)

  unfoldable pub follow : Client → Text → ApplyHealPlan → M W Unit
  follow c master_key plan =
      if is_refuse plan.action
      then refuse_plan plan.reason
      else elim (endpoint_ip_port env.resolver master_key) [
        | none ↦ count (codes "heal_fail")
        | some (ip, port) ↦ carry_out c master_key ip port plan
      ]

  unfoldable pub heal_plan : Text → Text → List NodeResult → Text → Bool → ApplyHealPlan
  heal_plan advertised master_key nodes flags trap =
      let (safe, why) = failover_promote_safe env.resolver advertised master_key flags nodes in
      plan_apply_heal (classify_writable env.resolver nodes).1 safe why trap
        cfg.equal_epoch_escalate

  -- healAPI
  unfoldable pub heal_api : Client → Text → Text → List NodeResult → Text → Bool → M W Unit
  heal_api c advertised master_key nodes flags trap =
      follow c master_key (heal_plan advertised master_key nodes flags trap)
