-- ===== src/Reconcile/Heal/Monitors.antt =====
-- A heal that is due is made: the MONITOR of the oracle is sent.
use mathlib.Core.List.{Memᴰ}
use redis_sentinel_reconcile.Prelude.{Bool, true, false, List, some, ◌≡◌, ◌⊎◌, refl, ap, any}
use redis_sentinel_reconcile.Prelude.Int.{ℤ}
use redis_sentinel_reconcile.Text.{Text}
use redis_sentinel_reconcile.Net.{endpoint_ip_port, same_redis_endpoint}
use redis_sentinel_reconcile.Oracle.{NodeResult, classify_writable, is_none}
use redis_sentinel_reconcile.Commands.{monitor}
use redis_sentinel_reconcile.HealPlan
use redis_sentinel_reconcile.HealPlan.{HealAction, ApplyHealPlan, Reason}
use redis_sentinel_reconcile.HealPlan.Laws.{monitor_iff, at_oracle, replica_at_ad, writable_at_ad}
use redis_sentinel_reconcile.Sentinel.{Client, send_set, send_reset, send_remove, send_monitor}
use redis_sentinel_reconcile.Reconcile.Config.{Config}
use redis_sentinel_reconcile.Reconcile.Heal.{
  heal_api, heal_plan, follow, carry_out, after_attempt, remove_monitor, replace_monitor, is_refuse,
  is_failover,
}
use redis_sentinel_reconcile.Reconcile.Heal.Steady.{Keeps-after_monitor}
use redis_sentinel_reconcile.World.Keeps.{Keeps-if}
use redis_sentinel_reconcile.World.Steady.{
  Anyhow, Anyhow-IsLawful, IsSteady, Keeps-send, Keeps-count,
}
use redis_sentinel_reconcile.World.{Env, Entry, sentinel_call, St, pure, ◌>>=◌, send}

module _ {W : Type 0} (e : Entry) where
  -- The journal has the entry.
  abbrev Contains : St W → Type 0
  Contains s = Memᴰ e s.journal

  Contains-IsSteady : IsSteady Anyhow (λ d. true) Contains
  Contains-IsSteady = record {
    world = λ s w l h. h;
    metrics = λ s m h. h;
    journal = λ s d q h. Memᴰ.tail h;
  }

module _ {W : Type 0} (env : Env W) (cfg : Config) (c : Client) (master_key : Text) where
  abbrev monitored : Text → ℤ → Entry
  monitored ip port = sentinel_call c.addr (monitor cfg.master_name ip port cfg.quorum)

  remove_monitor-Contains :
      (ip : Text) (port : ℤ) (why : Reason) (s : St W)
      → Contains (monitored ip port) (remove_monitor env cfg c master_key ip port why s).1
  unfolding remove_monitor replace_monitor send_remove send_monitor send_set send_reset send ◌>>=◌
  remove_monitor-Contains ip port why s =
      let law = Anyhow-IsLawful env in
      let steady = Contains-IsSteady (monitored ip port) in
      let (e, s') = replace_monitor env cfg c ip port s in
      (Keeps-if (is_none e) _ _
          (Keeps-after_monitor law steady (λ d r. refl) cfg c master_key
            (λ option value. Keeps-send steady _ _ refl (λ w. tt))
            (Keeps-send steady _ _ refl (λ w. tt)) why)
          (Keeps-count steady _)).at
        s' (Memᴰ.head refl)

  carry_out-Contains :
      (ip : Text) (port : ℤ) (plan : ApplyHealPlan) (s : St W)
      → is_failover plan.action ≡ false
      → Contains (monitored ip port) (carry_out env cfg c master_key ip port plan s).1
  unfolding carry_out after_attempt ◌>>=◌ pure
  carry_out-Contains ip port plan s never = rw never (remove_monitor-Contains ip port plan.reason _)

  follow-Contains :
      (ip : Text) (port : ℤ) (plan : ApplyHealPlan) (s : St W)
      → endpoint_ip_port env.resolver master_key ≡ some (ip, port)
      → plan.action ≡ HealPlan.monitor
      → Contains (monitored ip port) (follow env cfg c master_key plan s).1
  unfolding follow
  follow-Contains ip port plan s found due =
      rw (ap is_refuse due, found) (carry_out-Contains ip port plan s (ap is_failover due))

  -- When ads and oracle differ, the probed nodes have one writable master, the oracle answered as a
  -- master or replica, its address resolves, and the advertised node is a replica or no writable
  -- master, then a heal sends the Sentinel a MONITOR of the address of the oracle, whatever is
  -- answered.
  pub heal_api-monitors :
      (advertised : Text) (nodes : List NodeResult) (flags : Text) (trap : Bool) (ip : Text)
      (port : ℤ) (s : St W)
      → same_redis_endpoint env.resolver advertised master_key ≡ false
      → (classify_writable env.resolver nodes).1 ≡ 1
      → any (at_oracle env.resolver advertised master_key) nodes ≡ true
      → (any (replica_at_ad env.resolver advertised master_key) nodes ≡ true)
        ⊎ (any (writable_at_ad env.resolver advertised master_key) nodes ≡ false)
      → endpoint_ip_port env.resolver master_key ≡ some (ip, port)
      → Memᴰ
          (sentinel_call c.addr (monitor cfg.master_name ip port cfg.quorum))
          (heal_api env cfg c advertised master_key nodes flags trap s).1.journal
  unfolding heal_api heal_plan
  heal_api-monitors advertised nodes flags trap ip port s apart single seen stale found =
      follow-Contains ip port _ s found (
        (monitor_iff env.resolver advertised master_key apart
            (classify_writable env.resolver nodes).1 flags nodes trap cfg.equal_epoch_escalate).1
          (single, seen, stale))
