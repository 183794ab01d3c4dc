-- ===== src/Reconcile/Heal/Steady.antt =====
-- What a heal does to a property of the state, from what its commands do. FAILOVER is not among
-- them: the plan never asks for it.
use redis_sentinel_reconcile.Prelude.{
  ℕ, Bool, true, false, List, [], ◌∷◌, some, ◌≡◌, refl, arith, Option-cases, inl, inr,
}
use redis_sentinel_reconcile.Prelude.Int.{ℤ}
use redis_sentinel_reconcile.Text.{Text}
use redis_sentinel_reconcile.Net.{endpoint_ip_port}
use redis_sentinel_reconcile.Oracle.{NodeResult, is_none}
use redis_sentinel_reconcile.HealPlan.{Reason, ApplyHealPlan, plan_apply_heal}
use redis_sentinel_reconcile.HealPlan.Laws.{failover_promote_safe-false}
use redis_sentinel_reconcile.Sentinel.{Client, send_set, send_reset}
use redis_sentinel_reconcile.Sentinel.Steady.{Keeps-get_master}
use redis_sentinel_reconcile.Reconcile.Config.{Config}
use redis_sentinel_reconcile.Reconcile.Guards.Steady.{
  Keeps-refuse_apply, Keeps-reprobe_oracle_writable,
}
use redis_sentinel_reconcile.Reconcile.Heal.{
  pause, verify_advertised, probe_oracle_writable, verify_heal, rebind_auth, reset_and_verify,
  after_monitor, replace_monitor, remove_monitor, carry_out, after_attempt, refuse_plan, follow,
  heal_plan, heal_api, is_failover, is_refuse, is_escalate, is_live_non_oracle,
}
use redis_sentinel_reconcile.World.Keeps.{Keeps, Keeps-bind, Keeps-pure, Keeps-if, keeps_rules}
use redis_sentinel_reconcile.World.Steady.{
  is_read, IsLawful, IsSteady, Keeps-ask, Keeps-note, Keeps-count,
}
use redis_sentinel_reconcile.World.{Env, Entry, St, set_last_heal}

-- The plan of a heal is never FAILOVER.
pub heal_plan-not_failover :
    {W : Type 0} (env : Env W) (cfg : Config) (advertised master_key : Text)
    (nodes : List NodeResult) (flags : Text) (trap : Bool)
    → is_failover (heal_plan env cfg advertised master_key nodes flags trap).action ≡ false
unfolding heal_plan plan_apply_heal
heal_plan-not_failover env cfg advertised master_key nodes flags trap =
    ground (arith, failover_promote_safe-false env.resolver advertised master_key flags nodes)

module _ {W : Type 0} {env : Env W} {Later : W → W → Type 0} {quiet : Entry → Bool}
    {P : St W → Type 0} (law : IsLawful env Later) (steady : IsSteady Later quiet P)
    (reads : (e : Entry) → is_read e ≡ true → quiet e ≡ true) (cfg : Config) (c : Client)
    (master_key : Text) where
  pub Keeps-pause : (d : ℤ) → Keeps P (pause env cfg d)
  unfolding pause
  Keeps-pause d = Keeps-ask steady _ (law.sleep d)

  Keeps-verify_advertised : Keeps P (verify_advertised env cfg c master_key)
  unfolding verify_advertised
  Keeps-verify_advertised =
      Keeps-bind _ _ (Keeps-get_master law steady reads c _) λ reply. Keeps-pure _

  Keeps-probe_oracle_writable : Keeps P (probe_oracle_writable env cfg master_key)
  unfolding probe_oracle_writable
  Keeps-probe_oracle_writable = Keeps-reprobe_oracle_writable law steady reads cfg _ _

  pub Keeps-verify_heal : Keeps P (verify_heal env cfg c master_key)
  unfolding verify_heal
  Keeps-verify_heal = search (keeps_rules, Keeps-verify_advertised, Keeps-probe_oracle_writable)

  pub Keeps-refuse_plan : (why : Reason) → Keeps P (refuse_plan env cfg why)
  unfolding refuse_plan
  Keeps-refuse_plan why =
      Keeps-if (is_escalate why) _ _
        (Keeps-bind _ _ (Keeps-note steady _ (reads _ refl))
          λ _. Keeps-bind _ _ (Keeps-count steady _) λ _. Keeps-refuse_apply law steady reads _)
        (Keeps-refuse_apply law steady reads _)

  module _ (set : (option value : Text) → Keeps P (send_set env c cfg.master_name option value))
      (reset : Keeps P (send_reset env c cfg.master_name)) where
    Keeps-rebind_auth : (kvs : List (Text × Text)) → Keeps P (rebind_auth env cfg c kvs)
    unfolding rebind_auth
    Keeps-rebind_auth [] = Keeps-pure _
    Keeps-rebind_auth ((option, value) ∷ kvs) =
        Keeps-bind _ _ (set option value) λ e. Keeps-rebind_auth kvs

    Keeps-reset_and_verify : Keeps P (reset_and_verify env cfg c master_key)
    unfolding reset_and_verify
    Keeps-reset_and_verify = Keeps-bind _ _ reset λ _. Keeps-bind _ _ (Keeps-pause _) λ _.
        Keeps-bind _ _ Keeps-verify_heal
          λ good. Keeps-if good _ _ (Keeps-count steady _) (Keeps-count steady _)

    pub Keeps-after_monitor : (why : Reason) → Keeps P (after_monitor env cfg c master_key why)
    unfolding after_monitor
    Keeps-after_monitor why = Keeps-bind _ _ (Keeps-rebind_auth _) λ _.
        Keeps-bind _ _ (Keeps-pause _) λ _. Keeps-bind _ _ Keeps-verify_heal λ good.
          Keeps-if good _ _ (Keeps-count steady _)
            (Keeps-if (is_live_non_oracle why) _ _ (Keeps-count steady _) Keeps-reset_and_verify)

    Keeps-remove_monitor :
        (ip : Text) (port : ℤ) (why : Reason)
        → Keeps P (replace_monitor env cfg c ip port)
        → Keeps P (remove_monitor env cfg c master_key ip port why)
    unfolding remove_monitor
    Keeps-remove_monitor ip port why replace =
        Keeps-bind _ _ replace
          λ e. Keeps-if (is_none e) _ _ (Keeps-after_monitor why) (Keeps-count steady _)

    pub Keeps-after_attempt :
        (ip : Text) (port : ℤ) (plan : ApplyHealPlan)
        → is_failover plan.action ≡ false
        → Keeps P (replace_monitor env cfg c ip port)
        → Keeps P (after_attempt env cfg c master_key ip port plan)
    unfolding after_attempt
    Keeps-after_attempt ip port plan never replace = rw never (
        Keeps-bind _ _ (Keeps-count steady _) λ _. Keeps-bind _ _ (Keeps-pure _) λ healed.
          Keeps-if healed _ _ (Keeps-count steady _)
            (Keeps-remove_monitor ip port plan.reason replace))

    module _ (attempts : (t : ℕ) → Keeps P (set_last_heal t)) where
      Keeps-carry_out :
          (ip : Text) (port : ℤ) (plan : ApplyHealPlan)
          → is_failover plan.action ≡ false
          → Keeps P (replace_monitor env cfg c ip port)
          → Keeps P (carry_out env cfg c master_key ip port plan)
      unfolding carry_out
      Keeps-carry_out ip port plan never replace =
          Keeps-bind _ _ (Keeps-ask steady env.now law.now)
            λ t. Keeps-bind _ _ (attempts t) λ _. Keeps-after_attempt ip port plan never replace

      Keeps-follow :
          (plan : ApplyHealPlan)
          → is_failover plan.action ≡ false
          → ((ip : Text) (port : ℤ)
              → endpoint_ip_port env.resolver master_key ≡ some (ip, port)
              → Keeps P (replace_monitor env cfg c ip port))
          → Keeps P (follow env cfg c master_key plan)
      unfolding follow
      Keeps-follow plan never replace =
          Keeps-if (is_refuse plan.action) _ _ (Keeps-refuse_plan plan.reason)
            (elim (Option-cases (endpoint_ip_port env.resolver master_key)) [
              | inl missing ↦ rw missing (Keeps-count steady _)
              | inr ((ip, port), found) ↦
                  rw found (Keeps-carry_out ip port plan never (replace ip port found))
            ])

      pub Keeps-heal_api :
          (advertised : Text) (nodes : List NodeResult) (flags : Text) (trap : Bool)
          → ((ip : Text) (port : ℤ)
              → endpoint_ip_port env.resolver master_key ≡ some (ip, port)
              → Keeps P (replace_monitor env cfg c ip port))
          → Keeps P (heal_api env cfg c advertised master_key nodes flags trap)
      unfolding heal_api
      Keeps-heal_api advertised nodes flags trap =
          Keeps-follow (heal_plan env cfg advertised master_key nodes flags trap)
            (heal_plan-not_failover env cfg advertised master_key nodes flags trap)
