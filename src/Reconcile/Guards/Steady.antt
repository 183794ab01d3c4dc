-- ===== src/Reconcile/Guards/Steady.antt =====
-- The guards only read, and write alerts.
use redis_sentinel_reconcile.Prelude.{ℕ, ◌-◌, ◌&&◌, Bool, true, List, Option, none, some, ◌≡◌, refl}
use redis_sentinel_reconcile.Prelude.Int.{is_positive, lt_int}
use redis_sentinel_reconcile.Text.{Text}
use redis_sentinel_reconcile.Oracle.{NodeResult}
use redis_sentinel_reconcile.Redisconn.{Dial}
use redis_sentinel_reconcile.Probe.Steady.{Keeps-probe_dial}
use redis_sentinel_reconcile.Reconcile.Config.{Config}
use redis_sentinel_reconcile.Reconcile.Guards.{
  deny, requires_local, is_failover_in_progress, refuse_apply, check_reachable, check_cooldown,
  preflight_apply, reprobe_oracle_writable,
}
use redis_sentinel_reconcile.World.Keeps.{Keeps, Keeps-bind, Keeps-pure, Keeps-if, keeps_rules}
use redis_sentinel_reconcile.World.Steady.{
  is_read, IsLawful, IsSteady, Keeps-ask, Keeps-note, Keeps-count, Keeps-get_last_heal,
}
use redis_sentinel_reconcile.World.{
  Env, Entry, St, Refusal, heal_cooldown, apply_requires_local_sentinel, failover_in_progress,
}

module _ {W : Type 0} {env : Env W} {Later : W → W → Type 0} {quiet : Entry → Bool}
    {P : St W → Type 0} (law : IsLawful env Later) (steady : IsSteady Later quiet P)
    (reads : (e : Entry) → is_read e ≡ true → quiet e ≡ true) where
  pub Keeps-refuse_apply : (why : Refusal) → Keeps P (refuse_apply why)
  unfolding refuse_apply
  Keeps-refuse_apply why =
      Keeps-bind _ _ (Keeps-note steady _ (reads _ refl)) λ _. Keeps-count steady _

  module _ (cfg : Config) where
    Keeps-deny : (why : Refusal) → Keeps P (deny env cfg why)
    Keeps-deny why = Keeps-bind _ _ (Keeps-refuse_apply why) λ _. Keeps-pure _

    Keeps-check_reachable : (nodes : List NodeResult) → Keeps P (check_reachable env cfg nodes)
    unfolding check_reachable
    Keeps-check_reachable nodes = search (keeps_rules, Keeps-refuse_apply)

    Keeps-check_cooldown :
        (nodes : List NodeResult) (last : Option ℕ) → Keeps P (check_cooldown env cfg nodes last)
    unfolding check_cooldown
    Keeps-check_cooldown nodes none = Keeps-check_reachable nodes
    Keeps-check_cooldown nodes (some last) =
        Keeps-if (is_positive cfg.heal_cooldown) _ _
          (Keeps-bind _ _ (Keeps-ask steady env.now law.now) λ t.
            Keeps-if (lt_int (t - last) cfg.heal_cooldown) _ _ (Keeps-deny heal_cooldown)
              (Keeps-check_reachable nodes))
          (Keeps-check_reachable nodes)

    pub Keeps-preflight_apply :
        (flags : Text) (nodes : List NodeResult) → Keeps P (preflight_apply env cfg flags nodes)
    unfolding preflight_apply
    Keeps-preflight_apply flags nodes =
        Keeps-if (requires_local cfg) _ _ (Keeps-deny apply_requires_local_sentinel) (
          Keeps-if (cfg.skip_on_failover_in_progress && is_failover_in_progress flags) _ _
            (Keeps-deny failover_in_progress)
            (Keeps-bind _ _ Keeps-get_last_heal λ last. Keeps-check_cooldown nodes last))

    pub Keeps-reprobe_oracle_writable :
        (master_key : Text) (d : Dial) → Keeps P (reprobe_oracle_writable env cfg master_key d)
    unfolding reprobe_oracle_writable
    Keeps-reprobe_oracle_writable master_key d =
        Keeps-bind _ _ (Keeps-probe_dial law steady reads master_key d) λ n. Keeps-pure _
