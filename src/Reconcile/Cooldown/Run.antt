-- ===== src/Reconcile/Cooldown/Run.antt =====
-- A run spaces its heal attempts by the cooldown.
use redis_sentinel_reconcile.Prelude.{
  ℕ, ◌<◌, Bool, true, false, List, [], none, ◌≡◌, refl, Option-cases, inl, inr, if◌then◌else◌,
}
use redis_sentinel_reconcile.Prelude.Int.{ℤ, pos}
use redis_sentinel_reconcile.Text.{Text}
use redis_sentinel_reconcile.Net.{endpoint_ip_port}
use redis_sentinel_reconcile.Oracle.{NodeResult}
use redis_sentinel_reconcile.Commands.{Reply, ok, err}
use redis_sentinel_reconcile.HealPlan.{ApplyHealPlan}
use redis_sentinel_reconcile.Lease.Steady.{Keeps-acquire_heal_lease}
use redis_sentinel_reconcile.Sentinel.{Client, send_set, send_reset, send_remove, send_monitor}
use redis_sentinel_reconcile.Sentinel.Steady.{Keeps-get_info}
use redis_sentinel_reconcile.Reconcile.Config.{Config}
use redis_sentinel_reconcile.Reconcile.Guards.{preflight_apply}
use redis_sentinel_reconcile.Reconcile.Guards.Steady.{Keeps-refuse_apply}
use redis_sentinel_reconcile.Reconcile.Heal.{
  is_failover, is_refuse, replace_monitor, carry_out, follow, heal_plan, heal_api,
}
use redis_sentinel_reconcile.Reconcile.Heal.Steady.{
  heal_plan-not_failover, Keeps-after_attempt, Keeps-refuse_plan,
}
use redis_sentinel_reconcile.Reconcile.Nodes.{reply_flags}
use redis_sentinel_reconcile.Reconcile.Tick.{after_lease, with_lease, apply_heal, run}
use redis_sentinel_reconcile.Reconcile.Tick.Run.{Keeps-run}
use redis_sentinel_reconcile.Reconcile.Cooldown.{
  IsClock, IsSpaced, attempt_times, nothing, Cooling, Cool, Cooling-IsSteady, Cool-IsSteady,
  Cool-attempt, reads_no_attempt,
}
use redis_sentinel_reconcile.Reconcile.Cooldown.Guard.{After, preflight_apply-After}
use redis_sentinel_reconcile.World.Keeps.{Keeps, Keeps-bind}
use redis_sentinel_reconcile.World.Leads.{Leads, Leads-Keeps, Leads-if, Leads-bind}
use redis_sentinel_reconcile.World.Steady.{Keeps-send, Keeps-count}
use redis_sentinel_reconcile.World.{Env, St, M, pure, ◌>>=◌, ask, set_last_heal}

module _ {W : Type 0} (env : Env W) (cfg : Config) (time : W → ℕ) (clock : IsClock env time)
    (gap : ℕ) where
  module _ (c : Client) (master_key : Text) where
    Keeps-replace :
        (ip : Text) (port : ℤ) → Keeps (Cooling time gap) (replace_monitor env cfg c ip port)
    unfolding replace_monitor send_remove send_monitor
    Keeps-replace ip port =
        let steady = Cooling-IsSteady time gap in
        Keeps-bind _ _ (Keeps-send steady _ _ refl (clock.forward.do_err _ _))
          λ _. Keeps-send steady _ _ refl (clock.forward.do_err _ _)

    Leads-carry_out :
        (ip : Text) (port : ℤ) (plan : ApplyHealPlan)
        → is_failover plan.action ≡ false
        → Leads (Cool time gap) (Cooling time gap) (carry_out env cfg c master_key ip port plan)
    unfolding carry_out ask set_last_heal ◌>>=◌ send_set send_reset
    Leads-carry_out ip port plan never =
        let law = clock.forward in
        let steady = Cooling-IsSteady time gap in
        record {
          at = λ s h.
              (Keeps-after_attempt law steady reads_no_attempt cfg c master_key
                  (λ option value. Keeps-send steady _ _ refl (law.do_err _ _))
                  (Keeps-send steady _ _ refl (law.do_err _ _)) ip port plan never
                  (Keeps-replace ip port)).at
                _
                (Cool-attempt time gap s (env.now s.world).0 (env.now s.world).1 h
                  (clock.now_from s.world) (clock.now_to s.world));
        }

    Leads-follow :
        (plan : ApplyHealPlan)
        → is_failover plan.action ≡ false
        → Leads (Cool time gap) (Cooling time gap) (follow env cfg c master_key plan)
    unfolding follow
    Leads-follow plan never =
        let law = clock.forward in
        let steady = Cooling-IsSteady time gap in
        Leads-if (is_refuse plan.action) _ _
          (Leads-Keeps _ (λ s h. h.cooling)
            (Keeps-refuse_plan law steady reads_no_attempt cfg c master_key plan.reason))
          (elim (Option-cases (endpoint_ip_port env.resolver master_key)) [
            | inl missing ↦ rw missing (Leads-Keeps _ (λ s h. h.cooling) (Keeps-count steady _))
            | inr ((ip, port), found) ↦ rw found (Leads-carry_out ip port plan never)
          ])

    Leads-after_lease :
        (heal : M W Unit) (taken : Reply Bool)
        → Leads (Cool time gap) (Cooling time gap) heal
        → Leads (Cool time gap) (Cooling time gap) (after_lease env cfg heal taken)
    unfolding after_lease
    Leads-after_lease heal (err e) k =
        Leads-Keeps _ (λ s h. h.cooling)
          (Keeps-refuse_apply clock.forward (Cooling-IsSteady time gap) reads_no_attempt _)
    Leads-after_lease heal (ok false) k =
        Leads-Keeps _ (λ s h. h.cooling)
          (Keeps-refuse_apply clock.forward (Cooling-IsSteady time gap) reads_no_attempt _)
    Leads-after_lease heal (ok true) k =
        Leads-bind _ _ (Keeps-count (Cool-IsSteady time gap) _) λ _. k

    Leads-with_lease :
        (heal : M W Unit)
        → Leads (Cool time gap) (Cooling time gap) heal
        → Leads (Cool time gap) (Cooling time gap) (with_lease env cfg master_key heal)
    unfolding with_lease
    Leads-with_lease heal k =
        Leads-if cfg.heal_lease _ _
          (Leads-bind _ _
            (Keeps-acquire_heal_lease clock.forward (Cool-IsSteady time gap) master_key _ _ _ _
              λ addr holder. (refl, refl, refl))
            λ taken. Leads-after_lease heal taken k)
          k

  module _ (gap_positive : 0 < gap) (cooldown : cfg.heal_cooldown ≡ pos gap) where
    After-preflight :
        (heal : M W Unit) (b : Bool) (s : St W)
        → Leads (Cool time gap) (Cooling time gap) heal
        → After env cfg time clock gap gap_positive cooldown b s
        → Cooling time gap ((if b then heal else pure tt) s).1
    unfolding pure
    After-preflight heal true s k h = k.at s h
    After-preflight heal false s k h = h

    Keeps-guarded :
        (c : Client) (advertised master_key : Text) (nodes : List NodeResult) (flags : Text)
        (trap : Bool)
        → Keeps (Cooling time gap) (
            preflight_apply env cfg flags nodes >>= λ allowed.
            if allowed
            then with_lease env cfg master_key
                (heal_api env cfg c advertised master_key nodes flags trap)
            else pure tt)
    unfolding heal_api ◌>>=◌
    Keeps-guarded c advertised master_key nodes flags trap =
        let plan = heal_plan env cfg advertised master_key nodes flags trap in
        let never = heal_plan-not_failover env cfg advertised master_key nodes flags trap in
        let heal = heal_api env cfg c advertised master_key nodes flags trap in
        record {
          at = λ s h.
              After-preflight (with_lease env cfg master_key heal)
                (preflight_apply env cfg flags nodes s).0 (preflight_apply env cfg flags nodes s).1
                (Leads-with_lease c master_key heal (Leads-follow c master_key plan never))
                (preflight_apply-After env cfg time clock gap gap_positive cooldown flags nodes s
                  h);
        }

    Keeps-apply_heal_spaced :
        (c : Client) (advertised master_key : Text) (nodes : List NodeResult) (trap : Bool)
        → Keeps (Cooling time gap) (apply_heal env cfg c advertised master_key nodes trap)
    unfolding apply_heal
    Keeps-apply_heal_spaced c advertised master_key nodes trap =
        Keeps-bind _ _
          (Keeps-get_info clock.forward (Cooling-IsSteady time gap) reads_no_attempt c
            cfg.master_name)
          λ info. Keeps-guarded c advertised master_key nodes (reply_flags info) trap

    -- From a state without attempts, over a run of any number of ticks with a positive cooldown and
    -- on a clock that does not go back, each heal attempt comes at least the cooldown after the one
    -- before it.
    pub run-IsSpaced :
        (s : St W) (waits : List ℤ)
        → s.last_heal ≡ none
        → attempt_times s.journal ≡ []
        → IsSpaced gap (attempt_times (run env cfg waits s).1.journal)
    run-IsSpaced s waits fresh empty =
        ((Keeps-run clock.forward (Cooling-IsSteady time gap) reads_no_attempt cfg
            (λ c advertised master_key nodes trap h.
              Keeps-apply_heal_spaced c advertised master_key nodes trap)
            waits).at
          s
          (record {
            last = rw (fresh, empty) refl;
            spaced = rw empty nothing;
            past = λ t e. absurd (cc);
          })).spaced
