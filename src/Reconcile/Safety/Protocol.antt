-- ===== src/Reconcile/Safety/Protocol.antt =====
-- The steps of a heal, in order: an attempt, REMOVE, MONITOR of the oracle, SET of options, RESET.
use redis_sentinel_reconcile.Prelude.{
  ℕ, Bool, true, false, List, [], ◌∷◌, some, ◌≡◌, refl, Option-cases, inl, inr,
}
use redis_sentinel_reconcile.Prelude.Int.{ℤ}
use redis_sentinel_reconcile.Text.{Text, codes}
use redis_sentinel_reconcile.Net.{Resolver, endpoint_ip_port}
use redis_sentinel_reconcile.Oracle.{NodeResult, is_none}
use redis_sentinel_reconcile.HealPlan.{Reason, ApplyHealPlan}
use redis_sentinel_reconcile.Commands.{changes_sentinel, remove, monitor, set, reset}
use redis_sentinel_reconcile.Sentinel.{Client, send_set, send_reset, send_remove, send_monitor}
use redis_sentinel_reconcile.Reconcile.Config.{Config}
use redis_sentinel_reconcile.Reconcile.Heal.{
  rebind_auth, reset_and_verify, after_monitor, replace_monitor, remove_monitor, carry_out,
  after_attempt, follow, heal_plan, heal_api, is_failover, is_refuse, is_live_non_oracle,
}
use redis_sentinel_reconcile.Reconcile.Heal.Steady.{
  heal_plan-not_failover, Keeps-pause, Keeps-verify_heal, Keeps-refuse_plan,
}
use redis_sentinel_reconcile.Reconcile.Safety.{is_heal_step}
use redis_sentinel_reconcile.Reconcile.Safety.Select.{select}
use redis_sentinel_reconcile.World.Keeps.{Keeps, Keeps-bind, Keeps-pure}
use redis_sentinel_reconcile.World.Leads.{Leads, Leads-bind, Leads-then, Leads-weaken, Leads-if_eq}
use redis_sentinel_reconcile.World.Steady.{
  is_read, Anyhow, Anyhow-IsLawful, IsSteady, Keeps-ask, Keeps-count,
}
use redis_sentinel_reconcile.World.{
  Env, Entry, sentinel_call, attempt, St, pure, ◌>>=◌, send, count, set_last_heal,
}

-- How far a heal has come.
pub data Phase : Type 0 where
  idle attempted removed monitored was_reset : Phase

-- A heal may end where it has not begun, or behind its MONITOR.
abbrev pub ends : Phase → Bool
ends attempted = false
ends removed = false
ends _ = true

-- The machine that a heal runs: which steps, the newest first, lead from `es` to a phase. MONITOR is
-- of an address that the oracle resolves to, and RESET is not sent for live_non_oracle.
pub data Trace (r : Resolver) (cfg : Config) (addr master_key : Text) (why : Reason)
    (es : List Entry) : Phase → List Entry → Type 0 where
  untouched : Trace r cfg addr master_key why es idle es
  attempts :
      (t : ℕ) (js : List Entry)
      → Trace r cfg addr master_key why es idle js
      → Trace r cfg addr master_key why es attempted (attempt t ∷ js)
  removes :
      (js : List Entry)
      → Trace r cfg addr master_key why es attempted js
      → Trace r cfg addr master_key why es removed
          (sentinel_call addr (remove cfg.master_name) ∷ js)
  monitors :
      (ip : Text) (port : ℤ) (js : List Entry)
      → endpoint_ip_port r master_key ≡ some (ip, port)
      → Trace r cfg addr master_key why es removed js
      → Trace r cfg addr master_key why es monitored
          (sentinel_call addr (monitor cfg.master_name ip port cfg.quorum) ∷ js)
  sets :
      (option value : Text) (js : List Entry)
      → Trace r cfg addr master_key why es monitored js
      → Trace r cfg addr master_key why es monitored
          (sentinel_call addr (set cfg.master_name option value) ∷ js)
  resets :
      (js : List Entry)
      → is_live_non_oracle why ≡ false
      → Trace r cfg addr master_key why es monitored js
      → Trace r cfg addr master_key why es was_reset
          (sentinel_call addr (reset cfg.master_name) ∷ js)

module _ {W : Type 0} (env : Env W) (cfg : Config) (c : Client) (master_key : Text) (why : Reason)
    (es : List Entry) where
  -- The steps of the journal have led to a phase.
  abbrev In : Phase → St W → Type 0
  In phase s = Trace env.resolver cfg c.addr master_key why es phase (select is_heal_step s.journal)

  abbrev Ended : St W → Type 0
  Ended s = (phase : Phase) × (ends phase ≡ true) × In phase s

  In-IsSteady : (phase : Phase) → IsSteady Anyhow is_read (In phase)
  unfolding select
  In-IsSteady phase = record {
    world = λ s w l h. h;
    metrics = λ s m h. h;
    journal = λ s e q h. rw q h;
  }

  rebind_auth-In : (kvs : List (Text × Text)) → Keeps (In monitored) (rebind_auth env cfg c kvs)
  unfolding rebind_auth send_set send select changes_sentinel
  rebind_auth-In [] = Keeps-pure _
  rebind_auth-In ((option, value) ∷ kvs) =
      Keeps-bind _ _ (record { at = λ s h. sets option value _ h }) λ e. rebind_auth-In kvs

  send_reset-In :
      is_live_non_oracle why ≡ false
      → Leads (In monitored) (In was_reset) (send_reset env c cfg.master_name)
  unfolding send_reset send select changes_sentinel
  send_reset-In sent = record { at = λ s h. resets _ sent h }

  replace_monitor-In :
      (ip : Text) (port : ℤ)
      → endpoint_ip_port env.resolver master_key ≡ some (ip, port)
      → Leads (In attempted) (In monitored) (replace_monitor env cfg c ip port)
  unfolding replace_monitor send_remove send_monitor send select ◌>>=◌ changes_sentinel
  replace_monitor-In ip port found = record { at = λ s h. monitors ip port _ found (removes _ h) }

  set_last_heal-In : (t : ℕ) → Leads (In idle) (In attempted) (set_last_heal t)
  unfolding set_last_heal select
  set_last_heal-In t = record { at = λ s h. attempts t _ h }

  count-Ended :
      (phase : Phase) (name : Text) → ends phase ≡ true → Leads (In phase) Ended (count name)
  count-Ended phase name e =
      Leads-weaken _ (Keeps-count (In-IsSteady phase) name) λ s h. (phase, e, h)

  reset_and_verify-Ended :
      is_live_non_oracle why ≡ false
      → Leads (In monitored) Ended (reset_and_verify env cfg c master_key)
  unfolding reset_and_verify
  reset_and_verify-Ended sent =
      let law = Anyhow-IsLawful env in
      let steady = In-IsSteady was_reset in
      Leads-then _ _ (send_reset-In sent) λ e.
        Leads-bind _ _ (Keeps-pause law steady (λ e r. r) cfg c master_key _) λ _.
          Leads-bind _ _ (Keeps-verify_heal law steady (λ e r. r) cfg c master_key) λ good.
            Leads-if_eq good _ _ (λ _. count-Ended was_reset _ refl)
              (λ _. count-Ended was_reset _ refl)

  after_monitor-Ended : Leads (In monitored) Ended (after_monitor env cfg c master_key why)
  unfolding after_monitor
  after_monitor-Ended =
      let law = Anyhow-IsLawful env in
      let steady = In-IsSteady monitored in
      Leads-bind _ _ (rebind_auth-In _) λ _.
        Leads-bind _ _ (Keeps-pause law steady (λ e r. r) cfg c master_key _) λ _.
          Leads-bind _ _ (Keeps-verify_heal law steady (λ e r. r) cfg c master_key) λ good.
            Leads-if_eq good _ _ (λ _. count-Ended monitored _ refl)
              λ _.
                Leads-if_eq (is_live_non_oracle why) _ _ (λ _. count-Ended monitored _ refl)
                  λ other. reset_and_verify-Ended other

  remove_monitor-Ended :
      (ip : Text) (port : ℤ)
      → endpoint_ip_port env.resolver master_key ≡ some (ip, port)
      → Leads (In attempted) Ended (remove_monitor env cfg c master_key ip port why)
  unfolding remove_monitor
  remove_monitor-Ended ip port found =
      Leads-then _ _ (replace_monitor-In ip port found) λ e.
        Leads-if_eq (is_none e) _ _ (λ _. after_monitor-Ended) λ _. count-Ended monitored _ refl

module _ {W : Type 0} (env : Env W) (cfg : Config) (c : Client) (master_key : Text)
    (es : List Entry) where
  -- The phase of a heal by its plan.
  abbrev At : ApplyHealPlan → Phase → St W → Type 0
  At plan = In env cfg c master_key plan.reason es

  abbrev Done : ApplyHealPlan → St W → Type 0
  Done plan = Ended env cfg c master_key plan.reason es

  after_attempt-Ended :
      (ip : Text) (port : ℤ) (plan : ApplyHealPlan)
      → is_failover plan.action ≡ false
      → endpoint_ip_port env.resolver master_key ≡ some (ip, port)
      → Leads (At plan attempted) (Done plan) (after_attempt env cfg c master_key ip port plan)
  unfolding after_attempt pure ◌>>=◌
  after_attempt-Ended ip port plan never found =
      let steady = In-IsSteady env cfg c master_key plan.reason es attempted in
      rw never (record {
        at = λ s h.
            (remove_monitor-Ended env cfg c master_key plan.reason es ip port found).at
              (count (codes "heal_attempt") s).1
              ((Keeps-count steady (codes "heal_attempt")).at s h);
      })

  carry_out-Ended :
      (ip : Text) (port : ℤ) (plan : ApplyHealPlan)
      → is_failover plan.action ≡ false
      → endpoint_ip_port env.resolver master_key ≡ some (ip, port)
      → Leads (At plan idle) (Done plan) (carry_out env cfg c master_key ip port plan)
  unfolding carry_out
  carry_out-Ended ip port plan never found =
      let steady = In-IsSteady env cfg c master_key plan.reason es idle in
      Leads-bind _ _ (Keeps-ask steady env.now (Anyhow-IsLawful env).now) λ t.
        Leads-then _ _ (set_last_heal-In env cfg c master_key plan.reason es t)
          λ _. after_attempt-Ended ip port plan never found

  follow-Ended :
      (plan : ApplyHealPlan)
      → is_failover plan.action ≡ false
      → Leads (At plan idle) (Done plan) (follow env cfg c master_key plan)
  unfolding follow
  follow-Ended plan never =
      let steady = In-IsSteady env cfg c master_key plan.reason es idle in
      Leads-if_eq (is_refuse plan.action) _ _
        (λ _.
          Leads-weaken _
            (Keeps-refuse_plan (Anyhow-IsLawful env) steady (λ e r. r) cfg c master_key plan.reason)
            λ s h. (idle, refl, h))
        λ _. elim (Option-cases (endpoint_ip_port env.resolver master_key)) [
          | inl missing ↦ rw missing (count-Ended env cfg c master_key plan.reason es idle _ refl)
          | inr ((ip, port), found) ↦ rw found (carry_out-Ended ip port plan never found)
        ]

-- A heal runs its machine: whatever is answered, its steps are none at all, or an attempt, REMOVE,
-- MONITOR of an address of the oracle, any SETs, and then RESET at most once, and not for
-- live_non_oracle; it never stops between the attempt and MONITOR.
pub heal_api-Trace :
    {W : Type 0} (env : Env W) (cfg : Config) (c : Client) (advertised master_key : Text)
    (nodes : List NodeResult) (flags : Text) (trap : Bool) (s : St W)
    → (phase : Phase) × (ends phase ≡ true)
      × Trace env.resolver cfg c.addr master_key
          (heal_plan env cfg advertised master_key nodes flags trap).reason
          (select is_heal_step s.journal)
          phase
          (select is_heal_step
            (heal_api env cfg c advertised master_key nodes flags trap s).1.journal)
unfolding heal_api
heal_api-Trace env cfg c advertised master_key nodes flags trap s =
    (follow-Ended env cfg c master_key _ (heal_plan env cfg advertised master_key nodes flags trap)
        (heal_plan-not_failover env cfg advertised master_key nodes flags trap)).at
      s untouched
