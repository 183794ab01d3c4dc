-- ===== src/Reconcile/Safety.antt =====
-- What a run of internal/reconcile/reconcile.go never does, whatever Sentinel, Redis and the clock
-- answer: the journal of the run against the journal before it.
pub mod Select
pub mod Replace
pub mod Target
pub mod Protocol
pub mod Leases
use redis_sentinel_reconcile.Prelude.{
  ℕ, Bool, true, false, not, ◌&&◌, List, [], ◌∷◌, ◌≡◌, ◌≢◌, refl, sym, ap, ◌∙◌, arith, leb,
  if◌then◌else◌,
}
use redis_sentinel_reconcile.Prelude.Int.{ℤ}
use redis_sentinel_reconcile.Text.{Text, text_eq}
use redis_sentinel_reconcile.Text.Laws.{text_eq_iff}
use redis_sentinel_reconcile.Commands.{
  SentinelCommand, RedisCommand, failover, changes_sentinel, set, reset, remove, monitor,
}
use redis_sentinel_reconcile.Oracle.{NodeResult, classify_writable}
use redis_sentinel_reconcile.Sentinel.{
  Client, new_client, send_set, send_reset, send_remove, send_monitor,
}
use redis_sentinel_reconcile.Reconcile.Config.{Config, sentinel_dial}
use redis_sentinel_reconcile.Reconcile.Heal.{replace_monitor}
use redis_sentinel_reconcile.Reconcile.Nodes.{View, oracle_nodes}
use redis_sentinel_reconcile.Reconcile.Tick.{classify, clients_of, run}
use redis_sentinel_reconcile.Reconcile.Tick.Run.{Keeps-run, Keeps-run_heals}
use redis_sentinel_reconcile.Reconcile.Tick.Heals.{QuietLease}
use redis_sentinel_reconcile.Reconcile.Tick.Steady.{HealCase}
use redis_sentinel_reconcile.Reconcile.Tick.Reads.{Keeps-classify_idle}
use redis_sentinel_reconcile.Reconcile.Safety.Select.{select, Selects, Selects-IsSteady}
use redis_sentinel_reconcile.World.Keeps.{Keeps, Keeps-bind}
use redis_sentinel_reconcile.World.Steady.{
  is_read, Anyhow, Anyhow-IsLawful, Keeps-send, Keeps-set_last_heal,
}
use redis_sentinel_reconcile.World.{Env, Entry, sentinel_call, redis_call, attempt, St}

-- Whether an entry is a SENTINEL FAILOVER.
abbrev pub is_failover_sent : Entry → Bool
is_failover_sent (sentinel_call addr (failover name)) = true
is_failover_sent _ = false

-- Whether an entry is a step of a heal: a change of a Sentinel, a lease command, or an attempt.
abbrev pub is_heal_step : Entry → Bool
is_heal_step e = not (is_read e)

-- Whether an entry changes a Sentinel that is not the one at `addr`.
abbrev pub changes_other : Text → Entry → Bool
changes_other addr (sentinel_call a cmd) = changes_sentinel cmd && not (text_eq a addr)
changes_other addr _ = false

not_failover : (e : Entry) → is_read e ≡ true → not (is_failover_sent e) ≡ true
unfolding changes_sentinel
not_failover e r = ground arith

pub not_other : (addr : Text) (e : Entry) → is_read e ≡ true → not (changes_other addr e) ≡ true
not_other addr e r = ground arith

-- Under --local-sentinel the client of a heal is that of the first address.
local_addr :
    {W : Type 0} (env : Env W) (cfg : Config) (a : Text) (rest : List Text) (c : Client)
    (cs : List Client)
    → clients_of env cfg (a ∷ rest) ≡ c ∷ cs
    → c.addr ≡ a
unfolding clients_of new_client sentinel_dial
local_addr env cfg a rest c cs same = ground arith

own_change :
    (a addr : Text) (cmd : SentinelCommand)
    → addr ≡ a
    → not (changes_other a (sentinel_call addr cmd)) ≡ true
own_change a addr cmd same = ground (arith, text_eq_iff addr a)

-- A run keeps the selected part of the journal when no command of a heal is selected.
module _ {W : Type 0} {env : Env W} {cfg : Config} (p : Entry → Bool) {es : List Entry}
    (reads : (e : Entry) → is_read e ≡ true → not (p e) ≡ true)
    (redis : QuietLease (λ e. not (p e)) cfg)
    (attempts : (t : ℕ) → not (p (attempt t)) ≡ true) where
  pub Keeps-run-Selects :
      ((c : Client) (advertised master_key : Text) (nodes : List NodeResult)
        → HealCase env cfg (clients_of env cfg cfg.sentinel_addrs) c advertised master_key nodes
        → ((option value : Text)
            → not (p (sentinel_call c.addr (set cfg.master_name option value))) ≡ true)
          × (not (p (sentinel_call c.addr (reset cfg.master_name))) ≡ true)
          × (not (p (sentinel_call c.addr (remove cfg.master_name))) ≡ true)
          × ((ip : Text) (port : ℤ)
              → not (p (sentinel_call c.addr (monitor cfg.master_name ip port cfg.quorum))) ≡ true))
      → (waits : List ℤ) → Keeps (Selects p es) (run env cfg waits)
  unfolding send_set send_reset send_remove send_monitor replace_monitor
  Keeps-run-Selects commands =
      let law = Anyhow-IsLawful env in
      let steady = Selects-IsSteady p es in
      Keeps-run_heals law steady reads cfg redis
        (Keeps-set_last_heal λ s t h. steady.journal s (attempt t) (attempts t) h)
        λ c advertised master_key nodes h.
          let (set_, reset_, remove_, monitor_) = commands c advertised master_key nodes h in
          (
            (λ option value. Keeps-send steady _ _ (set_ option value) (λ w. tt)),
            Keeps-send steady _ _ reset_ (λ w. tt),
            λ ip port.
                Keeps-bind _ _ (Keeps-send steady _ _ remove_ (λ w. tt))
                  λ _. Keeps-send steady _ _ (monitor_ ip port) (λ w. tt),
          )

module _ {W : Type 0} (env : Env W) (cfg : Config) (s : St W) where
  -- A run without --apply takes no lease, changes no Sentinel, and attempts no heal.
  pub run-dry_run :
      (waits : List ℤ)
      → cfg.apply ≡ false
      → select is_heal_step (run env cfg waits s).1.journal ≡ select is_heal_step s.journal
  run-dry_run waits dry =
      (Keeps-run (Anyhow-IsLawful env) (Selects-IsSteady is_heal_step _) (λ e r. rw r) cfg
          (λ c advertised master_key nodes trap h. absurd (cc (h.applying))) waits).at
        s refl

  -- A run never sends SENTINEL FAILOVER.
  pub run-no_failover :
      (waits : List ℤ)
      → select is_failover_sent (run env cfg waits s).1.journal ≡ select is_failover_sent s.journal
  run-no_failover waits =
      (Keeps-run-Selects is_failover_sent not_failover (λ addr holder. (refl, refl, refl))
          (λ t. refl)
          (λ c advertised master_key nodes h.
            ((λ option value. refl), refl, refl, (λ ip port. refl)))
          waits).at
        s refl

  -- Under --local-sentinel a run changes no Sentinel but the first of the addresses.
  pub run-local_sentinel :
      (a : Text) (rest : List Text) (waits : List ℤ)
      → cfg.local_sentinel ≡ true
      → cfg.sentinel_addrs ≡ a ∷ rest
      → select (changes_other a) (run env cfg waits s).1.journal
        ≡ select (changes_other a) s.journal
  run-local_sentinel a rest waits local addrs =
      (Keeps-run-Selects (changes_other a) (not_other a) (λ addr holder. (refl, refl, refl))
          (λ t. refl)
          (λ c advertised master_key nodes h.
            let (cs, same) = h.local local in
            let here =
              local_addr env cfg a rest c cs (ap (clients_of env cfg) (sym addrs) ∙ same) in
            let own = λ (cmd : SentinelCommand). own_change a c.addr cmd here in
            ((λ option value. own _), own _, own _, (λ ip port. own _)))
          waits).at
        s refl

  -- Unless exactly one of the nodes that count is a writable master, what follows the probes takes
  -- no lease, changes no Sentinel, and attempts no heal.
  pub classify-one_writable :
      (clients : List Client) (views : List View) (nodes : List NodeResult)
      → (classify_writable env.resolver (oracle_nodes env.resolver cfg nodes)).1 ≢ 1
      → select is_heal_step (classify env cfg clients views nodes s).1.journal
        ≡ select is_heal_step s.journal
  classify-one_writable clients views nodes idle =
      (Keeps-classify_idle (Anyhow-IsLawful env) (Selects-IsSteady is_heal_step _) (λ e r. rw r) cfg
          clients views nodes idle).at
        s refl
