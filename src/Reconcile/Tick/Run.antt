-- ===== src/Reconcile/Tick/Run.antt =====
-- What a run of many ticks does to a property of the state, from what the commands of its heals do.
use redis_sentinel_reconcile.Prelude.{ℕ, Bool, true, List, [], ◌∷◌, ◌≡◌}
use redis_sentinel_reconcile.Prelude.Int.{ℤ}
use redis_sentinel_reconcile.Text.{Text}
use redis_sentinel_reconcile.Oracle.{NodeResult}
use redis_sentinel_reconcile.Sentinel.{Client, send_set, send_reset}
use redis_sentinel_reconcile.Reconcile.Config.{Config}
use redis_sentinel_reconcile.Reconcile.Heal.{pause, replace_monitor}
use redis_sentinel_reconcile.Reconcile.Tick.{apply_heal, clients_of, run_waits, run}
use redis_sentinel_reconcile.Reconcile.Tick.Heals.{QuietLease, Keeps-apply_heal}
use redis_sentinel_reconcile.Reconcile.Tick.Steady.{HealCase, Keeps-tick}
use redis_sentinel_reconcile.World.Keeps.{Keeps, Keeps-bind, Keeps-pure, Keeps-if}
use redis_sentinel_reconcile.World.Steady.{is_read, IsLawful, IsSteady, Keeps-ask}
use redis_sentinel_reconcile.World.{Env, Entry, St, set_last_heal}

module _ {W : Type 0} {env : Env W} {Later : W → W → Type 0} {quiet : Entry → Bool}
    {P : St W → Type 0} (law : IsLawful env Later) (steady : IsSteady Later quiet P)
    (reads : (e : Entry) → is_read e ≡ true → quiet e ≡ true) (cfg : Config) where
  module _
      (heal : (c : Client) (advertised master_key : Text) (nodes : List NodeResult) (trap : Bool)
        → HealCase env cfg (clients_of env cfg cfg.sentinel_addrs) c advertised master_key nodes
        → Keeps P (apply_heal env cfg c advertised master_key nodes trap)) where
    Keeps-run_waits : (waits : List ℤ) → Keeps P (run_waits env cfg waits)
    unfolding run_waits pause
    Keeps-run_waits [] = Keeps-pure _
    Keeps-run_waits (wait ∷ waits) =
        Keeps-bind _ _ (Keeps-ask steady _ (law.sleep wait))
          λ _. Keeps-bind _ _ (Keeps-tick law steady reads cfg heal) λ _. Keeps-run_waits waits

    pub Keeps-run : (waits : List ℤ) → Keeps P (run env cfg waits)
    unfolding run
    Keeps-run waits =
        Keeps-bind _ _ (Keeps-tick law steady reads cfg heal)
          λ _. Keeps-if cfg.once _ _ (Keeps-pure _) (Keeps-run_waits waits)

  module _ (redis : QuietLease quiet cfg) (attempts : (t : ℕ) → Keeps P (set_last_heal t)) where
    -- What the commands of every heal keep is kept by a run.
    pub Keeps-run_heals :
        ((c : Client) (advertised master_key : Text) (nodes : List NodeResult)
          → HealCase env cfg (clients_of env cfg cfg.sentinel_addrs) c advertised master_key nodes
          → ((option value : Text) → Keeps P (send_set env c cfg.master_name option value))
            × Keeps P (send_reset env c cfg.master_name)
            × ((ip : Text) (port : ℤ) → Keeps P (replace_monitor env cfg c ip port)))
        → (waits : List ℤ) → Keeps P (run env cfg waits)
    Keeps-run_heals commands = Keeps-run λ c advertised master_key nodes trap h.
        let (set, reset, replace) = commands c advertised master_key nodes h in
        Keeps-apply_heal law steady reads cfg redis c master_key set reset attempts
          (λ ip port found. replace ip port) advertised nodes trap
