-- ===== src/Reconcile/Tick/Heals.antt =====
-- What an apply does to a property of the state, from what the commands of a heal do.
use redis_sentinel_reconcile.Prelude.{ℕ, Bool, true, false, List, some, ◌≡◌}
use redis_sentinel_reconcile.Prelude.Int.{ℤ}
use redis_sentinel_reconcile.Text.{Text}
use redis_sentinel_reconcile.Net.{endpoint_ip_port}
use redis_sentinel_reconcile.Oracle.{NodeResult}
use redis_sentinel_reconcile.Commands.{Reply, ok, err}
use redis_sentinel_reconcile.Sentinel.{Client, send_set, send_reset}
use redis_sentinel_reconcile.Sentinel.Steady.{Keeps-get_info}
use redis_sentinel_reconcile.Lease.Steady.{AreQuiet, Keeps-acquire_heal_lease}
use redis_sentinel_reconcile.Lease.{lease_key, lease_ttl}
use redis_sentinel_reconcile.Redisconn.{timeout_or}
use redis_sentinel_reconcile.Reconcile.Config.{Config}
use redis_sentinel_reconcile.Reconcile.Guards.Steady.{Keeps-refuse_apply, Keeps-preflight_apply}
use redis_sentinel_reconcile.Reconcile.Heal.{replace_monitor}
use redis_sentinel_reconcile.Reconcile.Heal.Steady.{Keeps-heal_api}
use redis_sentinel_reconcile.Reconcile.Tick.{after_lease, with_lease, apply_heal}
use redis_sentinel_reconcile.World.Keeps.{Keeps, Keeps-bind, Keeps-pure, Keeps-if}
use redis_sentinel_reconcile.World.Steady.{is_read, IsLawful, IsSteady, Keeps-count}
use redis_sentinel_reconcile.World.{Env, Entry, St, M, set_last_heal}

-- The commands of the lease of a config are quiet.
abbrev pub QuietLease : (Entry → Bool) → Config → Type 0
QuietLease quiet cfg =
    AreQuiet quiet (lease_key cfg.master_name)
      (lease_ttl (timeout_or cfg.heal_cooldown cfg.heal_lease_ttl))

module _ {W : Type 0} {env : Env W} {Later : W → W → Type 0} {quiet : Entry → Bool}
    {P : St W → Type 0} (law : IsLawful env Later) (steady : IsSteady Later quiet P)
    (reads : (e : Entry) → is_read e ≡ true → quiet e ≡ true) (cfg : Config)
    (redis : QuietLease quiet cfg) where
  Keeps-after_lease :
      (heal : M W Unit) (taken : Reply Bool)
      → Keeps P heal
      → Keeps P (after_lease env cfg heal taken)
  unfolding after_lease
  Keeps-after_lease heal (err e) k = Keeps-refuse_apply law steady reads _
  Keeps-after_lease heal (ok false) k = Keeps-refuse_apply law steady reads _
  Keeps-after_lease heal (ok true) k = Keeps-bind _ _ (Keeps-count steady _) λ _. k

  pub Keeps-with_lease :
      (master_key : Text) (heal : M W Unit)
      → Keeps P heal
      → Keeps P (with_lease env cfg master_key heal)
  unfolding with_lease
  Keeps-with_lease master_key heal k =
      Keeps-if cfg.heal_lease _ _
        (Keeps-bind _ _ (Keeps-acquire_heal_lease law steady master_key _ _ _ _ redis)
          λ taken. Keeps-after_lease heal taken k)
        k

  module _ (c : Client) (master_key : Text)
      (set : (option value : Text) → Keeps P (send_set env c cfg.master_name option value))
      (reset : Keeps P (send_reset env c cfg.master_name))
      (attempts : (t : ℕ) → Keeps P (set_last_heal t))
      (replace : (ip : Text) (port : ℤ)
        → endpoint_ip_port env.resolver master_key ≡ some (ip, port)
        → Keeps P (replace_monitor env cfg c ip port)) where
    pub Keeps-apply_heal :
        (advertised : Text) (nodes : List NodeResult) (trap : Bool)
        → Keeps P (apply_heal env cfg c advertised master_key nodes trap)
    unfolding apply_heal
    Keeps-apply_heal advertised nodes trap =
        Keeps-bind _ _ (Keeps-get_info law steady reads c _) λ info.
          Keeps-bind _ _ (Keeps-preflight_apply law steady reads cfg _ nodes) λ allowed.
            Keeps-if allowed _ _
              (Keeps-with_lease master_key _ (
                Keeps-heal_api law steady reads cfg c master_key set reset attempts advertised nodes
                  _ trap replace))
              (Keeps-pure _)
