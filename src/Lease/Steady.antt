-- ===== src/Lease/Steady.antt =====
-- The lease is taken on Redis only.
use redis_sentinel_reconcile.Prelude.{Bool, true, false, ◌≡◌}
use redis_sentinel_reconcile.Prelude.Int.{ℤ}
use redis_sentinel_reconcile.Text.{Text, text_eq, is_empty}
use redis_sentinel_reconcile.Redisconn.{Dial, Options}
use redis_sentinel_reconcile.Commands.{set_nx, get, expire, Reply, ok, err}
use redis_sentinel_reconcile.Lease.{
  lease_key, lease_ttl, value_or_empty, resolve_holder, check_holder, after_set_nx,
  acquire_heal_lease,
}
use redis_sentinel_reconcile.World.Keeps.{Keeps, Keeps-bind, Keeps-pure, Keeps-if}
use redis_sentinel_reconcile.World.Steady.{IsLawful, IsSteady, Keeps-ask, Keeps-send}
use redis_sentinel_reconcile.World.{Env, Entry, St, redis_call}

-- The commands of a lease with that key and that time to live are quiet.
abbrev pub AreQuiet : (Entry → Bool) → Text → ℤ → Type 0
AreQuiet quiet key ttl =
    (addr holder : Text)
    → (quiet (redis_call addr (set_nx key holder ttl)) ≡ true)
      × (quiet (redis_call addr (get key)) ≡ true)
      × (quiet (redis_call addr (expire key ttl)) ≡ true)

module _ {W : Type 0} {env : Env W} {Later : W → W → Type 0} {quiet : Entry → Bool}
    {P : St W → Type 0} (law : IsLawful env Later) (steady : IsSteady Later quiet P) where
  Keeps-resolve_holder : (holder : Text) → Keeps P (resolve_holder env holder)
  unfolding resolve_holder
  Keeps-resolve_holder holder =
      Keeps-if (is_empty holder) _ _
        (Keeps-bind _ _ (Keeps-ask steady env.hostname law.hostname) λ h.
          Keeps-if (is_empty h) _ _
            (Keeps-bind _ _ (Keeps-ask steady env.getpid law.getpid) λ p. Keeps-pure _)
            (Keeps-pure _))
        (Keeps-pure _)

  Keeps-check_holder :
      (addr : Text) (o : Options) (key holder : Text) (ttl : ℤ)
      → AreQuiet quiet key ttl
      → Keeps P (check_holder env addr o key holder ttl)
  unfolding check_holder
  Keeps-check_holder addr o key holder ttl redis =
      Keeps-bind _ _ (Keeps-send steady _ _ (redis addr holder).1 (law.redis_get _ _)) λ cur.
        Keeps-if (text_eq (value_or_empty cur) holder) _ _
          (Keeps-bind _ _ (Keeps-send steady _ _ (redis addr holder).2 (law.redis_expire _ _ _))
            λ e. Keeps-pure _)
          (Keeps-pure _)

  Keeps-after_set_nx :
      (addr : Text) (o : Options) (key holder : Text) (ttl : ℤ) (taken : Reply Bool)
      → AreQuiet quiet key ttl
      → Keeps P (after_set_nx env addr o key holder ttl taken)
  unfolding after_set_nx
  Keeps-after_set_nx addr o key holder ttl (err e) redis = Keeps-pure _
  Keeps-after_set_nx addr o key holder ttl (ok true) redis = Keeps-pure _
  Keeps-after_set_nx addr o key holder ttl (ok false) redis =
      Keeps-check_holder addr o key holder ttl redis

  pub Keeps-acquire_heal_lease :
      (addr name holder : Text) (ttl : ℤ) (d : Dial)
      → AreQuiet quiet (lease_key name) (lease_ttl ttl)
      → Keeps P (acquire_heal_lease env addr name holder ttl d)
  unfolding acquire_heal_lease
  Keeps-acquire_heal_lease addr name holder ttl d redis =
      Keeps-bind _ _ (Keeps-resolve_holder holder) λ who.
        Keeps-bind _ _ (Keeps-send steady _ _ (redis addr who).0 (law.redis_set_nx _ _ _ _))
          λ taken. Keeps-after_set_nx addr _ _ who _ taken redis
