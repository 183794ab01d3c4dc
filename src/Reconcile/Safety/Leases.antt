-- ===== src/Reconcile/Safety/Leases.antt =====
-- The leases that a run takes on Redis: which key, and for how long.
use redis_sentinel_reconcile.Prelude.{
  zero, suc, Bool, true, false, not, ◌&&◌, List, ◌++◌, ◌≡◌, refl, arith,
}
use redis_sentinel_reconcile.Prelude.Int.{ℤ, pos, negsuc, int_eq, int_eq_iff, is_positive}
use redis_sentinel_reconcile.Text.{Text, codes, text_eq}
use redis_sentinel_reconcile.Text.Laws.{text_eq_refl}
use redis_sentinel_reconcile.Commands.{set_nx, get, expire}
use redis_sentinel_reconcile.Redisconn.{timeout_or}
use redis_sentinel_reconcile.Lease.{lease_key, lease_ttl}
use redis_sentinel_reconcile.Reconcile.Config.{Config}
use redis_sentinel_reconcile.Reconcile.Tick.{run}
use redis_sentinel_reconcile.Reconcile.Tick.Heals.{QuietLease}
use redis_sentinel_reconcile.Reconcile.Safety.{Keeps-run-Selects}
use redis_sentinel_reconcile.Reconcile.Safety.Select.{select}
use redis_sentinel_reconcile.World.Steady.{is_read}
use redis_sentinel_reconcile.World.{Env, Entry, St, redis_call}

abbrev first_positive : ℤ → ℤ → ℤ
first_positive (pos (suc n)) d = pos (suc n)
first_positive (pos zero) d = d
first_positive (negsuc n) d = d

first_positive-positive : (z d : ℤ) → is_positive d ≡ true → is_positive (first_positive z d) ≡ true
first_positive-positive (pos (suc n)) d h = ground arith
first_positive-positive (pos zero) d h = h
first_positive-positive (negsuc n) d h = h

-- The lease's own time, or else the cooldown, or else 15 minutes.
abbrev pub lease_time : Config → ℤ
lease_time cfg =
    first_positive cfg.heal_lease_ttl (first_positive cfg.heal_cooldown (pos 900000000000))

abbrev pub is_lease : Config → Text → Bool
is_lease cfg key = text_eq key (codes "rsr:heal-lease:" ++ cfg.master_name)

-- Whether an entry reads or writes another key than the lease's, or lets it live for another time.
abbrev pub is_stray : Config → Entry → Bool
is_stray cfg (redis_call addr (set_nx key holder ttl)) =
    not (is_lease cfg key && int_eq ttl (lease_time cfg))
is_stray cfg (redis_call addr (get key)) = not (is_lease cfg key)
is_stray cfg (redis_call addr (expire key ttl)) =
    not (is_lease cfg key && int_eq ttl (lease_time cfg))
is_stray cfg _ = false

lease_ttl-positive :
    (ttl cooldown : ℤ)
    → lease_ttl (timeout_or cooldown ttl)
      ≡ first_positive ttl (first_positive cooldown (pos 900000000000))
unfolding lease_ttl timeout_or
lease_ttl-positive (pos (suc n)) cooldown = ground arith
lease_ttl-positive (pos zero) (pos (suc n)) = ground arith
lease_ttl-positive (pos zero) (pos zero) = refl
lease_ttl-positive (pos zero) (negsuc n) = refl
lease_ttl-positive (negsuc m) (pos (suc n)) = ground arith
lease_ttl-positive (negsuc m) (pos zero) = refl
lease_ttl-positive (negsuc m) (negsuc n) = refl

no_stray : (cfg : Config) (e : Entry) → is_read e ≡ true → not (is_stray cfg e) ≡ true
no_stray cfg e r = ground arith

own_lease : (cfg : Config) → QuietLease (λ e. not (is_stray cfg e)) cfg
unfolding lease_key
own_lease cfg addr holder =
    let key = text_eq_refl (lease_key cfg.master_name) in
    let ttl = lease_ttl-positive cfg.heal_lease_ttl cfg.heal_cooldown in
    let same = int_eq_iff (lease_time cfg) (lease_time cfg) in
    (ground (arith, key, ttl, same), ground (arith, key), ground (arith, key, ttl, same))

-- A run sends SET NX, GET and EXPIRE for the lease key of the configured master only, and each SET
-- NX and EXPIRE with a positive time to live: the lease's own, where that is not positive the
-- cooldown, and where neither is 15 minutes.
pub run-leases :
    {W : Type 0} (env : Env W) (cfg : Config) (s : St W) (waits : List ℤ)
    → (select (is_stray cfg) (run env cfg waits s).1.journal ≡ select (is_stray cfg) s.journal)
      × (is_positive (lease_time cfg) ≡ true)
run-leases env cfg s waits = (
  (Keeps-run-Selects (is_stray cfg) (no_stray cfg) (own_lease cfg) (λ t. refl)
        (λ c advertised master_key nodes h. ((λ option value. refl), refl, refl, (λ ip port. refl)))
        waits).at
      s refl,
  first_positive-positive cfg.heal_lease_ttl _
      (first_positive-positive cfg.heal_cooldown (pos 900000000000) refl),
)
