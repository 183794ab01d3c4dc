-- ===== src/Lease.antt =====
-- internal/reconcile/lease.go: the heal lease on the writable Redis.
pub mod Steady
pub mod Laws
use redis_sentinel_reconcile.Prelude.{
  ℕ, Bool, true, false, List, [], ◌∷◌, ◌++◌, Option, none, some, if◌then◌else◌,
}
use redis_sentinel_reconcile.Prelude.Int.{ℤ}
use redis_sentinel_reconcile.Text.{Text, codes, text_eq, is_empty}
use redis_sentinel_reconcile.Text.Decimal.{itoa}
use redis_sentinel_reconcile.Net.{Resolver}
use redis_sentinel_reconcile.Oracle.{Err}
use redis_sentinel_reconcile.Redisconn.{Dial, Options, client, seconds, timeout_or}
use redis_sentinel_reconcile.Commands.{set_nx, get, expire, Reply, ok, err}
use redis_sentinel_reconcile.World.{Env, redis_call, M, pure, ◌>>=◌, ◌>>◌, send, ask}

unfoldable pub lease_key : Text → Text
lease_key master_name = codes "rsr:heal-lease:" ++ master_name

unfoldable pub lease_ttl : ℤ → ℤ
lease_ttl ttl = timeout_or (seconds 900) ttl

-- The client that the lease is taken with.
unfoldable pub lease_options : Resolver → Text → Dial → Options
lease_options r oracle_addr dial =
    client r (record dial { addr = oracle_addr; timeout = timeout_or (seconds 2) dial.timeout })

-- The value of a reply, or "" with its error dropped.
value_or_empty : Reply Text → Text
value_or_empty (err e) = []
value_or_empty (ok t) = t

module _ {W : Type 0} (env : Env W) where
  -- The holder given, the host's name, or a text made from the process id.
  unfoldable pub resolve_holder : Text → M W Text
  resolve_holder holder =
      if is_empty holder
      then (do
        h ← ask env.hostname
        if is_empty h then (do p ← ask env.getpid; pure (codes "pid-" ++ itoa p)) else pure h)
      else pure holder

  -- SET NX found the key taken: the lease is ours if its value is our name.
  unfoldable pub check_holder : Text → Options → Text → Text → ℤ → M W (Reply Bool)
  unfolding value_or_empty
  check_holder addr options key holder ttl = do
    cur ← send (redis_call addr (get key)) (env.redis_get options key)
    if text_eq (value_or_empty cur) holder
        then (do
          send (redis_call addr (expire key ttl)) (env.redis_expire options key ttl)
          pure (ok true))
        else pure (ok false)

  unfoldable pub after_set_nx : Text → Options → Text → Text → ℤ → Reply Bool → M W (Reply Bool)
  unfolding check_holder
  after_set_nx addr options key holder ttl (err e) = pure (err e)
  after_set_nx addr options key holder ttl (ok true) = pure (ok true)
  after_set_nx addr options key holder ttl (ok false) = check_holder addr options key holder ttl

  unfoldable pub acquire_heal_lease : Text → Text → Text → ℤ → Dial → M W (Reply Bool)
  unfolding resolve_holder after_set_nx lease_key lease_ttl lease_options
  acquire_heal_lease oracle_addr master_name holder ttl dial = do
    name ← resolve_holder holder
    let key = lease_key master_name
    let options = lease_options env.resolver oracle_addr dial
    taken ←
        send (redis_call oracle_addr (set_nx key name (lease_ttl ttl)))
          (env.redis_set_nx options key name (lease_ttl ttl))
    after_set_nx oracle_addr options key name (lease_ttl ttl) taken
