-- ===== src/Lease/Laws.antt =====
-- The lease belongs to whom it was granted.
use redis_sentinel_reconcile.Prelude.{
  Bool, true, false, [], Option, none, some, ◌≡◌, ◌⊎◌, inl, inr, refl, sym, ◌∙◌, arith, Bool-cases,
}
use redis_sentinel_reconcile.Prelude.Int.{ℤ}
use redis_sentinel_reconcile.Text.{Text, text_eq, is_empty}
use redis_sentinel_reconcile.Text.Laws.{text_eq_iff}
use redis_sentinel_reconcile.Redisconn.{Dial, Options}
use redis_sentinel_reconcile.Commands.{Reply, ok, err, set_nx}
use redis_sentinel_reconcile.Lease.{
  value_or_empty, resolve_holder, check_holder, after_set_nx, acquire_heal_lease, lease_key,
  lease_options, lease_ttl,
}
use redis_sentinel_reconcile.World.{Env, St, M, ◌>>=◌, pure, send, redis_call}

-- What is relied on of SET NX, GET and EXPIRE on one connection, while no key expires:
-- `value w k` is what key `k` holds.
pub record IsStore {W : Type 0} (env : Env W) (o : Options) (value : W → Text → Option Text)
    : Type 0 where
  pub set_nx :
      (k v : Text) (ttl : ℤ) (w : W)
      → (env.redis_set_nx o k v ttl w).0 ≡ ok true
      → (value w k ≡ none) × (value (env.redis_set_nx o k v ttl w).1 k ≡ some v)
  pub set_nx_taken :
      (k v : Text) (ttl : ℤ) (w : W)
      → (env.redis_set_nx o k v ttl w).0 ≡ ok false
      → value (env.redis_set_nx o k v ttl w).1 k ≡ value w k
  pub get :
      (k v : Text) (w : W)
      → (env.redis_get o k w).0 ≡ ok v
      → (value w k ≡ some v) × (value (env.redis_get o k w).1 k ≡ some v)
  pub expire : (k : Text) (ttl : ℤ) (w : W) → value (env.redis_expire o k ttl w).1 k ≡ value w k

-- A reply of GET that equals a name is that name.
held :
    (reply : Reply Text) (holder : Text)
    → is_empty holder ≡ false
    → text_eq (value_or_empty reply) holder ≡ true
    → reply ≡ ok holder
unfolding value_or_empty
held (err e) holder named same = ground (arith, named, same, text_eq_iff [] holder)
held (ok t) holder named same = ground (arith, same, text_eq_iff t holder)

-- Taking the lease on a connection.
abbrev take :
    {W : Type 0} (env : Env W) (addr : Text) (o : Options) (key holder : Text) (ttl : ℤ)
    → M W (Reply Bool)
take env addr o key holder ttl =
    send (redis_call addr (set_nx key holder ttl)) (env.redis_set_nx o key holder ttl)
    >>= after_set_nx env addr o key holder ttl

module _ {W : Type 0} (env : Env W) (addr : Text) (o : Options) (value : W → Text → Option Text)
    (store : IsStore env o value) (key holder : Text) (ttl : ℤ)
    (named : is_empty holder ≡ false) where
  check_holder-holds :
      (s : St W)
      → (check_holder env addr o key holder ttl s).0 ≡ ok true
      → value (check_holder env addr o key holder ttl s).1.world key ≡ some holder
  unfolding check_holder send ◌>>=◌ pure
  check_holder-holds s granted =
      let (cur, w) = env.redis_get o key s.world in
      elim (Bool-cases (text_eq (value_or_empty (env.redis_get o key s.world).0) holder)) [
        | inl same ↦
            rw same (
              store.expire key ttl w
              ∙ (store.get key holder s.world (held cur holder named same)).1)
        | inr other ↦ ground (arith, granted, other)
      ]

  check_holder-taken :
      (s : St W)
      → (check_holder env addr o key holder ttl s).0 ≡ ok true
      → value s.world key ≡ some holder
  unfolding check_holder send ◌>>=◌ pure
  check_holder-taken s granted =
      elim (Bool-cases (text_eq (value_or_empty (env.redis_get o key s.world).0) holder)) [
        | inl same ↦
            (store.get key holder s.world
              (held (env.redis_get o key s.world).0 holder named same)).0
        | inr other ↦ ground (arith, granted, other)
      ]

  -- A grant means that the key was free or ours, and is ours behind it.
  Granted : St W → Type 0
  Granted s =
      ((value s.world key ≡ none) ⊎ (value s.world key ≡ some holder))
      × (value (take env addr o key holder ttl s).1.world key ≡ some holder)

  after_set_nx-holds :
      (taken : Reply Bool) (s : St W)
      → (taken ≡ ok true → value s.world key ≡ some holder)
      → (after_set_nx env addr o key holder ttl taken s).0 ≡ ok true
      → value (after_set_nx env addr o key holder ttl taken s).1.world key ≡ some holder
  unfolding after_set_nx pure
  after_set_nx-holds (err e) s set granted = ground (arith, granted)
  after_set_nx-holds (ok true) s set granted = set refl
  after_set_nx-holds (ok false) s set granted = check_holder-holds s granted

  after_set_nx-free :
      (taken : Reply Bool) (s : St W) (before : Option Text)
      → (taken ≡ ok true → before ≡ none)
      → (taken ≡ ok false → value s.world key ≡ before)
      → (after_set_nx env addr o key holder ttl taken s).0 ≡ ok true
      → (before ≡ none) ⊎ (before ≡ some holder)
  unfolding after_set_nx pure
  after_set_nx-free (err e) s before free kept granted = ground (arith, granted)
  after_set_nx-free (ok true) s before free kept granted = inl (free refl)
  after_set_nx-free (ok false) s before free kept granted =
      inr (sym (kept refl) ∙ check_holder-taken s granted)

  take-Granted : (s : St W) → (take env addr o key holder ttl s).0 ≡ ok true → Granted s
  unfolding send ◌>>=◌ Granted
  take-Granted s granted = (
    after_set_nx-free _ _ _ (λ new. (store.set_nx key holder ttl s.world new).0)
        (store.set_nx_taken key holder ttl s.world) granted,
    after_set_nx-holds _ _ (λ new. (store.set_nx key holder ttl s.world new).1) granted,
  )

acquire_named :
    {W : Type 0} (env : Env W) (addr name holder : Text) (ttl : ℤ) (d : Dial) (s : St W)
    → is_empty holder ≡ false
    → acquire_heal_lease env addr name holder ttl d s
      ≡ take env addr (lease_options env.resolver addr d) (lease_key name) holder (lease_ttl ttl) s
unfolding acquire_heal_lease resolve_holder ◌>>=◌ pure
acquire_named env addr name holder ttl d s named = rw named refl

-- With SET NX, GET and EXPIRE as documented and no key expiring meanwhile, a lease is granted to a
-- named holder only if its key was free or held that name already, and then the key holds that
-- name.
pub acquire_heal_lease-exclusive :
    {W : Type 0} (env : Env W) (addr name holder : Text) (ttl : ℤ) (d : Dial)
    (value : W → Text → Option Text) (s : St W)
    → IsStore env (lease_options env.resolver addr d) value
    → is_empty holder ≡ false
    → (acquire_heal_lease env addr name holder ttl d s).0 ≡ ok true
    → ((value s.world (lease_key name) ≡ none) ⊎ (value s.world (lease_key name) ≡ some holder))
      × (value (acquire_heal_lease env addr name holder ttl d s).1.world (lease_key name)
          ≡ some holder)
unfolding Granted
acquire_heal_lease-exclusive env addr name holder ttl d value s store named granted =
    let same = acquire_named env addr name holder ttl d s named in
    rw same (
      take-Granted env addr _ value store (lease_key name) holder (lease_ttl ttl) named s
        (rw same at granted))
