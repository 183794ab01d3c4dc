-- ===== src/Reconcile/Tick/Monitors.antt =====
-- A difference of the ads and the oracle comes to a heal: what lies between the two.
use mathlib.Core.List.{Memᴰ}
use redis_sentinel_reconcile.Prelude.{
  Bool, true, false, List, some, ◌≡◌, ◌⊎◌, inl, inr, any, if◌then◌else◌,
}
use redis_sentinel_reconcile.Prelude.Int.{ℤ}
use redis_sentinel_reconcile.Text.{Text, codes}
use redis_sentinel_reconcile.Net.{endpoint_ip_port, same_redis_endpoint, sprint_addr}
use redis_sentinel_reconcile.Oracle.{NodeResult, classify_writable}
use redis_sentinel_reconcile.Redisconn.{timeout_or}
use redis_sentinel_reconcile.Metrics.{note_diverged}
use redis_sentinel_reconcile.Commands.{Reply, ok, err, monitor}
use redis_sentinel_reconcile.HealPlan.Laws.{at_oracle, replica_at_ad, writable_at_ad}
use redis_sentinel_reconcile.Sentinel.{Client, get_info}
use redis_sentinel_reconcile.Lease.{acquire_heal_lease}
use redis_sentinel_reconcile.Reconcile.Config.{Config, redis_dial}
use redis_sentinel_reconcile.Reconcile.Guards.{preflight_apply}
use redis_sentinel_reconcile.Reconcile.Heal.{heal_api}
use redis_sentinel_reconcile.Reconcile.Heal.Monitors.{heal_api-monitors}
use redis_sentinel_reconcile.Reconcile.Nodes.{reply_flags}
use redis_sentinel_reconcile.Reconcile.Tick.{
  after_lease, with_lease, apply_heal, diverge, check_diverge,
}
use redis_sentinel_reconcile.World.{Env, sentinel_call, St, M, ◌>>=◌, count, on_metrics}

module _ {W A : Type 0} (P : St W → Type 0) where
  if_yes : (b : Bool) (m n : M W A) (s : St W) → b ≡ true → P (m s).1 → P ((if b then m else n) s).1
  if_yes true m n s e h = h
  if_yes false m n s e h = absurd (cc)

  if_no : (b : Bool) (m n : M W A) (s : St W) → b ≡ false → P (n s).1 → P ((if b then m else n) s).1
  if_no true m n s e h = absurd (cc)
  if_no false m n s e h = h

  if_either :
      (b : Bool) (m n : M W A) (s : St W) → P (m s).1 → P (n s).1 → P ((if b then m else n) s).1
  if_either true m n s h k = h
  if_either false m n s h k = k

module _ {W : Type 0} (env : Env W) (cfg : Config) (c : Client) (master_key : Text) where
  -- The state in which the Sentinel is asked for its flags, and what it answers.
  abbrev pub noted : St W → St W
  noted s = (on_metrics note_diverged (count (codes "diverge") s).1).1

  abbrev pub flags_at : St W → Text
  flags_at s = reply_flags (get_info env c cfg.master_name (noted s)).0

  -- The guards, in the state that they are asked in.
  abbrev pub guards_at : List NodeResult → St W → Bool × St W
  guards_at nodes s =
      preflight_apply env cfg (flags_at s) nodes (get_info env c cfg.master_name (noted s)).1

  -- The lease, in the state that it is asked for in.
  abbrev pub lease_at : St W → Reply Bool × St W
  lease_at =
      acquire_heal_lease env master_key cfg.master_name cfg.lease_holder
        (timeout_or cfg.heal_cooldown cfg.heal_lease_ttl) (redis_dial cfg)

  after_lease-holds :
      (P : St W → Type 0) (heal : M W Unit) (r : Reply Bool) (s : St W)
      → r ≡ ok true
      → ((s' : St W) → P (heal s').1)
      → P (after_lease env cfg heal r s).1
  unfolding after_lease ◌>>=◌
  after_lease-holds P heal (err e) s taken h = absurd (cc)
  after_lease-holds P heal (ok false) s taken h = absurd (cc)
  after_lease-holds P heal (ok true) s taken h = h _

  with_lease-holds :
      (P : St W → Type 0) (heal : M W Unit) (s : St W)
      → (cfg.heal_lease ≡ false) ⊎ ((lease_at s).0 ≡ ok true)
      → ((s' : St W) → P (heal s').1)
      → P (with_lease env cfg master_key heal s).1
  unfolding with_lease ◌>>=◌
  with_lease-holds P heal s (inl off) h = if_no P cfg.heal_lease _ heal s off (h s)
  with_lease-holds P heal s (inr taken) h =
      if_either P cfg.heal_lease _ heal s
        (after_lease-holds P heal (lease_at s).0 (lease_at s).1 taken h) (h s)

  -- When --apply is given, the Sentinel advertises another node than the oracle, the guards pass, and
  -- the lease is off or granted, then, with the probed nodes of one writable master, the oracle among
  -- their masters and replicas, an advertised node that is a replica or no writable master, and an
  -- address of the oracle that resolves, the Sentinel is sent a MONITOR of that address, whatever is
  -- answered to the heal.
  pub check_diverge-monitors :
      (host : Text) (advertised_port : ℤ) (nodes : List NodeResult) (trap : Bool) (ip : Text)
      (port : ℤ) (s : St W)
      → cfg.apply ≡ true
      → same_redis_endpoint env.resolver (sprint_addr host advertised_port) master_key ≡ false
      → (guards_at nodes s).0 ≡ true
      → (cfg.heal_lease ≡ false) ⊎ ((lease_at (guards_at nodes s).1).0 ≡ ok true)
      → (classify_writable env.resolver nodes).1 ≡ 1
      → any (at_oracle env.resolver (sprint_addr host advertised_port) master_key) nodes ≡ true
      → (any (replica_at_ad env.resolver (sprint_addr host advertised_port) master_key) nodes
          ≡ true)
        ⊎ (any (writable_at_ad env.resolver (sprint_addr host advertised_port) master_key) nodes
            ≡ false)
      → endpoint_ip_port env.resolver master_key ≡ some (ip, port)
      → Memᴰ
          (sentinel_call c.addr (monitor cfg.master_name ip port cfg.quorum))
          (check_diverge env cfg master_key nodes trap (c, ok (host, advertised_port)) s).1.journal
  unfolding check_diverge diverge apply_heal ◌>>=◌
  check_diverge-monitors host advertised_port nodes trap ip port s applies apart pass lease single
        seen stale found =
      let advertised = sprint_addr host advertised_port in
      let P = λ (s' : St W).
        Memᴰ (sentinel_call c.addr (monitor cfg.master_name ip port cfg.quorum)) s'.journal in
      let heal = heal_api env cfg c advertised master_key nodes (flags_at s) trap in
      if_no P (same_redis_endpoint env.resolver advertised master_key) _
        (diverge env cfg c advertised master_key nodes trap) s apart
        (if_yes P cfg.apply (apply_heal env cfg c advertised master_key nodes trap) _ (noted s)
          applies
          (if_yes P (guards_at nodes s).0 (with_lease env cfg master_key heal) _
            (guards_at nodes s).1 pass
            (with_lease-holds P heal (guards_at nodes s).1 lease λ s'.
              heal_api-monitors env cfg c master_key advertised nodes (flags_at s) trap ip port s'
                apart single seen stale found)))
