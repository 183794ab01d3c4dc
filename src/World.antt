-- ===== src/World.antt =====
-- What the process touches: the connections (github.com/redis/go-redis), the clock, the host's name
-- and the order in which a Go map is ranged over, as operations on a world `W` that answers as it
-- likes. The state beside it is that of a Reconciler and a journal of what was sent and alerted.

pub mod Keeps
pub mod Steady
pub mod Leads
use redis_sentinel_reconcile.Prelude.{ℕ, Bool, true, false, List, [], ◌∷◌, Option, none, some}
use redis_sentinel_reconcile.Prelude.Int.{ℤ}
use redis_sentinel_reconcile.Text.{Text}
use redis_sentinel_reconcile.Net.{Resolver}
use redis_sentinel_reconcile.Oracle.{Err}
use redis_sentinel_reconcile.Redisconn.{Options}
use redis_sentinel_reconcile.HealPlan.{Reason}
use redis_sentinel_reconcile.Metrics
use redis_sentinel_reconcile.Metrics.{Metrics}
use redis_sentinel_reconcile.Commands.{
  SentinelCommand, RedisCommand, Arg, Reply, Scalar, Value, wire, role, info, set_probe, set_nx,
  get, expire,
}

-- Name resolution is taken to be stable while the process runs; all other answers may change.
pub record Env (W : Type 0) : Type 0 where
  pub resolver : Resolver
  -- rdb.Do(...).StringSlice(), .Slice() and .Err() on a Sentinel connection
  pub do_string_slice : Options → List Arg → W → Reply (List Text) × W
  pub do_slice : Options → List Arg → W → Reply (List Value) × W
  pub do_err : Options → List Arg → W → Option Err × W
  -- ROLE, INFO, SET, SET NX, GET and EXPIRE on a Redis connection
  pub redis_role : Options → W → Reply (List Scalar) × W
  pub redis_info : Options → Text → W → Reply Text × W
  pub redis_set : Options → Text → ℕ → ℤ → W → Option Err × W
  pub redis_set_nx : Options → Text → Text → ℤ → W → Reply Bool × W
  pub redis_get : Options → Text → W → Reply Text × W
  pub redis_expire : Options → Text → ℤ → W → Option Err × W
  -- time.Now in nanoseconds, time.Now().Unix(), time.Sleep, os.Hostname and os.Getpid
  pub now : W → ℕ × W
  pub unix : W → ℕ × W
  pub sleep : ℤ → W → W
  pub hostname : W → Text × W
  pub getpid : W → ℤ × W
  pub range_order : List Text → W → List Text × W

-- Why an apply was refused.
pub data Refusal : Type 0 where
  apply_requires_local_sentinel failover_in_progress heal_cooldown : Refusal
  partition_suspect_few_reachable_redis heal_lease_error heal_lease_held : Refusal
  plan_refused : Reason → Refusal

-- The ALERT lines of the log.
pub data Alert : Type 0 where
  no_redis_nodes_discovered no_writable_master dual_master : Alert
  equal_epoch_trap equal_epoch_escalate : Alert
  apply_refused : Refusal → Alert

-- What was sent to whom, the alerts, and the times of heal attempts.
pub data Entry : Type 0 where
  sentinel_call : Text → SentinelCommand → Entry
  redis_call : Text → RedisCommand → Entry
  alert : Alert → Entry
  attempt : ℕ → Entry

-- The newest entry of the journal is its first. `last_heal` is none for the zero time.
pub record St (W : Type 0) : Type 0 where
  pub world : W
  pub last_heal : Option ℕ
  pub metrics : Metrics
  pub journal : List Entry

abbrev pub M : Type 0 → Type 0 → Type 0
M W A = St W → A × St W

module _ {W A : Type 0} where
  unfoldable pub pure : A → M W A
  pure a s = (a, s)

module _ {W A B : Type 0} where
  infixl 5 ◌>>=◌ ◌>>◌
  unfoldable pub ◌>>=◌ : M W A → (A → M W B) → M W B
  ◌>>=◌ m f s = let (a, s') = m s in f a s'

  abbrev pub ◌>>◌ : M W A → M W B → M W B
  m >> n = m >>= λ _. n

module _ {W : Type 0} where
  -- Asks the world, and writes nothing.
  unfoldable pub ask : {A : Type 0} → (W → A × W) → M W A
  ask f s = let (a, w) = f s.world in (a, record s { world = w })

  -- Asks the world after writing the journal.
  unfoldable pub send : {A : Type 0} → Entry → (W → A × W) → M W A
  send e f s = let (a, w) = f s.world in (a, record s { world = w; journal = e ∷ s.journal })

  unfoldable pub note : Entry → M W Unit
  note e s = (tt, record s { journal = e ∷ s.journal })

  unfoldable pub on_metrics : (Metrics → Metrics) → M W Unit
  on_metrics f s = (tt, record s { metrics = f s.metrics })

  unfoldable pub get_last_heal : M W (Option ℕ)
  get_last_heal s = (s.last_heal, s)

  -- r.lastHeal = time.Now(), at the time read
  unfoldable pub set_last_heal : ℕ → M W Unit
  set_last_heal t s = (tt, record s { last_heal = some t; journal = attempt t ∷ s.journal })

-- r.metrics.Inc
unfoldable pub count : {W : Type 0} → Text → M W Unit
count name = on_metrics (Metrics.inc name)
