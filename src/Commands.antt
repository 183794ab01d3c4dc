-- ===== src/Commands.antt =====
-- What the process sends: the commands of internal/sentinel/client.go and the Redis commands of
-- internal/oracle/probe.go and internal/reconcile/lease.go, and the forms of their replies.
use redis_sentinel_reconcile.Prelude.{ℕ, Bool, true, false, List, [], ◌∷◌, map}
use redis_sentinel_reconcile.Prelude.Int.{ℤ}
use redis_sentinel_reconcile.Text.{Text, codes}
use redis_sentinel_reconcile.Text.Decimal.{itoa}
use redis_sentinel_reconcile.Oracle.{Err}

pub data SentinelCommand : Type 0 where
  get_master_addr_by_name master replicas sentinels : Text → SentinelCommand
  failover reset remove : Text → SentinelCommand
  monitor : Text → Text → ℤ → ℤ → SentinelCommand
  set_quorum : Text → ℤ → SentinelCommand
  set : Text → Text → Text → SentinelCommand

pub data Arg : Type 0 where
  word : Text → Arg
  number : ℤ → Arg

abbrev command : Text → List Arg → List Arg
command name args = word (codes "SENTINEL") ∷ word name ∷ args

-- The arguments of rdb.Do.
unfoldable pub wire : SentinelCommand → List Arg
wire (get_master_addr_by_name name) = command (codes "get-master-addr-by-name") (word name ∷ [])
wire (master name) = command (codes "master") (word name ∷ [])
wire (replicas name) = command (codes "replicas") (word name ∷ [])
wire (sentinels name) = command (codes "sentinels") (word name ∷ [])
wire (failover name) = command (codes "failover") (word name ∷ [])
wire (reset pattern) = command (codes "reset") (word pattern ∷ [])
wire (remove name) = command (codes "remove") (word name ∷ [])
wire (monitor name ip port quorum) =
    command (codes "monitor") (word name ∷ word ip ∷ number port ∷ number quorum ∷ [])
wire (set_quorum name n) = command (codes "set") (word name ∷ word (codes "quorum") ∷ number n ∷ [])
wire (set name option value) = command (codes "set") (word name ∷ word option ∷ word value ∷ [])

-- Whether a Sentinel command changes the Sentinel that it is sent to.
unfoldable pub changes_sentinel : SentinelCommand → Bool
changes_sentinel (get_master_addr_by_name name) = false
changes_sentinel (master name) = false
changes_sentinel (replicas name) = false
changes_sentinel (sentinels name) = false
changes_sentinel _ = true

-- The Redis commands. `set_probe key at ttl` writes the time `at`.
pub data RedisCommand : Type 0 where
  role : RedisCommand
  info : Text → RedisCommand
  set_probe : Text → ℕ → ℤ → RedisCommand
  set_nx : Text → Text → ℤ → RedisCommand
  get : Text → RedisCommand
  expire : Text → ℤ → RedisCommand

-- A reply, or an error by its message.
pub data Reply {ℓ} (A : Type ℓ) : Type ℓ where
  ok : A → Reply A
  err : Err → Reply A

-- An interface{} of a reply: a string, an int64, or any other value by its fmt.Sprint form.
pub data Scalar : Type 0 where
  str : Text → Scalar
  int : ℤ → Scalar
  other : Text → Scalar

-- An item of a Slice() reply: a []interface{}, a []string, or a value that is no slice.
pub data Value : Type 0 where
  scalars : List Scalar → Value
  strings : List Text → Value
  single : Scalar → Value

-- fmt.Sprint
unfoldable pub sprint : Scalar → Text
sprint (str t) = t
sprint (int n) = itoa n
sprint (other t) = t

-- toStringSlice; nil and the empty slice are one
unfoldable pub to_string_slice : Value → List Text
to_string_slice (scalars xs) = map sprint xs
to_string_slice (strings ts) = ts
to_string_slice (single x) = []
