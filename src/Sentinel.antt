-- ===== src/Sentinel.antt =====
-- internal/sentinel/client.go: a client of one Sentinel. Error texts are shortened: they are only
-- logged.

pub mod Steady
pub mod Laws
use redis_sentinel_reconcile.Prelude.{
  ℕ, Bool, true, false, not, ◌&&◌, ◌||◌, List, [], ◌∷◌, ◌++◌, Option, none, some, if◌then◌else◌,
  String,
}
use redis_sentinel_reconcile.Prelude.Int.{ℤ}
use redis_sentinel_reconcile.Text.{Text, codes, text_eq, is_empty}
use redis_sentinel_reconcile.Text.Decimal.{atoi}
use redis_sentinel_reconcile.Net.{Resolver, split_host_port, join_host_port}
use redis_sentinel_reconcile.Oracle.{Err, is_none}
use redis_sentinel_reconcile.Redisconn.{Dial, Options, client}
use redis_sentinel_reconcile.Commands.{
  SentinelCommand, get_master_addr_by_name, master, replicas, sentinels, failover, reset, remove,
  monitor, set_quorum, set, Reply, ok, err, Value, wire, to_string_slice,
}
use redis_sentinel_reconcile.World.{Env, Entry, sentinel_call, M, pure, ◌>>=◌, send}

pub record Client : Type 0 where
  pub addr : Text
  pub options : Options

-- New
unfoldable pub new_client : Resolver → Dial → Client
new_client r d = record { addr = d.addr; options = client r d }

-- A map[string]string, by its last writes.
abbrev pub Fields : Type 0
Fields = List (Text × Text)

unfoldable pub field? : Text → Fields → Option Text
field? k [] = none
field? k ((j, v) ∷ m) = if text_eq j k then some v else field? k m

-- info[k], "" where it is missing
unfoldable pub field : Text → Fields → Text
unfolding field?
field k m = elim (field? k m) [ none ↦ [] | some v ↦ v ]

-- m[k] = v
unfoldable pub put_field : Text → Text → Fields → Fields
put_field k v [] = (k, v) ∷ []
put_field k v ((j, w) ∷ m) = if text_eq j k then (j, v) ∷ m else (j, w) ∷ put_field k v m

pub kv_onto : Fields → List Text → Reply Fields
kv_onto m [] = ok m
kv_onto m (k ∷ []) = err (codes "odd key/value slice length")
kv_onto m (k ∷ v ∷ rest) = kv_onto (put_field k v m) rest

-- kvSliceToMap. A slice of odd length has no map, so the order of its test is not seen.
unfoldable pub kv_slice_to_map : List Text → Reply Fields
unfolding kv_onto
kv_slice_to_map val = kv_onto [] val

-- RedisAddrFromInfo
unfoldable pub redis_addr_from_info : Fields → Text
redis_addr_from_info info =
    let addr = field (codes "addr") info in
    let ip = field (codes "ip") info in
    let port = field (codes "port") info in
    if not (is_empty addr) && not (is_none (split_host_port addr))
    then addr
    else if is_empty ip || is_empty port
    then []
    else join_host_port ip port

read_master_addr : Reply (List Text) → Reply (Text × ℤ)
read_master_addr (err e) = err e
read_master_addr (ok (host ∷ port ∷ [])) = elim (atoi port) [
  | none ↦ err (codes "invalid master port")
  | some p ↦ ok (host, p)
]
read_master_addr (ok val) = err (codes "unexpected get-master-addr response")

read_fields : Reply (List Text) → Reply Fields
read_fields (err e) = err e
read_fields (ok val) = kv_slice_to_map val

abbrev cons_reply : Fields → Reply (List Fields) → Reply (List Fields)
cons_reply kv (err e) = err e
cons_reply kv (ok kvs) = ok (kv ∷ kvs)

unfoldable pub read_items : List Value → Reply (List Fields)
read_items [] = ok []
read_items (item ∷ items) = elim (kv_slice_to_map (to_string_slice item)) [
  | err e ↦ err e
  | ok kv ↦ cons_reply kv (read_items items)
]

read_slice : Reply (List Value) → Reply (List Fields)
read_slice (err e) = err e
read_slice (ok raw) = read_items raw

module _ {W : Type 0} (env : Env W) (c : Client) where
  abbrev ask_strings : SentinelCommand → M W (Reply (List Text))
  ask_strings cmd = send (sentinel_call c.addr cmd) (env.do_string_slice c.options (wire cmd))

  abbrev ask_slice : SentinelCommand → M W (Reply (List Value))
  ask_slice cmd = send (sentinel_call c.addr cmd) (env.do_slice c.options (wire cmd))

  abbrev run : SentinelCommand → M W (Option Err)
  run cmd = send (sentinel_call c.addr cmd) (env.do_err c.options (wire cmd))

  -- GetMasterAddrByName
  unfoldable pub get_master : Text → M W (Reply (Text × ℤ))
  unfolding read_master_addr
  get_master name = do val ← ask_strings (get_master_addr_by_name name); pure (read_master_addr val)

  -- Master
  unfoldable pub get_info : Text → M W (Reply Fields)
  unfolding read_fields
  get_info name = do val ← ask_strings (master name); pure (read_fields val)

  -- Replicas
  unfoldable pub get_replicas : Text → M W (Reply (List Fields))
  unfolding read_slice
  get_replicas name = do raw ← ask_slice (replicas name); pure (read_slice raw)

  -- Sentinels
  unfoldable pub get_sentinels : Text → M W (Reply (List Fields))
  unfolding read_slice
  get_sentinels name = do raw ← ask_slice (sentinels name); pure (read_slice raw)

  unfoldable pub send_failover : Text → M W (Option Err)
  send_failover name = run (failover name)

  unfoldable pub send_reset : Text → M W (Option Err)
  send_reset pattern = run (reset pattern)

  unfoldable pub send_remove : Text → M W (Option Err)
  send_remove name = run (remove name)

  unfoldable pub send_monitor : Text → Text → ℤ → ℤ → M W (Option Err)
  send_monitor name ip port quorum = run (monitor name ip port quorum)

  unfoldable pub send_set_quorum : Text → ℤ → M W (Option Err)
  send_set_quorum name quorum = run (set_quorum name quorum)

  unfoldable pub send_set : Text → Text → Text → M W (Option Err)
  send_set name option value = run (set name option value)
