-- ===== src/Reconcile/Nodes.antt =====
-- The nodes of a tick (internal/reconcile/reconcile.go): the addresses that Sentinels and seeds give,
-- how each is dialled, and which nodes count for the oracle.
pub mod Laws
use redis_sentinel_reconcile.Prelude.{
  ◌*◌, Bool, true, false, not, ◌&&◌, ◌||◌, List, [], ◌∷◌, ◌++◌, any, if◌then◌else◌,
}
use redis_sentinel_reconcile.Prelude.Int.{ℤ, pos}
use redis_sentinel_reconcile.Text.{Text, codes, text_eq, is_empty, equal_fold}
use redis_sentinel_reconcile.Text.Decimal.{itoa}
use redis_sentinel_reconcile.Net.{Resolver, same_redis_endpoint, join_host_port}
use redis_sentinel_reconcile.Oracle.{NodeResult}
use redis_sentinel_reconcile.Redisconn.{Dial}
use redis_sentinel_reconcile.Commands.{Reply, ok, err}
use redis_sentinel_reconcile.Sentinel.{Client, Fields, field, redis_addr_from_info}
use redis_sentinel_reconcile.Reconcile.Config.{Config, redis_dial}

-- A client and what its Sentinel advertised.
abbrev pub View : Type 0
View = Client × Reply (Text × ℤ)

-- redisAddrs[addr] = struct{}{}
add_addr : Text → List Text → List Text
add_addr a set = if any (text_eq a) set then set else set ++ a ∷ []

unfoldable pub add_addrs : List Text → List Text → List Text
unfolding add_addr
add_addrs [] set = set
add_addrs (a ∷ rest) set = add_addrs rest (add_addr a set)

-- The addresses that the views advertise.
unfoldable pub view_addrs : List View → List Text
view_addrs [] = []
view_addrs ((c, err e) ∷ vs) = view_addrs vs
view_addrs ((c, ok (host, port)) ∷ vs) =
    if is_empty host then view_addrs vs else join_host_port host (itoa port) ∷ view_addrs vs

-- The address of a SENTINEL map, if it has one.
unfoldable pub info_addrs : List Fields → List Text
info_addrs [] = []
info_addrs (info ∷ infos) =
    let addr = redis_addr_from_info info in
    if is_empty addr then info_addrs infos else addr ∷ info_addrs infos

unfoldable pub reply_addrs : Reply Fields → List Text
reply_addrs (err e) = []
reply_addrs (ok info) = info_addrs (info ∷ [])

unfoldable pub replies_addrs : Reply (List Fields) → List Text
replies_addrs (err e) = []
replies_addrs (ok infos) = info_addrs infos

unfoldable pub reply_flags : Reply Fields → Text
reply_flags (err e) = []
reply_flags (ok info) = field (codes "flags") info

abbrev pub has_seeds : Config → Bool
has_seeds cfg = not (elim cfg.redis_addrs [ [] ↦ true | a ∷ as' ↦ false ])

unfoldable pub is_seed : Resolver → Config → Text → Bool
is_seed r cfg addr =
    any (λ seed. same_redis_endpoint r addr seed || equal_fold addr seed) cfg.redis_addrs

-- Whether a node counts for the oracle.
abbrev pub is_oracle_node : Resolver → Config → Text → Bool
is_oracle_node r cfg addr = not (has_seeds cfg) || is_seed r cfg addr

seed_nodes : Resolver → Config → List NodeResult → List NodeResult
seed_nodes r cfg [] = []
seed_nodes r cfg (n ∷ ns) =
    if is_oracle_node r cfg n.addr then n ∷ seed_nodes r cfg ns else seed_nodes r cfg ns

-- The nodes that count for the oracle, or all nodes where there are none.
unfoldable pub oracle_nodes : Resolver → Config → List NodeResult → List NodeResult
unfolding seed_nodes
oracle_nodes r cfg nodes = elim (seed_nodes r cfg nodes) [ [] ↦ nodes | n ∷ ns ↦ n ∷ ns ]

-- An address of Sentinel that is no seed is dialled with 400 ms.
unfoldable pub probe_dial_of : Resolver → Config → Text → Dial
probe_dial_of r cfg addr =
    if has_seeds cfg && not (is_seed r cfg addr)
    then record (redis_dial cfg) { timeout = pos (400 * 1000000) }
    else redis_dial cfg
