-- ===== src/Net.antt =====
-- Package net as the program uses it, and the comparison of Redis endpoints
-- (internal/reconcile/reconcile.go, internal/redisconn/sni.go).
pub mod Laws
use redis_sentinel_reconcile.Prelude.{
  ℕ, ◌+◌, Bool, true, false, not, ◌&&◌, ◌||◌, List, [], ◌∷◌, ◌++◌, ◌==◌, Option, none, some,
  if◌then◌else◌,
}
use redis_sentinel_reconcile.Prelude.Int.{ℤ}
use redis_sentinel_reconcile.Text.{
  Text, text_eq, is_empty, to_lower, equal_fold, has_byte, cut_first, cut_last,
}
use redis_sentinel_reconcile.Text.Decimal.{itoa, atoi}

-- After the host in brackets: a colon and a port with no colon, and no stray bracket.
bracketed : Text → Text → Option (Text × Text)
bracketed host [] = none
bracketed host (c ∷ port) =
    if c == b':'
      && not (has_byte b':' port)
      && not (has_byte b'[' host)
      && not (has_byte b'[' port)
      && not (has_byte b']' port)
    then some (host, port)
    else none

plain : Option (Text × Text) → Option (Text × Text)
plain none = none
plain (some (host, port)) =
    if not (has_byte b':' host)
      && not (has_byte b'[' host)
      && not (has_byte b'[' port)
      && not (has_byte b']' host)
      && not (has_byte b']' port)
    then some (host, port)
    else none

-- net.SplitHostPort; `none` is an error.
unfoldable pub split_host_port : Text → Option (Text × Text)
unfolding bracketed plain
split_host_port [] = none
split_host_port (c ∷ s) =
    if c == b'['
    then elim (cut_first b']' s) [ none ↦ none | some (host, after) ↦ bracketed host after ]
    else plain (cut_last b':' (c ∷ s))

-- net.JoinHostPort
unfoldable pub join_host_port : Text → Text → Text
join_host_port host port =
    if has_byte b':' host then b'[' ∷ (host ++ b']' ∷ b':' ∷ port) else host ++ b':' ∷ port

-- fmt.Sprintf("%s:%d", host, port)
unfoldable pub sprint_addr : Text → ℤ → Text
sprint_addr host port = host ++ b':' ∷ itoa port

-- A net.IP: whether To4() is not nil, and its String().
pub record Ip : Type 0 where
  pub is_v4 : Bool
  pub string : Text

-- What the program asks of the resolver. A failed lookup has no addresses.
pub record Resolver : Type 0 where
  pub parse_ip : Text → Bool
  pub lookup_ip : Text → List Ip

first_v4 : List Ip → Option Ip
first_v4 [] = none
first_v4 (ip ∷ ips) = if ip.is_v4 then some ip else first_v4 ips

-- The first address of version 4, or else the first address.
unfoldable pub preferred_ip : List Ip → Option Ip
unfolding first_v4
preferred_ip [] = none
preferred_ip (ip ∷ ips) = elim (first_v4 (ip ∷ ips)) [ none ↦ some ip | some v ↦ some v ]

unfoldable pub resolve_key : Resolver → Text → Text
resolve_key r addr = elim (split_host_port addr) [
  | none ↦ to_lower addr
  | some (host, port) ↦ elim (preferred_ip (r.lookup_ip host)) [
    | none ↦ to_lower addr
    | some ip ↦ join_host_port ip.string port
  ]
]

unfoldable pub same_redis_endpoint : Resolver → Text → Text → Bool
same_redis_endpoint r a b =
    equal_fold a b
    || (not (is_empty (resolve_key r a)) && text_eq (resolve_key r a) (resolve_key r b))

-- The target of SENTINEL MONITOR; `none` is an error.
unfoldable pub endpoint_ip_port : Resolver → Text → Option (Text × ℤ)
endpoint_ip_port r addr = elim (split_host_port addr) [
  | none ↦ none
  | some (host, port_str) ↦ elim (atoi port_str) [
    | none ↦ none
    | some port ↦
        if r.parse_ip host then some (host, port) else elim (preferred_ip (r.lookup_ip host)) [
          | none ↦ none
          | some ip ↦ some (ip.string, port)
        ]
  ]
]

-- addrHost
unfoldable pub addr_host : Text → Text
addr_host addr = elim (split_host_port addr) [ none ↦ addr | some (host, port) ↦ host ]
