-- ===== src/Oracle.antt =====
-- internal/oracle/probe.go: the result of probing a node, and the count of writable masters.
-- A *NodeResult is the node itself, since no node is written after it was probed.
pub mod Distinct
pub mod Laws
use redis_sentinel_reconcile.Prelude.{
  ℕ, ◌+◌, Bool, true, false, not, ◌&&◌, ◌||◌, List, [], ◌∷◌, ◌++◌, Option, none, some, any,
  if◌then◌else◌,
}
use redis_sentinel_reconcile.Prelude.Int.{ℤ, pos, is_zero}
use redis_sentinel_reconcile.Text.{Text, codes, text_eq, is_empty}
use redis_sentinel_reconcile.Net.{Ip, Resolver, split_host_port, join_host_port, sprint_addr}

-- An error, by its message.
abbrev pub Err : Type 0
Err = Text

pub record NodeResult : Type 0 where
  pub addr : Text
  pub role : Text
  pub writable : Bool
  pub master_host : Text
  pub master_port : ℤ
  pub run_id : Text
  pub err : Option Err

abbrev pub is_none {ℓ} : {A : Type ℓ} → Option A → Bool
is_none none = true
is_none (some a) = false

unfoldable pub addr_key : NodeResult → Text
addr_key n = n.addr

-- MasterKey
unfoldable pub upstream_key : NodeResult → Text
upstream_key n =
    if is_empty n.master_host || is_zero n.master_port
    then []
    else sprint_addr n.master_host n.master_port

-- Reached, ROLE master, and the probe SET was accepted.
unfoldable pub is_writable_master : NodeResult → Bool
is_writable_master n = is_none n.err && text_eq n.role (codes "master") && n.writable

unfoldable pub identity_key : Resolver → NodeResult → Text
identity_key r n =
    if not (is_empty n.run_id) then codes "run:" ++ n.run_id else elim (split_host_port n.addr) [
      | none ↦ n.addr
      | some (host, port) ↦ elim (r.lookup_ip host) [
        | [] ↦ n.addr
        | ip ∷ ips ↦ join_host_port ip.string port
      ]
    ]

abbrev pub or_else {ℓ} : {A : Type ℓ} → Option A → A → Option A
or_else none a = some a
or_else (some b) a = some b

-- One round of the loop of ClassifyWritable, over the keys seen, the first node and the count.
abbrev classify_step :
    Resolver → List Text → Option NodeResult → ℕ → NodeResult → List Text × Option NodeResult × ℕ
classify_step r seen writable count n =
    if not (is_writable_master n)
    then (seen, writable, count)
    else if any (text_eq (identity_key r n)) seen
    then (seen, writable, count)
    else (identity_key r n ∷ seen, or_else writable n, count + 1)

classify_from :
    Resolver → List Text → Option NodeResult → ℕ → List NodeResult → Option NodeResult × ℕ
classify_from r seen writable count [] = (writable, count)
classify_from r seen writable count (n ∷ ns) =
    let (seen', writable', count') = classify_step r seen writable count n in
    classify_from r seen' writable' count' ns

unfoldable pub classify_writable : Resolver → List NodeResult → Option NodeResult × ℕ
unfolding classify_from
classify_writable r ns = classify_from r [] none 0 ns
