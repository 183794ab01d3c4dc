-- ===== src/Reconcile/Nodes/Laws.antt =====
-- Which nodes may be the oracle.
use redis_sentinel_reconcile.Prelude.{
  Bool, true, List, [], ◌∷◌, ◌≡◌, refl, arith, any, some, ap, ◌∙◌,
}
use redis_sentinel_reconcile.Net.{Resolver}
use redis_sentinel_reconcile.Oracle.{NodeResult, classify_writable}
use redis_sentinel_reconcile.Oracle.Laws.{first_writable, classify_writable_lem}
use redis_sentinel_reconcile.Reconcile.Config.{Config}
use redis_sentinel_reconcile.Reconcile.Nodes.{is_oracle_node, seed_nodes, oracle_nodes}

module _ (r : Resolver) (cfg : Config) where
  abbrev counts : NodeResult → Bool
  counts n = is_oracle_node r cfg n.addr

  seed_nodes-first :
      (ns : List NodeResult) (n : NodeResult)
      → first_writable (seed_nodes r cfg ns) ≡ some n
      → counts n ≡ true
  unfolding seed_nodes first_writable
  seed_nodes-first [] n h = cc
  seed_nodes-first (m ∷ ns) n h = ground (arith, h, seed_nodes-first ns n)

  -- The list chosen when the nodes that count are `l`.
  abbrev or_all : List NodeResult → List NodeResult → List NodeResult
  or_all nodes [] = nodes
  or_all nodes (n ∷ ns) = n ∷ ns

  oracle_nodes-or_all :
      (nodes l : List NodeResult)
      → seed_nodes r cfg nodes ≡ l
      → oracle_nodes r cfg nodes ≡ or_all nodes l
  unfolding oracle_nodes
  oracle_nodes-or_all nodes [] h = rw (oracle_nodes, h) refl
  oracle_nodes-or_all nodes (n ∷ ns) h = rw (oracle_nodes, h) refl

  seed_nodes-any :
      (m : NodeResult) (ns : List NodeResult)
      → any counts ns ≡ true
      → seed_nodes r cfg ns ≡ []
      → counts m ≡ true
  unfolding seed_nodes
  seed_nodes-any m [] found h = absurd (cc)
  seed_nodes-any m (n ∷ ns) found h = ground (arith, found, h, seed_nodes-any m ns)

  first_of :
      (nodes l : List NodeResult) (n : NodeResult)
      → seed_nodes r cfg nodes ≡ l
      → any counts nodes ≡ true
      → first_writable (or_all nodes l) ≡ some n
      → counts n ≡ true
  first_of nodes [] n e found h = seed_nodes-any n nodes found e
  first_of nodes (m ∷ ns) n e found h = seed_nodes-first nodes n (ap first_writable e ∙ h)

  -- As soon as one probed node counts (a seed, or any node where no seeds are listed), the node that
  -- ClassifyWritable finds for the oracle counts: with seeds listed, it is one of them.
  pub oracle_nodes-classify_writable :
      (nodes : List NodeResult) (n : NodeResult)
      → any (λ m. is_oracle_node r cfg m.addr) nodes ≡ true
      → (classify_writable r (oracle_nodes r cfg nodes)).0 ≡ some n
      → is_oracle_node r cfg n.addr ≡ true
  oracle_nodes-classify_writable nodes n found h =
      first_of nodes (seed_nodes r cfg nodes) n refl found (
        ground (
          arith,
          h,
          oracle_nodes-or_all nodes (seed_nodes r cfg nodes) refl,
          classify_writable_lem r (oracle_nodes r cfg nodes),
        ))
