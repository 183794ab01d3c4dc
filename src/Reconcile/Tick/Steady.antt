-- ===== src/Reconcile/Tick/Steady.antt =====
-- What a tick does to a property of the state, from what its heals do.
use mathlib.Core.List.{Memᴰ}
use redis_sentinel_reconcile.Prelude.{
  ℕ, ◌==◌, ◌&&◌, Bool, true, false, not, List, [], ◌∷◌, Option, none, some, ◌≡◌, refl, arith, ap,
  ◌∙◌, leb, ltb, length,
}
use redis_sentinel_reconcile.Text.{Text}
use redis_sentinel_reconcile.Net.{sprint_addr, same_redis_endpoint}
use redis_sentinel_reconcile.Oracle.{NodeResult, classify_writable}
use redis_sentinel_reconcile.Commands.{ok, err}
use redis_sentinel_reconcile.Sentinel.{Client}
use redis_sentinel_reconcile.Epoch.Steady.{Keeps-detect_equal_epoch_trap}
use redis_sentinel_reconcile.Reconcile.Config.{Config}
use redis_sentinel_reconcile.Reconcile.Nodes.{View, oracle_nodes}
use redis_sentinel_reconcile.Reconcile.Tick.{
  apply_heal, diverge, check_diverge, check_all, check_first, on_oracle, on_one, on_count, classify,
  probe_and_classify, observe, clients_of, on_clients, tick,
}
use redis_sentinel_reconcile.World.Keeps.{
  Keeps, Keeps-bind, Keeps-pure, Keeps-if_eq, Keeps-bind_result,
}
use redis_sentinel_reconcile.World.Steady.{
  is_read, IsLawful, IsSteady, Keeps-ask, Keeps-note, Keeps-count, Keeps-on_metrics,
}
use redis_sentinel_reconcile.World.{Env, Entry, St}
use redis_sentinel_reconcile.Reconcile.Tick.Reads.{
  view_clients, query_views-clients, Keeps-query_views, Keeps-discover, Keeps-probe_nodes,
  Keeps-would_heal, Keeps-alert_trap,
}

count_one :
    {A : Type 0} (a : A) (n : ℕ)
    → (n == 0) ≡ false
    → leb 2 n ≡ false
    → ◌≡◌ {A = A × ℕ} (a, n) (a, 1)
count_one a n h k = ap (λ (m : ℕ). (a, m)) (ground arith)

-- When a tick heals: --apply is given, the Sentinel is one of the configured ones (the first one
-- under --local-sentinel), its ads differ from the oracle, and the oracle is the only writable
-- master among the nodes that count.
pub record HealCase {W : Type 0} (env : Env W) (cfg : Config) (cs : List Client) (c : Client)
    (advertised master_key : Text) (nodes : List NodeResult) : Type 0 where
  pub applying : cfg.apply ≡ true
  pub configured : Memᴰ c cs
  pub local : cfg.local_sentinel ≡ true → (rest : List Client) × (cs ≡ c ∷ rest)
  pub apart : same_redis_endpoint env.resolver advertised master_key ≡ false
  pub oracle : NodeResult
  pub unique :
      classify_writable env.resolver (oracle_nodes env.resolver cfg nodes) ≡ (some oracle, 1)
  pub key : master_key ≡ oracle.addr

module _ {W : Type 0} {env : Env W} {Later : W → W → Type 0} {quiet : Entry → Bool}
    {P : St W → Type 0} (law : IsLawful env Later) (steady : IsSteady Later quiet P)
    (reads : (e : Entry) → is_read e ≡ true → quiet e ≡ true) (cfg : Config) where
  module _ (cs : List Client)
      (heal : (c : Client) (advertised master_key : Text) (nodes : List NodeResult) (trap : Bool)
        → HealCase env cfg cs c advertised master_key nodes
        → Keeps P (apply_heal env cfg c advertised master_key nodes trap)) where
    module _ (nodes : List NodeResult) (trap : Bool) (oracle : NodeResult)
        (unique : classify_writable env.resolver (oracle_nodes env.resolver cfg nodes)
          ≡ (some oracle, 1)) where
      Keeps-check_diverge :
          (v : View)
          → Memᴰ v.0 cs
          → (cfg.local_sentinel ≡ true → (rest : List Client) × (cs ≡ v.0 ∷ rest))
          → Keeps P (check_diverge env cfg oracle.addr nodes trap v)
      unfolding check_diverge diverge
      Keeps-check_diverge (c, err e) member first = Keeps-pure _
      Keeps-check_diverge (c, ok (host, port)) member first =
          Keeps-if_eq (same_redis_endpoint env.resolver (sprint_addr host port) oracle.addr) _ _
            (λ _. Keeps-count steady _)
            λ apart. Keeps-bind _ _ (Keeps-count steady _) λ _.
              Keeps-bind _ _ (Keeps-on_metrics steady _) λ _.
                Keeps-if_eq cfg.apply _ _
                  (λ applying. heal c (sprint_addr host port) oracle.addr nodes trap (record {
                    applying = applying;
                    configured = member;
                    local = first;
                    apart = apart;
                    oracle = oracle;
                    unique = unique;
                    key = refl;
                  }))
                  λ _. Keeps-would_heal law steady reads cfg

      Keeps-check_all :
          (vs : List View)
          → cfg.local_sentinel ≡ false
          → ((c : Client) → Memᴰ c (view_clients vs) → Memᴰ c cs)
          → Keeps P (check_all env cfg oracle.addr nodes trap vs)
      unfolding check_all view_clients
      Keeps-check_all [] remote among = Keeps-pure _
      Keeps-check_all (v ∷ vs) remote among =
          Keeps-bind _ _ (Keeps-check_diverge v (among v.0 (Memᴰ.head refl)) λ here. absurd (cc))
            λ _. Keeps-check_all vs remote λ c m. among c (Memᴰ.tail m)

      Keeps-check_first :
          (vs : List View)
          → view_clients vs ≡ cs
          → Keeps P (check_first env cfg oracle.addr nodes trap vs)
      unfolding check_first view_clients
      Keeps-check_first [] same = Keeps-pure _
      Keeps-check_first (v ∷ vs) same =
          Keeps-check_diverge v (rw (← same) (Memᴰ.head refl)) λ _. (view_clients vs, rw (← same))

    module _ (vs : List View) (same : view_clients vs ≡ cs) where
      Keeps-on_oracle :
          (nodes : List NodeResult) (oracle : NodeResult)
          → classify_writable env.resolver (oracle_nodes env.resolver cfg nodes) ≡ (some oracle, 1)
          → Keeps P (on_oracle env cfg cs vs nodes oracle.addr)
      unfolding on_oracle
      Keeps-on_oracle nodes oracle unique =
          Keeps-bind _ _ (Keeps-detect_equal_epoch_trap law steady reads _ cs _) λ rep.
            Keeps-bind _ _ (Keeps-alert_trap law steady reads cfg rep) λ _.
              Keeps-if_eq (not cfg.local_sentinel && ltb 1 (length cs)) _ _
                (λ remote.
                  Keeps-check_all nodes rep.trap oracle unique vs (ground arith)
                    λ c m. rw same at m)
                λ _. Keeps-check_first nodes rep.trap oracle unique vs same

      Keeps-on_one :
          (nodes : List NodeResult) (writable : Option NodeResult)
          → classify_writable env.resolver (oracle_nodes env.resolver cfg nodes) ≡ (writable, 1)
          → Keeps P (on_one env cfg cs vs nodes writable)
      unfolding on_one
      Keeps-on_one nodes none unique = Keeps-pure _
      Keeps-on_one nodes (some oracle) unique = Keeps-on_oracle nodes oracle unique

      Keeps-on_count :
          (nodes : List NodeResult) (found : Option NodeResult × ℕ)
          → classify_writable env.resolver (oracle_nodes env.resolver cfg nodes) ≡ found
          → Keeps P (on_count env cfg cs vs nodes found)
      unfolding on_count
      Keeps-on_count nodes (writable, n) e =
          Keeps-if_eq (n == 0) _ _
            (λ _. Keeps-bind _ _ (Keeps-note steady _ (reads _ refl)) λ _. Keeps-count steady _)
            λ some_writable.
              Keeps-if_eq (leb 2 n) _ _
                (λ _. Keeps-bind _ _ (Keeps-note steady _ (reads _ refl)) λ _. Keeps-count steady _)
                λ one_writable.
                  Keeps-on_one nodes writable (e ∙ count_one writable n some_writable one_writable)

      Keeps-classify : (nodes : List NodeResult) → Keeps P (classify env cfg cs vs nodes)
      unfolding classify
      Keeps-classify nodes =
          Keeps-bind _ _ (Keeps-on_metrics steady _) λ _. Keeps-on_count nodes _ refl

      Keeps-probe_and_classify :
          (addrs : List Text) → Keeps P (probe_and_classify env cfg cs vs addrs)
      unfolding probe_and_classify
      Keeps-probe_and_classify [] =
          Keeps-bind _ _ (Keeps-note steady _ (reads _ refl)) λ _. Keeps-count steady _
      Keeps-probe_and_classify (a ∷ addrs) =
          Keeps-bind _ _ (Keeps-ask steady _ (law.range_order _)) λ order.
            Keeps-bind _ _ (Keeps-probe_nodes law steady reads cfg order)
              λ nodes. Keeps-classify nodes

    Keeps-observe : Keeps P (observe env cfg cs)
    unfolding observe
    Keeps-observe =
        Keeps-bind_result (λ vs. view_clients vs ≡ cs) _ _
          (Keeps-query_views law steady reads cfg cs) (query_views-clients env cfg cs)
          λ vs same.
            Keeps-bind _ _ (Keeps-discover law steady reads cfg cs _)
              λ addrs. Keeps-probe_and_classify vs same addrs

  Keeps-on_clients :
      (cs : List Client)
      → ((c : Client) (advertised master_key : Text) (nodes : List NodeResult) (trap : Bool)
          → HealCase env cfg cs c advertised master_key nodes
          → Keeps P (apply_heal env cfg c advertised master_key nodes trap))
      → Keeps P (on_clients env cfg cs)
  unfolding on_clients
  Keeps-on_clients [] heal = Keeps-pure _
  Keeps-on_clients (c ∷ cs) heal = Keeps-bind _ _ (Keeps-observe (c ∷ cs) heal) λ _. Keeps-pure _

  -- A property that no reading changes, and that every heal keeps which a tick may make, is kept by
  -- the tick.
  pub Keeps-tick :
      ((c : Client) (advertised master_key : Text) (nodes : List NodeResult) (trap : Bool)
        → HealCase env cfg (clients_of env cfg cfg.sentinel_addrs) c advertised master_key nodes
        → Keeps P (apply_heal env cfg c advertised master_key nodes trap))
      → Keeps P (tick env cfg)
  unfolding tick
  Keeps-tick heal = Keeps-bind _ _ (Keeps-count steady _) λ _.
      Keeps-bind _ _ (Keeps-on_metrics steady _)
        λ _. Keeps-on_clients (clients_of env cfg cfg.sentinel_addrs) heal
