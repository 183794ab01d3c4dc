-- ===== src/Reconcile/Tick/Reads.antt =====
-- The reading half of a tick keeps what reading cannot change.
use redis_sentinel_reconcile.Prelude.{
  ℕ, ◌≢◌, ◌==◌, Bool, true, List, [], ◌∷◌, Option, ◌≡◌, refl, arith, ap, leb,
}
use redis_sentinel_reconcile.Text.{Text}
use redis_sentinel_reconcile.Oracle.{NodeResult, classify_writable}
use redis_sentinel_reconcile.Sentinel.{Client}
use redis_sentinel_reconcile.Sentinel.Steady.{Keeps-get_master, Keeps-get_info, Keeps-get_replicas}
use redis_sentinel_reconcile.Probe.Steady.{Keeps-probe_dial}
use redis_sentinel_reconcile.Epoch.{EqualEpochReport}
use redis_sentinel_reconcile.Reconcile.Config.{Config}
use redis_sentinel_reconcile.Reconcile.Nodes.{View, oracle_nodes}
use redis_sentinel_reconcile.Reconcile.Tick.{
  query_views, discover, probe_nodes, would_heal, alert_trap, on_count, classify,
}
use redis_sentinel_reconcile.World.Keeps.{Keeps, Keeps-bind, Keeps-pure, Keeps-if, Keeps-if_eq}
use redis_sentinel_reconcile.World.Steady.{
  is_read, IsLawful, IsSteady, Keeps-note, Keeps-count, Keeps-on_metrics,
}
use redis_sentinel_reconcile.World.{Env, Entry, St, pure, ◌>>=◌}

unfoldable pub view_clients : List View → List Client
view_clients [] = []
view_clients ((c, reply) ∷ vs) = c ∷ view_clients vs

-- Each client has one view, in order.
pub query_views-clients :
    {W : Type 0} (env : Env W) (cfg : Config) (cs : List Client) (s : St W)
    → view_clients (query_views env cfg cs s).0 ≡ cs
unfolding query_views view_clients ◌>>=◌ pure
query_views-clients env cfg [] s = refl
query_views-clients env cfg (c ∷ cs) s = ap (λ l. c ∷ l) (query_views-clients env cfg cs _)

module _ {W : Type 0} {env : Env W} {Later : W → W → Type 0} {quiet : Entry → Bool}
    {P : St W → Type 0} (law : IsLawful env Later) (steady : IsSteady Later quiet P)
    (reads : (e : Entry) → is_read e ≡ true → quiet e ≡ true) (cfg : Config) where
  pub Keeps-query_views : (cs : List Client) → Keeps P (query_views env cfg cs)
  unfolding query_views
  Keeps-query_views [] = Keeps-pure _
  Keeps-query_views (c ∷ cs) =
      Keeps-bind _ _ (Keeps-get_master law steady reads c _)
        λ reply. Keeps-bind _ _ (Keeps-query_views cs) λ views. Keeps-pure _

  pub Keeps-discover : (cs : List Client) (set : List Text) → Keeps P (discover env cfg cs set)
  unfolding discover
  Keeps-discover [] set = Keeps-pure _
  Keeps-discover (c ∷ cs) set = Keeps-bind _ _ (Keeps-get_info law steady reads c _) λ info.
      Keeps-bind _ _ (Keeps-get_replicas law steady reads c _) λ replicas. Keeps-discover cs _

  pub Keeps-probe_nodes : (addrs : List Text) → Keeps P (probe_nodes env cfg addrs)
  unfolding probe_nodes
  Keeps-probe_nodes [] = Keeps-pure _
  Keeps-probe_nodes (addr ∷ addrs) =
      Keeps-bind _ _ (Keeps-probe_dial law steady reads addr _)
        λ n. Keeps-bind _ _ (Keeps-probe_nodes addrs) λ ns. Keeps-pure _

  pub Keeps-would_heal : Keeps P (would_heal env cfg)
  unfolding would_heal
  Keeps-would_heal = Keeps-bind _ _ (Keeps-count steady _) λ _. Keeps-on_metrics steady _

  pub Keeps-alert_trap : (rep : EqualEpochReport) → Keeps P (alert_trap env cfg rep)
  unfolding alert_trap
  Keeps-alert_trap rep =
      Keeps-if rep.trap _ _
        (Keeps-bind _ _ (Keeps-note steady _ (reads _ refl)) λ _. Keeps-count steady _)
        (Keeps-pure _)

  Keeps-on_count_idle :
      (cs : List Client) (vs : List View) (nodes : List NodeResult) (found : Option NodeResult × ℕ)
      → found.1 ≢ 1
      → Keeps P (on_count env cfg cs vs nodes found)
  unfolding on_count
  Keeps-on_count_idle cs vs nodes (writable, n) idle =
      Keeps-if_eq (n == 0) _ _
        (λ _. Keeps-bind _ _ (Keeps-note steady _ (reads _ refl)) λ _. Keeps-count steady _)
        λ some_writable.
          Keeps-if_eq (leb 2 n) _ _
            (λ _. Keeps-bind _ _ (Keeps-note steady _ (reads _ refl)) λ _. Keeps-count steady _)
            λ one_writable. absurd (idle (ground arith))

  -- Without exactly one writable node, classifying only reads.
  pub Keeps-classify_idle :
      (cs : List Client) (vs : List View) (nodes : List NodeResult)
      → (classify_writable env.resolver (oracle_nodes env.resolver cfg nodes)).1 ≢ 1
      → Keeps P (classify env cfg cs vs nodes)
  unfolding classify
  Keeps-classify_idle cs vs nodes idle =
      Keeps-bind _ _ (Keeps-on_metrics steady _) λ _. Keeps-on_count_idle cs vs nodes _ idle
