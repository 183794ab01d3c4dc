-- ===== src/Epoch/Steady.antt =====
-- The equal-epoch sample only reads.
use redis_sentinel_reconcile.Prelude.{Bool, true, List, [], ◌∷◌, ◌≡◌}
use redis_sentinel_reconcile.Prelude.Int.{ℤ}
use redis_sentinel_reconcile.Text.{Text}
use redis_sentinel_reconcile.Redisconn.{Dial}
use redis_sentinel_reconcile.Commands.{Reply, ok, err}
use redis_sentinel_reconcile.Sentinel.{Client, Fields}
use redis_sentinel_reconcile.Sentinel.Steady.{Keeps-get_master, Keeps-get_info, Keeps-get_sentinels}
use redis_sentinel_reconcile.Epoch.{
  Samples, after_ad, add_sample, add_clients, add_peers, after_peers, discover_peers,
  detect_equal_epoch_trap,
}
use redis_sentinel_reconcile.World.Keeps.{Keeps, Keeps-bind, Keeps-pure, Keeps-if}
use redis_sentinel_reconcile.World.Steady.{is_read, IsLawful, IsSteady}
use redis_sentinel_reconcile.World.{Env, Entry, St}

module _ {W : Type 0} {env : Env W} {Later : W → W → Type 0} {quiet : Entry → Bool}
    {P : St W → Type 0} (law : IsLawful env Later) (steady : IsSteady Later quiet P)
    (reads : (e : Entry) → is_read e ≡ true → quiet e ≡ true) (name : Text) where
  Keeps-after_ad :
      (c : Client) (acc : Samples) (reply : Reply (Text × ℤ))
      → Keeps P (after_ad env name c acc reply)
  unfolding after_ad
  Keeps-after_ad c (seen, samples) (err e) = Keeps-pure _
  Keeps-after_ad c (seen, samples) (ok (host, port)) =
      Keeps-if _ _ _ (Keeps-pure _)
        (Keeps-bind _ _ (Keeps-get_info law steady reads c name) λ info. Keeps-pure _)

  Keeps-add_sample : (c : Client) (acc : Samples) → Keeps P (add_sample env name c acc)
  unfolding add_sample
  Keeps-add_sample c (seen, samples) =
      Keeps-if _ _ _ (Keeps-pure _) (
        Keeps-bind _ _ (Keeps-get_master law steady reads c name) λ reply. Keeps-after_ad c _ reply)

  Keeps-add_clients : (cs : List Client) (acc : Samples) → Keeps P (add_clients env name cs acc)
  unfolding add_clients
  Keeps-add_clients [] acc = Keeps-pure _
  Keeps-add_clients (c ∷ cs) acc =
      Keeps-bind _ _ (Keeps-add_sample c acc) λ acc'. Keeps-add_clients cs acc'

  Keeps-add_peers :
      (peer : Dial) (ps : List Fields) (acc : Samples) → Keeps P (add_peers env name peer ps acc)
  unfolding add_peers
  Keeps-add_peers peer [] acc = Keeps-pure _
  Keeps-add_peers peer (p ∷ ps) acc =
      Keeps-if _ _ _ (Keeps-add_peers peer ps acc)
        (Keeps-bind _ _ (Keeps-add_sample _ acc) λ acc'. Keeps-add_peers peer ps acc')

  Keeps-after_peers :
      (peer : Dial) (reply : Reply (List Fields)) (acc : Samples)
      → Keeps P (after_peers env name peer reply acc)
  unfolding after_peers
  Keeps-after_peers peer (err e) acc = Keeps-pure _
  Keeps-after_peers peer (ok ps) acc = Keeps-add_peers peer ps acc

  Keeps-discover_peers :
      (cs : List Client) (peer : Dial) (acc : Samples)
      → Keeps P (discover_peers env name cs peer acc)
  unfolding discover_peers
  Keeps-discover_peers [] peer acc = Keeps-pure _
  Keeps-discover_peers (c ∷ cs) peer acc =
      Keeps-bind _ _ (Keeps-get_sentinels law steady reads c name)
        λ peers. Keeps-after_peers peer peers acc

  pub Keeps-detect_equal_epoch_trap :
      (cs : List Client) (peer : Dial) → Keeps P (detect_equal_epoch_trap env name cs peer)
  unfolding detect_equal_epoch_trap
  Keeps-detect_equal_epoch_trap cs peer =
      Keeps-bind _ _ (Keeps-add_clients cs _)
        λ direct. Keeps-bind _ _ (Keeps-discover_peers cs peer direct) λ all. Keeps-pure _
