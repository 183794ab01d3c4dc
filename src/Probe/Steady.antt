-- ===== src/Probe/Steady.antt =====
-- A probe only reads, but for the write of the probe key.
use redis_sentinel_reconcile.Prelude.{Bool, true, List, [], ◌∷◌, ◌≡◌, refl}
use redis_sentinel_reconcile.Text.{Text}
use redis_sentinel_reconcile.Redisconn.{Dial, Options}
use redis_sentinel_reconcile.Commands.{Reply, ok, err, Scalar}
use redis_sentinel_reconcile.Probe.{try_set, probe_role, after_role, probe_dial}
use redis_sentinel_reconcile.World.Keeps.{Keeps, Keeps-bind, Keeps-pure, keeps_rules}
use redis_sentinel_reconcile.World.Steady.{is_read, IsLawful, IsSteady, Keeps-send, Keeps-ask}
use redis_sentinel_reconcile.World.{Env, Entry, St}

module _ {W : Type 0} {env : Env W} {Later : W → W → Type 0} {quiet : Entry → Bool}
    {P : St W → Type 0} (law : IsLawful env Later) (steady : IsSteady Later quiet P)
    (reads : (e : Entry) → is_read e ≡ true → quiet e ≡ true) where
  Keeps-try_set : (addr : Text) (o : Options) → Keeps P (try_set env addr o)
  unfolding try_set
  Keeps-try_set addr o = Keeps-bind _ _ (Keeps-ask steady _ law.unix) λ at.
      Keeps-bind _ _ (Keeps-send steady _ _ (reads _ refl) (law.redis_set _ _ _ _))
        λ e. Keeps-pure _

  Keeps-probe_role :
      (addr : Text) (o : Options) (kind : Scalar) (more : List Scalar)
      → Keeps P (probe_role env addr o kind more)
  unfolding probe_role
  Keeps-probe_role addr o kind more =
      Keeps-bind _ _ (Keeps-send steady _ _ (reads _ refl) (law.redis_info _ _))
        λ text. search (keeps_rules, Keeps-try_set)

  Keeps-after_role :
      (addr : Text) (o : Options) (reply : Reply (List Scalar))
      → Keeps P (after_role env addr o reply)
  unfolding after_role
  Keeps-after_role addr o (err e) = Keeps-pure _
  Keeps-after_role addr o (ok []) = Keeps-pure _
  Keeps-after_role addr o (ok (kind ∷ more)) = Keeps-probe_role addr o kind more

  pub Keeps-probe_dial : (addr : Text) (d : Dial) → Keeps P (probe_dial env addr d)
  unfolding probe_dial
  Keeps-probe_dial addr d =
      Keeps-bind _ _ (Keeps-send steady _ _ (reads _ refl) (law.redis_role _))
        λ reply. Keeps-after_role addr _ reply
