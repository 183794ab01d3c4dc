-- ===== src/Sentinel/Steady.antt =====
-- The queries of a client only read.
use redis_sentinel_reconcile.Prelude.{Bool, true, ◌≡◌, refl}
use redis_sentinel_reconcile.Text.{Text}
use redis_sentinel_reconcile.Commands.{changes_sentinel}
use redis_sentinel_reconcile.Sentinel.{Client, get_master, get_info, get_replicas, get_sentinels}
use redis_sentinel_reconcile.World.Keeps.{Keeps, Keeps-bind, Keeps-pure}
use redis_sentinel_reconcile.World.Steady.{is_read, IsLawful, IsSteady, Keeps-send}
use redis_sentinel_reconcile.World.{Env, Entry, St}

module _ {W : Type 0} {env : Env W} {Later : W → W → Type 0} {quiet : Entry → Bool}
    {P : St W → Type 0} (law : IsLawful env Later) (steady : IsSteady Later quiet P)
    (reads : (e : Entry) → is_read e ≡ true → quiet e ≡ true) where
  module _ (c : Client) (name : Text) where
    pub Keeps-get_master : Keeps P (get_master env c name)
    unfolding get_master changes_sentinel
    Keeps-get_master =
        Keeps-bind _ _ (Keeps-send steady _ _ (reads _ refl) (law.do_string_slice _ _))
          (λ v. Keeps-pure _)

    pub Keeps-get_info : Keeps P (get_info env c name)
    unfolding get_info changes_sentinel
    Keeps-get_info =
        Keeps-bind _ _ (Keeps-send steady _ _ (reads _ refl) (law.do_string_slice _ _))
          (λ v. Keeps-pure _)

    pub Keeps-get_replicas : Keeps P (get_replicas env c name)
    unfolding get_replicas changes_sentinel
    Keeps-get_replicas =
        Keeps-bind _ _ (Keeps-send steady _ _ (reads _ refl) (law.do_slice _ _)) (λ v. Keeps-pure _)

    pub Keeps-get_sentinels : Keeps P (get_sentinels env c name)
    unfolding get_sentinels changes_sentinel
    Keeps-get_sentinels =
        Keeps-bind _ _ (Keeps-send steady _ _ (reads _ refl) (law.do_slice _ _)) (λ v. Keeps-pure _)
