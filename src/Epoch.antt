-- ===== src/Epoch.antt =====
-- internal/reconcile/epoch.go: the sample of ads and config-epochs over the reachable Sentinels.

pub mod Steady
pub mod Laws
use redis_sentinel_reconcile.Prelude.{
  ℕ, ◌+◌, Bool, true, false, not, ◌&&◌, ◌||◌, List, [], ◌∷◌, ◌++◌, ◌==◌, leb, length, any, map,
  Option, none, some, if◌then◌else◌,
}
use redis_sentinel_reconcile.Prelude.Int.{ℤ, pos, negsuc, int_eq, is_negative}
use redis_sentinel_reconcile.Text.{Text, codes, text_eq, is_empty, to_lower}
use redis_sentinel_reconcile.Text.Decimal.{itoa, atoi}
use redis_sentinel_reconcile.Net.{sprint_addr}
use redis_sentinel_reconcile.Redisconn.{Dial}
use redis_sentinel_reconcile.Commands.{Reply, ok, err}
use redis_sentinel_reconcile.World.{Env, M, pure, ◌>>=◌}
use redis_sentinel_reconcile.Sentinel.{
  Client, Fields, field, field?, new_client, get_master, get_info, get_sentinels,
}

pub record EqualEpochReport : Type 0 where
  pub trap : Bool
  pub epochs : List ℤ
  pub ads : List Text
  pub sample_size : ℕ

pub record Sample : Type 0 where
  pub ad : Text
  pub epoch : ℤ

-- The keys of a map of type map[A]struct{} to which the elements are added in turn.
unfoldable pub set_of {ℓ} : {A : Type ℓ} → (A → A → Bool) → List A → List A
set_of eq [] = []
set_of eq (x ∷ xs) = let rest = set_of eq xs in if any (eq x) rest then rest else x ∷ rest

-- strconv.ParseInt(e, 10, 64), or -1
epoch_of : Reply Fields → ℤ
epoch_of (err e) = negsuc 0
epoch_of (ok info) = elim (field? (codes "config-epoch") info) [
  | none ↦ negsuc 0
  | some e ↦ elim (atoi e) [ none ↦ negsuc 0 | some n ↦ n ]
]

pub known_epochs : List Sample → List ℤ
known_epochs [] = []
known_epochs (s ∷ ss) = if is_negative s.epoch then known_epochs ss else s.epoch ∷ known_epochs ss

pub sample_ads : List Sample → List Text
sample_ads [] = []
sample_ads (s ∷ ss) = s.ad ∷ sample_ads ss

unfoldable pub report : List Sample → EqualEpochReport
unfolding known_epochs sample_ads
report samples =
    let ads = sample_ads samples in
    let epochs = known_epochs samples in
    record {
      trap =
          leb 2 (length (set_of text_eq (map to_lower ads)))
          && leb (length (set_of int_eq epochs)) 1;
      epochs = epochs;
      ads = ads;
      sample_size = length samples;
    }

-- The variables of the closure `add`: the addresses seen and the samples taken.
abbrev pub Samples : Type 0
Samples = List Text × List Sample

module _ {W : Type 0} (env : Env W) (master_name : Text) where
  -- What `add` does for a Sentinel that was not seen.
  after_ad : Client → Samples → Reply (Text × ℤ) → M W Samples
  unfolding epoch_of
  after_ad c (seen, samples) (err e) = pure (seen, samples)
  after_ad c (seen, samples) (ok (host, port)) = if is_empty host then pure (seen, samples) else do
    info ← get_info env c master_name
    pure (seen, samples ++ record { ad = sprint_addr host port; epoch = epoch_of info } ∷ [])

  unfoldable pub add_sample : Client → Samples → M W Samples
  unfolding after_ad
  add_sample c (seen, samples) =
      let key = to_lower c.addr in
      if any (text_eq key) seen
      then pure (seen, samples)
      else do reply ← get_master env c master_name; after_ad c (key ∷ seen, samples) reply

  unfoldable pub add_clients : List Client → Samples → M W Samples
  add_clients [] acc = pure acc
  add_clients (c ∷ cs) acc = do acc' ← add_sample c acc; add_clients cs acc'

  unfoldable pub add_peers : Dial → List Fields → Samples → M W Samples
  add_peers peer [] acc = pure acc
  add_peers peer (p ∷ ps) acc =
      let ip = field (codes "ip") p in
      let port = field (codes "port") p in
      if is_empty ip || is_empty port then add_peers peer ps acc else do
        acc' ← add_sample (new_client env.resolver (record peer { addr = ip ++ b':' ∷ port })) acc
        add_peers peer ps acc'

  after_peers : Dial → Reply (List Fields) → Samples → M W Samples
  after_peers peer (err e) acc = pure acc
  after_peers peer (ok ps) acc = add_peers peer ps acc

  -- The peers that the first Sentinel knows.
  unfoldable pub discover_peers : List Client → Dial → Samples → M W Samples
  unfolding after_peers
  discover_peers [] peer acc = pure acc
  discover_peers (c ∷ cs) peer acc = do
    peers ← get_sentinels env c master_name
    after_peers peer peers acc

  unfoldable pub detect_equal_epoch_trap : List Client → Dial → M W EqualEpochReport
  detect_equal_epoch_trap clients peer = do
    direct ← add_clients clients ([], [])
    all ← discover_peers clients peer direct
    pure (report all.1)
