-- ===== src/World/Steady.antt =====
-- Properties of the state that what only reads cannot change. A world may move on by itself, along
-- a relation `Later` that every answer of it follows.
use redis_sentinel_reconcile.Prelude.{ℕ, Bool, true, false, not, List, ◌∷◌, some, ◌≡◌}
use redis_sentinel_reconcile.Prelude.Int.{ℤ}
use redis_sentinel_reconcile.Text.{Text}
use redis_sentinel_reconcile.Metrics.{Metrics}
use redis_sentinel_reconcile.Redisconn.{Options}
use redis_sentinel_reconcile.Commands.{Arg, RedisCommand, changes_sentinel, role, info, set_probe}
use redis_sentinel_reconcile.World.Keeps.{Keeps}
use redis_sentinel_reconcile.World.{
  Env, Entry, sentinel_call, redis_call, alert, St, ask, send, note, on_metrics, count,
  get_last_heal, set_last_heal, attempt,
}

-- ROLE, INFO and the probe write.
abbrev pub is_probe : RedisCommand → Bool
is_probe role = true
is_probe (info section) = true
is_probe (set_probe key at ttl) = true
is_probe _ = false

-- The entries of what looks and does not heal.
abbrev pub is_read : Entry → Bool
is_read (sentinel_call addr cmd) = not (changes_sentinel cmd)
is_read (redis_call addr cmd) = is_probe cmd
is_read (alert a) = true
is_read _ = false

-- Every answer of the world leads to a later world.
pub record IsLawful {W : Type 0} (env : Env W) (Later : W → W → Type 0) : Type 0 where
  pub do_string_slice : (o : Options) (a : List Arg) (w : W) → Later w (env.do_string_slice o a w).1
  pub do_slice : (o : Options) (a : List Arg) (w : W) → Later w (env.do_slice o a w).1
  pub do_err : (o : Options) (a : List Arg) (w : W) → Later w (env.do_err o a w).1
  pub redis_role : (o : Options) (w : W) → Later w (env.redis_role o w).1
  pub redis_info : (o : Options) (t : Text) (w : W) → Later w (env.redis_info o t w).1
  pub redis_set :
      (o : Options) (k : Text) (at : ℕ) (ttl : ℤ) (w : W) → Later w (env.redis_set o k at ttl w).1
  pub redis_set_nx :
      (o : Options) (k v : Text) (ttl : ℤ) (w : W) → Later w (env.redis_set_nx o k v ttl w).1
  pub redis_get : (o : Options) (k : Text) (w : W) → Later w (env.redis_get o k w).1
  pub redis_expire :
      (o : Options) (k : Text) (ttl : ℤ) (w : W) → Later w (env.redis_expire o k ttl w).1
  pub now : (w : W) → Later w (env.now w).1
  pub unix : (w : W) → Later w (env.unix w).1
  pub sleep : (d : ℤ) (w : W) → Later w (env.sleep d w)
  pub hostname : (w : W) → Later w (env.hostname w).1
  pub getpid : (w : W) → Later w (env.getpid w).1
  pub range_order : (l : List Text) (w : W) → Later w (env.range_order l w).1

-- `P` holds on when the world moves on, the metrics change, or a quiet entry is written.
pub record IsSteady {W : Type 0} (Later : W → W → Type 0) (quiet : Entry → Bool) (P : St W → Type 0)
    : Type 0 where
  pub world : (s : St W) (w : W) → Later s.world w → P s → P (record s { world = w })
  pub metrics : (s : St W) (m : Metrics) → P s → P (record s { metrics = m })
  pub journal :
      (s : St W) (e : Entry) → quiet e ≡ true → P s → P (record s { journal = e ∷ s.journal })

-- Any world moves on along the relation that always holds.
abbrev pub Anyhow : {W : Type 0} → W → W → Type 0
Anyhow v w = Unit

pub Anyhow-IsLawful : {W : Type 0} (env : Env W) → IsLawful env Anyhow
Anyhow-IsLawful env = record {
  do_string_slice = λ o a w. tt;
  do_slice = λ o a w. tt;
  do_err = λ o a w. tt;
  redis_role = λ o w. tt;
  redis_info = λ o t w. tt;
  redis_set = λ o k at ttl w. tt;
  redis_set_nx = λ o k v ttl w. tt;
  redis_get = λ o k w. tt;
  redis_expire = λ o k ttl w. tt;
  now = λ w. tt;
  unix = λ w. tt;
  sleep = λ d w. tt;
  hostname = λ w. tt;
  getpid = λ w. tt;
  range_order = λ l w. tt;
}

module _ {W : Type 0} {Later : W → W → Type 0} {quiet : Entry → Bool} {P : St W → Type 0}
    (steady : IsSteady Later quiet P) where
  pub Keeps-ask : {A : Type 0} (f : W → A × W) → ((w : W) → Later w (f w).1) → Keeps P (ask f)
  unfolding ask
  Keeps-ask f later = record { at = λ s h. steady.world s (f s.world).1 (later s.world) h }

  pub Keeps-send :
      {A : Type 0} (e : Entry) (f : W → A × W)
      → quiet e ≡ true
      → ((w : W) → Later w (f w).1)
      → Keeps P (send e f)
  unfolding send
  Keeps-send e f q later = record {
    at = λ s h.
        steady.world (record s { journal = e ∷ s.journal }) (f s.world).1 (later s.world)
          (steady.journal s e q h);
  }

  pub Keeps-note : (e : Entry) → quiet e ≡ true → Keeps P (note e)
  unfolding note
  Keeps-note e q = record { at = λ s h. steady.journal s e q h }

  pub Keeps-on_metrics : (f : Metrics → Metrics) → Keeps P (on_metrics f)
  unfolding on_metrics
  Keeps-on_metrics f = record { at = λ s h. steady.metrics s (f s.metrics) h }

  pub Keeps-count : (name : Text) → Keeps P (count name)
  unfolding count
  Keeps-count name = Keeps-on_metrics _

pub Keeps-get_last_heal : {W : Type 0} {P : St W → Type 0} → Keeps P get_last_heal
unfolding get_last_heal
Keeps-get_last_heal = record { at = λ s h. h }

-- What depends on neither last_heal nor an attempt is kept by an attempt.
pub Keeps-set_last_heal :
    {W : Type 0} {P : St W → Type 0}
    → ((s : St W) (t : ℕ)
        → P s
        → P (record s { last_heal = some t; journal = attempt t ∷ s.journal }))
    → (t : ℕ) → Keeps P (set_last_heal t)
unfolding set_last_heal
Keeps-set_last_heal attempts t = record { at = λ s h. attempts s t h }
