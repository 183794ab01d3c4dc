-- ===== src/Examples/Clock.antt =====
-- A run on a clock that moves on with every reading and every wait.
use redis_sentinel_reconcile.Prelude.{
  ℕ, suc, ◌+◌, ◌≤◌, true, [], ◌∷◌, none, refl, arith, if◌then◌else◌,
}
use redis_sentinel_reconcile.Prelude.Int.{ℤ, pos}
use redis_sentinel_reconcile.Text.{codes, text_eq}
use redis_sentinel_reconcile.Commands.{ok, err, str}
use redis_sentinel_reconcile.Metrics.{new_metrics}
use redis_sentinel_reconcile.Reconcile.Cooldown.{IsClock, IsSpaced, attempt_times}
use redis_sentinel_reconcile.Reconcile.Cooldown.Run.{run-IsSpaced}
use redis_sentinel_reconcile.Reconcile.Tick.{run}
use redis_sentinel_reconcile.World.{Env, St}
use redis_sentinel_reconcile.Examples.{cfg, live, plain_resolver}

abbrev moved : ℤ → ℕ → ℕ
moved (pos d) w = w + d
moved d w = w

abbrev clocked : Env ℕ
clocked = record {
  resolver = plain_resolver;
  do_string_slice = λ o a w. (ok (codes "10.0.0.1" ∷ codes "6379" ∷ []), w);
  do_slice = λ o a w. (ok [], w);
  do_err = λ o a w. (none, w);
  redis_role = λ o w. (
    (if text_eq o.addr live
        then ok (str (codes "master") ∷ [])
        else err (codes "connection refused")),
    w,
  );
  redis_info = λ o t w. (ok [], w);
  redis_set = λ o k at ttl w. (none, w);
  redis_set_nx = λ o k v ttl w. (ok true, w);
  redis_get = λ o k w. (err (codes "redis: nil"), w);
  redis_expire = λ o k ttl w. (none, w);
  now = λ w. (w, suc w);
  unix = λ w. (w, w);
  sleep = λ d w. moved d w;
  hostname = λ w. (codes "host", w);
  getpid = λ w. (pos 7, w);
  range_order = λ l w. (l, w);
}

abbrev time : ℕ → ℕ
time w = w

moved_le : (d : ℤ) (w : ℕ) → w ≤ moved d w
moved_le d w = ground arith

clocked-IsClock : IsClock clocked time
clocked-IsClock = record {
  forward = record {
    do_string_slice = λ o a w. omega arith;
    do_slice = λ o a w. omega arith;
    do_err = λ o a w. omega arith;
    redis_role = λ o w. omega arith;
    redis_info = λ o t w. omega arith;
    redis_set = λ o k at ttl w. omega arith;
    redis_set_nx = λ o k v ttl w. omega arith;
    redis_get = λ o k w. omega arith;
    redis_expire = λ o k ttl w. omega arith;
    now = λ w. omega arith;
    unix = λ w. omega arith;
    sleep = moved_le;
    hostname = λ w. omega arith;
    getpid = λ w. omega arith;
    range_order = λ l w. omega arith;
  };
  now_from = λ w. omega arith;
  now_to = λ w. omega arith;
}

abbrev midnight : St ℕ
midnight = record {
  world = 0;
  last_heal = none;
  metrics = new_metrics (codes "mymaster") true;
  journal = [];
}

run-IsSpaced_example :
    IsSpaced 60 (attempt_times (run clocked cfg (pos 10 ∷ pos 100 ∷ []) midnight).1.journal)
run-IsSpaced_example =
    run-IsSpaced clocked cfg time clocked-IsClock 60 (omega arith) refl midnight
      (pos 10 ∷ pos 100 ∷ []) refl (unfold attempt_times in refl)
