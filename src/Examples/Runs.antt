-- ===== src/Examples/Runs.antt =====
-- The theorems on runs, guards and the lease at the deployment of Examples.antt.
use redis_sentinel_reconcile.Prelude.{
  true, false, List, [], ◌∷◌, Option, none, some, ◌≡◌, ◌↔◌, ◌⊎◌, ◌≤◌, refl, arith,
}
use redis_sentinel_reconcile.Prelude.Int.{ℤ, pos, is_positive}
use redis_sentinel_reconcile.Text.{Text, codes, text_eq}
use redis_sentinel_reconcile.Oracle.{is_writable_master, classify_writable, identity_key}
use redis_sentinel_reconcile.Commands.{ok}
use redis_sentinel_reconcile.Sentinel.{Client, get_master, new_client}
use redis_sentinel_reconcile.Probe.{probe_dial}
use redis_sentinel_reconcile.Lease.{
  acquire_heal_lease, lease_key, lease_options, resolve_holder, after_set_nx,
}
use redis_sentinel_reconcile.Lease.Laws.{IsStore, acquire_heal_lease-exclusive}
use redis_sentinel_reconcile.Reconcile.Config.{redis_dial, sentinel_dial}
use redis_sentinel_reconcile.Reconcile.Guards.{preflight_apply}
use redis_sentinel_reconcile.Reconcile.Guards.Laws.{
  LacksLocal, FailsOver, Cooled, demand, answered, preflight_apply_iff,
}
use redis_sentinel_reconcile.Reconcile.Heal.{verify_heal, heal_plan, heal_api}
use redis_sentinel_reconcile.Reconcile.Heal.Laws.{Names, verify_heal_iff}
use redis_sentinel_reconcile.Reconcile.Nodes.{oracle_nodes}
use redis_sentinel_reconcile.Reconcile.Tick.{run, classify}
use redis_sentinel_reconcile.Reconcile.Safety.{
  is_heal_step, is_failover_sent, changes_other, run-dry_run, run-no_failover, run-local_sentinel,
  classify-one_writable,
}
use redis_sentinel_reconcile.Reconcile.Safety.Replace.{IsReplaced, nothing, run-IsReplaced}
use redis_sentinel_reconcile.Reconcile.Safety.Protocol.{Phase, ends, Trace, heal_api-Trace}
use redis_sentinel_reconcile.Reconcile.Safety.Leases.{is_stray, lease_time, run-leases}
use redis_sentinel_reconcile.Reconcile.Safety.Select.{select}
use redis_sentinel_reconcile.World.{◌>>=◌, pure, send}
use redis_sentinel_reconcile.Examples.{
  env, set_nx_of, get_of, cfg, start, live, sentinel, dead, other, plain_resolver, one_master,
  two_masters,
}

abbrev waits : List ℤ
waits = pos 10 ∷ pos 12 ∷ []

run-dry_run_example :
    select is_heal_step (run env (record cfg { apply = false }) waits start).1.journal
    ≡ select is_heal_step []
run-dry_run_example = run-dry_run env (record cfg { apply = false }) start waits refl

run-no_failover_example :
    select is_failover_sent (run env cfg waits start).1.journal ≡ select is_failover_sent []
run-no_failover_example = run-no_failover env cfg start waits

run-local_sentinel_example :
    select (changes_other sentinel) (run env cfg waits start).1.journal
    ≡ select (changes_other sentinel) []
run-local_sentinel_example = run-local_sentinel env cfg start sentinel (other ∷ []) waits refl refl

dual :
    (classify_writable plain_resolver
      (oracle_nodes plain_resolver (record cfg { redis_addrs = [] }) two_masters)).1
    ≡ 2
unfolding oracle_nodes classify_writable identity_key is_writable_master codes text_eq
dual = refl

classify-one_writable_example :
    select is_heal_step
      (classify env (record cfg { redis_addrs = [] }) [] [] two_masters start).1.journal
    ≡ select is_heal_step []
classify-one_writable_example =
    classify-one_writable env (record cfg { redis_addrs = [] }) start [] [] two_masters
      λ h. ground (arith, h, dual)

run-leases_example :
    (select (is_stray cfg) (run env cfg waits start).1.journal ≡ select (is_stray cfg) [])
    × (is_positive (lease_time cfg) ≡ true)
run-leases_example = run-leases env cfg start waits

run-IsReplaced_example : IsReplaced (codes "mymaster") (pos 2) (run env cfg waits start).1.journal
run-IsReplaced_example = run-IsReplaced env cfg start waits nothing

preflight_apply_iff_example :
    ((preflight_apply env cfg (codes "master") one_master start).0 ≡ true) ↔ (
      (¬ LacksLocal cfg)
      × (¬ ((cfg.skip_on_failover_in_progress ≡ true) × FailsOver (codes "master")))
      × Cooled cfg.heal_cooldown start.last_heal (env.now start.world).0
      × (demand cfg.min_reachable_redis cfg.redis_addrs
          ≤ answered plain_resolver cfg.redis_addrs one_master))
preflight_apply_iff_example = preflight_apply_iff env cfg (codes "master") one_master start

abbrev client_at : Client
client_at = new_client plain_resolver (sentinel_dial cfg sentinel)

verify_heal_iff_example :
    let (reply, s') = get_master env client_at cfg.master_name start in
    let node = (probe_dial env live (redis_dial cfg) s').0 in
    ((verify_heal env cfg client_at live start).0 ≡ true) ↔ (
      Names plain_resolver live reply
      × (node.err ≡ none)
      × (node.role ≡ codes "master")
      × (node.writable ≡ true))
verify_heal_iff_example = verify_heal_iff env cfg client_at live start

-- What the lease key holds is the whole world.
abbrev value : Option Text → Text → Option Text
value w k = w

set_nx_free :
    (v : Text) (w : Option Text)
    → (set_nx_of v w).0 ≡ ok true
    → (w ≡ none) × ((set_nx_of v w).1 ≡ some v)
set_nx_free v none h = (refl, refl)
set_nx_free v (some t) h = absurd (cc)

set_nx_kept : (v : Text) (w : Option Text) → (set_nx_of v w).0 ≡ ok false → (set_nx_of v w).1 ≡ w
set_nx_kept v none h = absurd (cc)
set_nx_kept v (some t) h = refl

get_held :
    (v : Text) (w : Option Text) → (get_of w).0 ≡ ok v → (w ≡ some v) × ((get_of w).1 ≡ some v)
get_held v none h = absurd (cc)
get_held v (some t) h = (cc, cc)

store : IsStore env (lease_options plain_resolver live (redis_dial cfg)) value
store = record {
  set_nx = λ k v ttl w. set_nx_free v w;
  set_nx_taken = λ k v ttl w. set_nx_kept v w;
  get = λ k v w. get_held v w;
  expire = λ k ttl w. refl;
}

granted :
    (acquire_heal_lease env live (codes "mymaster") (codes "me") (pos 30) (redis_dial cfg) start).0
    ≡ ok true
unfolding acquire_heal_lease resolve_holder after_set_nx send ◌>>=◌ pure codes
granted = refl

acquire_heal_lease-exclusive_example :
    ((value none (lease_key (codes "mymaster")) ≡ none)
      ⊎ (value none (lease_key (codes "mymaster")) ≡ some (codes "me")))
    × (value
          (acquire_heal_lease env live
            (codes "mymaster")
            (codes "me")
            (pos 30)
            (redis_dial cfg)
            start).1.world
          (lease_key (codes "mymaster"))
        ≡ some (codes "me"))
acquire_heal_lease-exclusive_example =
    acquire_heal_lease-exclusive env live (codes "mymaster") (codes "me") (pos 30) (redis_dial cfg)
      value start store (unfold codes in refl) granted

-- The plan of this heal is MONITOR of the live node.
heal_api-Trace_example :
    (phase : Phase) × (ends phase ≡ true)
    × Trace plain_resolver cfg client_at.addr live
        (heal_plan env cfg dead live one_master [] false).reason
        (select is_heal_step start.journal)
        phase
        (select is_heal_step
          (heal_api env cfg client_at dead live one_master [] false start).1.journal)
heal_api-Trace_example = heal_api-Trace env cfg client_at dead live one_master [] false start
