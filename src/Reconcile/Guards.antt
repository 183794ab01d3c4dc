-- ===== src/Reconcile/Guards.antt =====
-- internal/reconcile/guards.go: the checks before an apply.

pub mod Steady
pub mod Laws
use redis_sentinel_reconcile.Prelude.{
  ℕ, suc, ◌-◌, Bool, true, false, not, ◌&&◌, ◌||◌, List, [], ◌∷◌, leb, ltb, length, any, Option,
  none, some, if◌then◌else◌,
}
use redis_sentinel_reconcile.Prelude.Int.{ℤ, pos, is_positive, is_zero, lt_int}
use redis_sentinel_reconcile.Text.{Text, codes, text_eq, contains, to_lower, equal_fold}
use redis_sentinel_reconcile.Net.{Resolver, same_redis_endpoint}
use redis_sentinel_reconcile.Oracle.{NodeResult, Err, is_none}
use redis_sentinel_reconcile.Redisconn.{Dial}
use redis_sentinel_reconcile.Probe.{probe_dial}
use redis_sentinel_reconcile.Reconcile.Config.{Config}
use redis_sentinel_reconcile.World.{
  Env, Refusal, apply_requires_local_sentinel, failover_in_progress, heal_cooldown,
  partition_suspect_few_reachable_redis, apply_refused, alert, M, pure, ◌>>=◌, ◌>>◌, ask, note,
  count, get_last_heal,
}

-- refuseApply
unfoldable pub refuse_apply : {W : Type 0} → Refusal → M W Unit
refuse_apply why = do note (alert (apply_refused why)); count (codes "apply_refused")

unfoldable pub is_failover_in_progress : Text → Bool
is_failover_in_progress flags =
    contains (to_lower flags) (codes "failover_in_progress")
    || contains (to_lower flags) (codes "force_failover_host")

abbrev reached : Resolver → Text → NodeResult → Bool
reached r seed n = is_none n.err && (same_redis_endpoint r n.addr seed || equal_fold n.addr seed)

count_reached : List NodeResult → ℕ
count_reached [] = 0
count_reached (n ∷ ns) = if is_none n.err then suc (count_reached ns) else count_reached ns

count_seeds : Resolver → List Text → List NodeResult → ℕ
count_seeds r [] nodes = 0
count_seeds r (seed ∷ seeds) nodes =
    if any (reached r seed) nodes
    then suc (count_seeds r seeds nodes)
    else count_seeds r seeds nodes

unfoldable pub count_reachable_seeds : Resolver → List Text → List NodeResult → ℕ
unfolding count_reached count_seeds
count_reachable_seeds r [] nodes = count_reached nodes
count_reachable_seeds r (seed ∷ seeds) nodes = count_seeds r (seed ∷ seeds) nodes

-- 0 asks for two where three seeds or more are listed.
unfoldable pub min_reachable : Config → ℤ
min_reachable cfg =
    if is_zero cfg.min_reachable_redis && leb 3 (length cfg.redis_addrs)
    then pos 2
    else cfg.min_reachable_redis

unfoldable pub requires_local : Config → Bool
requires_local cfg =
    cfg.apply && cfg.require_local_for_apply && not cfg.local_sentinel && not cfg.allow_global_apply

unfoldable pub few_reachable : Resolver → Config → List NodeResult → Bool
few_reachable r cfg nodes =
    is_positive (min_reachable cfg)
    && lt_int (count_reachable_seeds r cfg.redis_addrs nodes) (min_reachable cfg)

module _ {W : Type 0} (env : Env W) (cfg : Config) where
  abbrev pub deny : Refusal → M W Bool
  deny why = do refuse_apply why; pure false

  unfoldable pub check_reachable : List NodeResult → M W Bool
  check_reachable nodes =
      if few_reachable env.resolver cfg nodes
      then deny partition_suspect_few_reachable_redis
      else pure true

  unfoldable pub check_cooldown : List NodeResult → Option ℕ → M W Bool
  check_cooldown nodes none = check_reachable nodes
  check_cooldown nodes (some last) =
      if is_positive cfg.heal_cooldown
      then (do
        t ← ask env.now
        if lt_int (t - last) cfg.heal_cooldown then deny heal_cooldown else check_reachable nodes)
      else check_reachable nodes

  unfoldable pub preflight_apply : Text → List NodeResult → M W Bool
  preflight_apply flags nodes =
      if requires_local cfg
      then deny apply_requires_local_sentinel
      else if cfg.skip_on_failover_in_progress && is_failover_in_progress flags
      then deny failover_in_progress
      else do last ← get_last_heal; check_cooldown nodes last

  unfoldable pub after_reprobe : NodeResult → Option Err
  after_reprobe n = elim n.err [
    | some e ↦ some e
    | none ↦
        if not (text_eq n.role (codes "master")) || not n.writable
        then some (codes "oracle not writable after heal")
        else none
  ]

  unfoldable pub reprobe_oracle_writable : Text → Dial → M W (Option Err)
  unfolding after_reprobe
  reprobe_oracle_writable master_key dial = do
    n ← probe_dial env master_key dial
    pure (after_reprobe n)
