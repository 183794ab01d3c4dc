-- ===== src/Reconcile/Guards/Laws.antt =====
-- When the checks before an apply let it pass.
use redis_sentinel_reconcile.Prelude.{
  ℕ, zero, suc, ◌-◌, ◌≤◌, Bool, true, false, not, ◌&&◌, ◌||◌, List, [], ◌∷◌, Option, none, some,
  ◌≡◌, ◌↔◌, ◌⊎◌, refl, arith, length, any, tally, leb, if◌then◌else◌,
}
use redis_sentinel_reconcile.Prelude.Int.{ℤ, pos, negsuc, is_positive, is_zero, lt_int}
use redis_sentinel_reconcile.Text.{Text, codes, to_lower, equal_fold}
use redis_sentinel_reconcile.Text.Within.{Within, contains_iff}
use redis_sentinel_reconcile.Net.{Resolver, same_redis_endpoint}
use redis_sentinel_reconcile.Oracle.{NodeResult, is_none}
use redis_sentinel_reconcile.Reconcile.Config.{Config, new}
use redis_sentinel_reconcile.Reconcile.Guards.{
  requires_local, is_failover_in_progress, few_reachable, check_cooldown, check_reachable,
  preflight_apply, count_reachable_seeds, count_reached, count_seeds, refuse_apply, min_reachable,
  reached,
}
use redis_sentinel_reconcile.World.{Env, St, pure, ◌>>=◌, ask, get_last_heal}

-- An apply that needs a local Sentinel and has none.
abbrev pub LacksLocal : Config → Type 0
LacksLocal cfg =
    (cfg.apply ≡ true)
    × (cfg.require_local_for_apply ≡ true)
    × (cfg.local_sentinel ≡ false)
    × (cfg.allow_global_apply ≡ false)

-- The flags of a master, in any case, have a word for a failover.
abbrev pub FailsOver : Text → Type 0
FailsOver flags =
    Within (codes "failover_in_progress") (to_lower flags)
    ⊎ Within (codes "force_failover_host") (to_lower flags)

-- At the time `t`, the last attempt is a cooldown ago; a cooldown that is not positive asks nothing.
abbrev pub Cooled : ℤ → Option ℕ → ℕ → Type 0
Cooled cooldown none t = Unit
Cooled (pos cooldown) (some last) t = cooldown ≤ t - last
Cooled (negsuc n) (some last) t = Unit

-- How many seeds have to answer: as many as are set, and two of three or more where 0 is set.
abbrev pub demand : ℤ → List Text → ℕ
demand (pos zero) (a ∷ b ∷ c ∷ seeds) = 2
demand (pos zero) seeds = 0
demand (pos (suc n)) seeds = suc n
demand (negsuc n) seeds = 0

-- How many seeds a probed node without an error stands for; without seeds, how many such nodes.
abbrev pub answered : Resolver → List Text → List NodeResult → ℕ
answered r [] nodes = tally (λ n. is_none n.err) nodes
answered r (seed ∷ seeds) nodes =
    tally
      (λ s.
        any (λ n. is_none n.err && (same_redis_endpoint r n.addr s || equal_fold n.addr s)) nodes)
      (seed ∷ seeds)

requires_local_iff : (cfg : Config) → (requires_local cfg ≡ false) ↔ (¬ LacksLocal cfg)
unfolding requires_local
requires_local_iff cfg = ground arith

is_failover_in_progress_iff :
    (flags : Text) → (is_failover_in_progress flags ≡ true) ↔ FailsOver flags
unfolding is_failover_in_progress
is_failover_in_progress_iff flags = ground (
  arith,
  contains_iff (to_lower flags) (codes "failover_in_progress"),
  contains_iff (to_lower flags) (codes "force_failover_host"),
)

count_reached-tally :
    (nodes : List NodeResult) → count_reached nodes ≡ tally (λ n. is_none n.err) nodes
unfolding count_reached
count_reached-tally [] = refl
count_reached-tally (n ∷ ns) = ground (arith, count_reached-tally ns)

count_seeds-tally :
    (r : Resolver) (seeds : List Text) (nodes : List NodeResult)
    → count_seeds r seeds nodes ≡ tally (λ s. any (reached r s) nodes) seeds
unfolding count_seeds
count_seeds-tally r [] nodes = refl
count_seeds-tally r (seed ∷ seeds) nodes = ground (arith, count_seeds-tally r seeds nodes)

count_reachable_seeds-answered :
    (r : Resolver) (seeds : List Text) (nodes : List NodeResult)
    → count_reachable_seeds r seeds nodes ≡ answered r seeds nodes
unfolding count_reachable_seeds
count_reachable_seeds-answered r [] nodes = count_reached-tally nodes
count_reachable_seeds-answered r (seed ∷ seeds) nodes = count_seeds-tally r (seed ∷ seeds) nodes

-- The two thresholds are the same one.
demand_lem :
    (wanted : ℤ) (seeds : List Text) (n : ℕ)
    → let least = if is_zero wanted && leb 3 (length seeds) then pos 2 else wanted in
      ((is_positive least && lt_int n least) ≡ false) ↔ (demand wanted seeds ≤ n)
demand_lem (pos zero) [] n = ground arith
demand_lem (pos zero) (a ∷ []) n = ground arith
demand_lem (pos zero) (a ∷ b ∷ []) n = ground arith
demand_lem (pos zero) (a ∷ b ∷ c ∷ seeds) n = ground arith
demand_lem (pos (suc m)) seeds n = ground arith
demand_lem (negsuc m) seeds n = ground arith

few_reachable_iff :
    (r : Resolver) (cfg : Config) (nodes : List NodeResult)
    → (few_reachable r cfg nodes ≡ false)
      ↔ (demand cfg.min_reachable_redis cfg.redis_addrs ≤ answered r cfg.redis_addrs nodes)
unfolding few_reachable min_reachable
few_reachable_iff r cfg nodes = ground (
  arith,
  count_reachable_seeds-answered r cfg.redis_addrs nodes,
  demand_lem cfg.min_reachable_redis cfg.redis_addrs (answered r cfg.redis_addrs nodes),
)

-- Whether the last attempt, if any, is a cooldown ago.
abbrev is_cooled : ℤ → Option ℕ → ℕ → Bool
is_cooled cooldown none t = true
is_cooled cooldown (some last) t = not (is_positive cooldown) || not (lt_int (t - last) cooldown)

is_cooled_iff :
    (cooldown : ℤ) (last : Option ℕ) (t : ℕ)
    → (is_cooled cooldown last t ≡ true) ↔ Cooled cooldown last t
is_cooled_iff cooldown none t = ground arith
is_cooled_iff (pos c) (some last) t = ground arith
is_cooled_iff (negsuc n) (some last) t = ground arith

module _ {W : Type 0} (env : Env W) (cfg : Config) where
  check_reachable-passes :
      (nodes : List NodeResult) (s : St W)
      → (check_reachable env cfg nodes s).0 ≡ not (few_reachable env.resolver cfg nodes)
  unfolding check_reachable refuse_apply ◌>>=◌ pure
  check_reachable-passes nodes s = ground arith

  check_cooldown-passes :
      (nodes : List NodeResult) (last : Option ℕ) (s : St W)
      → (check_cooldown env cfg nodes last s).0 ≡ (
          is_cooled cfg.heal_cooldown last (env.now s.world).0
          && not (few_reachable env.resolver cfg nodes))
  unfolding check_cooldown refuse_apply ask ◌>>=◌ pure
  check_cooldown-passes nodes none s = check_reachable-passes nodes s
  check_cooldown-passes nodes (some last) s = ground (
    arith,
    check_reachable-passes nodes s,
    check_reachable-passes nodes (record s { world = (env.now s.world).1 }),
  )

  preflight_apply-passes :
      (flags : Text) (nodes : List NodeResult) (s : St W)
      → (preflight_apply env cfg flags nodes s).0 ≡ (
          not (requires_local cfg)
          && not (cfg.skip_on_failover_in_progress && is_failover_in_progress flags)
          && (is_cooled cfg.heal_cooldown s.last_heal (env.now s.world).0
              && not (few_reachable env.resolver cfg nodes)))
  unfolding preflight_apply get_last_heal refuse_apply ◌>>=◌ pure
  preflight_apply-passes flags nodes s = ground (arith, check_cooldown-passes nodes s.last_heal s)

  -- An apply passes its checks exactly when it does not need a local Sentinel that it lacks, the
  -- flags of the master, in any case, have no word for a failover where that is looked at, the last
  -- attempt is a cooldown ago at the time read, and as many seeds answered as are demanded.
  pub preflight_apply_iff :
      (flags : Text) (nodes : List NodeResult) (s : St W)
      → ((preflight_apply env cfg flags nodes s).0 ≡ true) ↔ (
          (¬ LacksLocal cfg)
          × (¬ ((cfg.skip_on_failover_in_progress ≡ true) × FailsOver flags))
          × Cooled cfg.heal_cooldown s.last_heal (env.now s.world).0
          × (demand cfg.min_reachable_redis cfg.redis_addrs
              ≤ answered env.resolver cfg.redis_addrs nodes))
  preflight_apply_iff flags nodes s = ground (
    arith,
    preflight_apply-passes flags nodes s,
    requires_local_iff cfg,
    is_failover_in_progress_iff flags,
    is_cooled_iff cfg.heal_cooldown s.last_heal (env.now s.world).0,
    few_reachable_iff env.resolver cfg nodes,
  )

-- For a Reconciler that New made, a local Sentinel is missed exactly under --apply with neither
-- --local-sentinel nor --allow-global-apply.
new-requires_local :
    (cfg : Config)
    → requires_local (new cfg) ≡ (cfg.apply && not cfg.local_sentinel && not cfg.allow_global_apply)
unfolding requires_local new
new-requires_local cfg = ground arith
