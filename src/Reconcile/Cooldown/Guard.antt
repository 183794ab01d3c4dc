-- ===== src/Reconcile/Cooldown/Guard.antt =====
-- An apply that passes its checks comes after the cooldown.
use redis_sentinel_reconcile.Prelude.{
  ℕ, ◌-◌, ◌<◌, ◌&&◌, Bool, true, false, List, Option, none, some, ◌≡◌, refl, arith, Bool-cases, inl,
  inr,
}
use redis_sentinel_reconcile.Prelude.Int.{pos, is_positive, lt_int}
use redis_sentinel_reconcile.Text.{Text}
use redis_sentinel_reconcile.Oracle.{NodeResult}
use redis_sentinel_reconcile.Reconcile.Config.{Config}
use redis_sentinel_reconcile.Reconcile.Guards.{
  requires_local, is_failover_in_progress, few_reachable, check_reachable, check_cooldown,
  preflight_apply, deny,
}
use redis_sentinel_reconcile.Reconcile.Guards.Steady.{Keeps-refuse_apply}
use redis_sentinel_reconcile.Reconcile.Cooldown.{
  IsClock, Cooling, Cool, Cooling-IsSteady, reads_no_attempt,
}
use redis_sentinel_reconcile.World.{
  Env, St, Refusal, pure, ◌>>=◌, ask, get_last_heal, heal_cooldown, failover_in_progress,
  apply_requires_local_sentinel, partition_suspect_few_reachable_redis,
}

module _ {W : Type 0} (env : Env W) (cfg : Config) (time : W → ℕ) (clock : IsClock env time)
    (gap : ℕ) (gap_positive : 0 < gap) (cooldown : cfg.heal_cooldown ≡ pos gap) where
  -- What holds behind a check by its answer.
  abbrev pub After : Bool → St W → Type 0
  After true s = Cool time gap s
  After false s = Cooling time gap s

  abbrev Checked : Bool × St W → Type 0
  Checked (b, s) = After b s

  deny-After : (why : Refusal) (s : St W) → Cooling time gap s → Checked (deny env cfg why s)
  unfolding ◌>>=◌ pure
  deny-After why s h =
      (Keeps-refuse_apply clock.forward (Cooling-IsSteady time gap) reads_no_attempt why).at s h

  check_reachable-After :
      (nodes : List NodeResult) (s : St W)
      → Cool time gap s
      → Checked (check_reachable env cfg nodes s)
  unfolding check_reachable pure
  check_reachable-After nodes s h = elim (Bool-cases (few_reachable env.resolver cfg nodes)) [
    | inl few ↦ rw few (deny-After partition_suspect_few_reachable_redis s (h.cooling))
    | inr enough ↦ rw enough h
  ]

  cooldown_positive : is_positive cfg.heal_cooldown ≡ true
  cooldown_positive = rw cooldown (ground arith)

  check_cooldown-After :
      (nodes : List NodeResult) (last : Option ℕ) (s : St W)
      → s.last_heal ≡ last
      → Cooling time gap s
      → Checked (check_cooldown env cfg nodes last s)
  unfolding check_cooldown ask ◌>>=◌
  check_cooldown-After nodes none s known h =
      check_reachable-After nodes s (record { cooling = h; over = λ t e. absurd (cc) })
  check_cooldown-After nodes (some last) s known h =
      let (t, w) = env.now s.world in
      let s' = record s { world = w } in
      let from = clock.now_from s.world in
      let to = clock.now_to s.world in
      let h' = (Cooling-IsSteady time gap).world s w (ground (arith, from, to)) h in
      rw cooldown_positive
        (elim (Bool-cases (lt_int ((env.now s.world).0 - last) cfg.heal_cooldown)) [
          | inl early ↦ rw early (deny-After heal_cooldown s' h')
          | inr late ↦ rw late (
              check_reachable-After nodes s' (record {
                cooling = h';
                over = λ u e. ground (arith, rw cooldown at late, known, e, from, to, h.past u e);
              }))
        ])

  pub preflight_apply-After :
      (flags : Text) (nodes : List NodeResult) (s : St W)
      → Cooling time gap s
      → Checked (preflight_apply env cfg flags nodes s)
  unfolding preflight_apply get_last_heal ◌>>=◌
  preflight_apply-After flags nodes s h = elim (Bool-cases (requires_local cfg)) [
    | inl global ↦ rw global (deny-After apply_requires_local_sentinel s h)
    | inr local ↦
        rw local
          (elim (Bool-cases (cfg.skip_on_failover_in_progress && is_failover_in_progress flags)) [
            | inl busy ↦ rw busy (deny-After failover_in_progress s h)
            | inr idle ↦ rw idle (check_cooldown-After nodes s.last_heal s refl h)
          ])
  ]
