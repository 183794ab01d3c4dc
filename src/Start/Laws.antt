-- ===== src/Start/Laws.antt =====
-- The safety of the whole program, from its arguments.
use redis_sentinel_reconcile.Prelude.{
  Bool, true, false, List, [], ◌∷◌, some, ◌≡◌, refl, arith, ◌∙◌, sym, ap, Bool-cases, inl, inr,
}
use redis_sentinel_reconcile.Prelude.Int.{ℤ}
use redis_sentinel_reconcile.Prelude.Result.{Result, ok, err, Holds}
use redis_sentinel_reconcile.Text.{Text, codes}
use redis_sentinel_reconcile.Settings.{Process, ConfigError, file_fields, parse_config}
use redis_sentinel_reconcile.Settings.Laws.{IsUsable, parse_config-IsUsable}
use redis_sentinel_reconcile.Start.{Build, wants_version, start_with, main}
use redis_sentinel_reconcile.Settings.Dry.{IsDry, parse_config-IsDry}
use redis_sentinel_reconcile.Sentinel.{Fields}
use redis_sentinel_reconcile.EnvFile.{layer_getenv, peek_config_path}
use redis_sentinel_reconcile.EnvVars.{env_apply}
use redis_sentinel_reconcile.Flags.Laws.{mentions}
use redis_sentinel_reconcile.Reconcile.Config.{Config, new}
use redis_sentinel_reconcile.Reconcile.Safety.{
  is_heal_step, is_failover_sent, changes_other, not_other, run-dry_run, run-no_failover,
  run-local_sentinel,
}
use redis_sentinel_reconcile.Reconcile.Safety.Select.{select}
use redis_sentinel_reconcile.World.{Env, St, Entry, pure, ◌>>=◌}

-- What is selected by a narrower test is decided by what a wider one selects.
select-select :
    (p q : Entry → Bool) (es : List Entry)
    → ((e : Entry) → p e ≡ true → q e ≡ true)
    → select p (select q es) ≡ select p es
unfolding select
select-select p q [] sub = refl
select-select p q (e ∷ es) sub = ground (arith, sub e, select-select p q es sub)

other_heals : (a : Text) (e : Entry) → changes_other a e ≡ true → is_heal_step e ≡ true
other_heals a e h = ground (arith, h, not_other a e)

module _ {W : Type 0} (env : Env W) (b : Build) (p : Process) (s : St W) where
  no_failover_from :
      (r : Result ConfigError Config) (waits : List ℤ)
      → select is_failover_sent (start_with env r waits s).1.journal
        ≡ select is_failover_sent s.journal
  unfolding start_with ◌>>=◌ pure
  no_failover_from (err e) waits = refl
  no_failover_from (ok cfg) waits = run-no_failover env (new cfg) s waits

  -- The program never sends SENTINEL FAILOVER.
  main-no_failover :
      (args : List Text) (waits : List ℤ)
      → select is_failover_sent (main env b p args waits s).1.journal
        ≡ select is_failover_sent s.journal
  unfolding main pure
  main-no_failover args waits = elim (Bool-cases (wants_version args)) [
    | inl version ↦ rw version refl
    | inr starts ↦ rw starts (no_failover_from (parse_config args p) waits)
  ]

  one_sentinel_from :
      (cfg : Config) (a : Text) (rest : List Text) (waits : List ℤ)
      → IsUsable cfg
      → cfg.allow_global_apply ≡ false
      → cfg.sentinel_addrs ≡ a ∷ rest
      → select (changes_other a) (start_with env (ok cfg) waits s).1.journal
        ≡ select (changes_other a) s.journal
  unfolding start_with ◌>>=◌ pure new
  one_sentinel_from cfg a rest waits usable global addrs = elim (Bool-cases cfg.apply) [
    | inl applies ↦
        run-local_sentinel env (new cfg) s a rest waits
          (ground (arith, usable.local, applies, global)) addrs
    | inr dry ↦
        let wide = select-select (changes_other a) is_heal_step in
        sym (wide _ (other_heals a))
        ∙ ap (select (changes_other a)) (run-dry_run env (new cfg) s waits dry)
        ∙ wide _ (other_heals a)
  ]

  -- With arguments, environment and config file that give a config without --allow-global-apply,
  -- the program changes no Sentinel but the one at the first address of that config.
  pub main-one_sentinel :
      (args : List Text) (cfg : Config) (a : Text) (rest : List Text) (waits : List ℤ)
      → parse_config args p ≡ ok cfg
      → cfg.allow_global_apply ≡ false
      → cfg.sentinel_addrs ≡ a ∷ rest
      → select (changes_other a) (main env b p args waits s).1.journal
        ≡ select (changes_other a) s.journal
  unfolding main pure
  main-one_sentinel args cfg a rest waits parsed global addrs =
      let usable = parse_config-IsUsable args p cfg parsed in
      elim (Bool-cases (wants_version args)) [
        | inl version ↦ rw version refl
        | inr starts ↦ rw (starts, parsed) (one_sentinel_from cfg a rest waits usable global addrs)
      ]

  dry_from :
      (r : Result ConfigError Config) (waits : List ℤ)
      → Holds IsDry r
      → select is_heal_step (start_with env r waits s).1.journal ≡ select is_heal_step s.journal
  unfolding start_with ◌>>=◌ pure new
  dry_from (err e) waits dry = refl
  dry_from (ok cfg) waits dry = run-dry_run env (new cfg) s waits (dry.at cfg refl)

  -- Where the config file, if one is chosen, can be read, no argument names --apply, and neither
  -- the environment nor the file turns it on, the program takes no lease, changes no Sentinel and
  -- attempts no heal.
  pub main-dry_run :
      (args : List Text) (path : Text) (file : Fields) (waits : List ℤ)
      → peek_config_path args p.getenv ≡ some path
      → file_fields p path ≡ ok file
      → env_apply (layer_getenv p.getenv file) ≡ false
      → mentions (codes "apply") args ≡ false
      → select is_heal_step (main env b p args waits s).1.journal ≡ select is_heal_step s.journal
  unfolding main pure
  main-dry_run args path file waits peeked loaded off unnamed =
      elim (Bool-cases (wants_version args)) [
        | inl version ↦ rw version refl
        | inr starts ↦ rw starts (
            dry_from (parse_config args p) waits
              (parse_config-IsDry args p path file peeked loaded off unnamed))
      ]
