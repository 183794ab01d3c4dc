-- ===== src/Start/Ends.antt =====
-- How the program ends before a run.
use redis_sentinel_reconcile.Prelude.{false, List, some, ◌≡◌, ◌≢◌, ◌⊎◌, refl, Bool-cases, inl, inr}
use redis_sentinel_reconcile.Prelude.Int.{ℤ}
use redis_sentinel_reconcile.Prelude.Result.{Result, ok, err}
use redis_sentinel_reconcile.Text.{Text, is_empty}
use redis_sentinel_reconcile.Settings.{Process, ConfigError, file_fields, parse_with, parse_config}
use redis_sentinel_reconcile.Settings.Laws.{IsUsable, parse_config-IsUsable}
use redis_sentinel_reconcile.Start.{Build, refused, ran, wants_version, start_with, main}
use redis_sentinel_reconcile.EnvFile.{FileError, load_env_file, peek_config_path}
use redis_sentinel_reconcile.Reconcile.Config.{Config}
use redis_sentinel_reconcile.World.{Env, St, pure}

module _ {W : Type 0} (env : Env W) (b : Build) (p : Process) (s : St W) where
  refusal_from :
      (args : List Text) (r : Result ConfigError Config) (waits : List ℤ)
      → parse_config args p ≡ r
      → (((start_with env r waits s).1 ≡ s) × ((start_with env r waits s).0 ≢ ran))
        ⊎ ((cfg : Config) × (parse_config args p ≡ ok cfg) × IsUsable cfg)
  unfolding start_with pure
  refusal_from args (err e) waits parsed = inl (refl, λ h. absurd (cc))
  refusal_from args (ok cfg) waits parsed =
      inr (cfg, parsed, parse_config-IsUsable args p cfg parsed)

  -- Either the program ends before a run and has asked and changed nothing, or its arguments,
  -- environment and config file give a usable config.
  pub main-refusal :
      (args : List Text) (waits : List ℤ)
      → (((main env b p args waits s).1 ≡ s) × ((main env b p args waits s).0 ≢ ran))
        ⊎ ((cfg : Config) × (parse_config args p ≡ ok cfg) × IsUsable cfg)
  unfolding main pure
  main-refusal args waits = elim (Bool-cases (wants_version args)) [
    | inl version ↦ rw version (inl (refl, λ h. absurd (cc)))
    | inr starts ↦ rw starts (refusal_from args (parse_config args p) waits refl)
  ]

  -- Without a question for the version, with a config file that cannot be read or that has a bad
  -- line, the program ends with exit code 2 and has asked and changed nothing.
  pub main-file_error :
      (args : List Text) (path : Text) (e : FileError) (waits : List ℤ)
      → wants_version args ≡ false
      → peek_config_path args p.getenv ≡ some path
      → is_empty path ≡ false
      → load_env_file p.files.read_file path ≡ err e
      → main env b p args waits s ≡ (refused 2, s)
  unfolding main pure parse_config
  main-file_error args path e waits starts peeked given fails =
      rw (main, starts, parse_config, peeked, parse_with, file_fields, given, fails) refl
