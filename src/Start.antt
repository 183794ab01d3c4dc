-- ===== src/Start.antt =====
-- main of cmd/reconciler/main.go and version.go: what the process does from its arguments on.
pub mod Laws
pub mod Ends
use redis_sentinel_reconcile.Prelude.{
  ℕ, Bool, true, false, not, ◌&&◌, ◌||◌, List, [], ◌∷◌, ◌++◌, any, if◌then◌else◌,
}
use redis_sentinel_reconcile.Prelude.Int.{ℤ}
use redis_sentinel_reconcile.Prelude.Result.{Result, ok, err}
use redis_sentinel_reconcile.Text.{Text, codes, text_eq, is_empty}
use redis_sentinel_reconcile.Flags.{FlagError, help}
use redis_sentinel_reconcile.Settings.{Process, ConfigError, flags, parse_config}
use redis_sentinel_reconcile.Reconcile.Config.{Config, new}
use redis_sentinel_reconcile.Reconcile.Tick.{run}
use redis_sentinel_reconcile.World.{Env, M, pure, ◌>>=◌, ◌>>◌}

-- The variables that are set at link time.
pub record Build : Type 0 where
  pub version : Text
  pub commit : Text

unfoldable pub wants_version : List Text → Bool
wants_version args = any (λ a. text_eq a (codes "-version") || text_eq a (codes "--version")) args

-- The line that printVersion writes.
unfoldable pub version_line : Build → Text
version_line b =
    if not (is_empty b.commit) && not (text_eq b.commit (codes "none"))
    then codes "redis-sentinel-reconciler " ++ b.version ++ codes " (" ++ b.commit ++ codes ")\n"
    else codes "redis-sentinel-reconciler " ++ b.version ++ codes "\n"

-- How the process ends: with a version on standard output, before a run with an exit code, or after
-- a run, whose error main does not count where it is context.Canceled.
pub data Ending : Type 0 where
  printed : Text → Ending
  refused : ℕ → Ending
  ran : Ending

-- The exit code for an error of parseConfig.
unfoldable pub exit_code : ConfigError → ℕ
exit_code (flags help) = 0
exit_code _ = 2

module _ {W : Type 0} (env : Env W) where
  unfoldable pub start_with : Result ConfigError Config → List ℤ → M W Ending
  unfolding exit_code
  start_with (err e) waits = pure (refused (exit_code e))
  start_with (ok cfg) waits = do run env (new cfg) waits; pure ran

  -- main, given the waits of Run
  unfoldable pub main : Build → Process → List Text → List ℤ → M W Ending
  unfolding wants_version version_line start_with
  main b p args waits =
      if wants_version args
      then pure (printed (version_line b))
      else start_with (parse_config args p) waits
