-- ===== src/Settings/Dry.antt =====
-- A config that nothing asks to apply.
use redis_sentinel_reconcile.Prelude.{ap, false, List, some, ◌≡◌, ◌∙◌, sym}
use redis_sentinel_reconcile.Prelude.Result.{ok, Holds}
use redis_sentinel_reconcile.Text.{Text, codes}
use redis_sentinel_reconcile.Sentinel.{Fields}
use redis_sentinel_reconcile.EnvFile.{Getenv, layer_getenv, peek_config_path}
use redis_sentinel_reconcile.EnvVars.{env_apply}
use redis_sentinel_reconcile.Flags.{BoolFlag, switch, bool_name, flag_name, Values, parse_flags}
use redis_sentinel_reconcile.Flags.Laws.{mentions, Same, parse_flags-Same}
use redis_sentinel_reconcile.Reconcile.Config.{Config}
use redis_sentinel_reconcile.Settings.Made.{parse_config-IsMade}
use redis_sentinel_reconcile.Settings.{
  config_of, Process, bool_of_env, defaults, file_fields, parse_config,
}

abbrev pub IsDry : Config → Type 0
IsDry cfg = cfg.apply ≡ false

-- The flag --apply that no argument names has the value of the environment.
apply_of_env :
    (p : Process) (getenv : Getenv) (args : List Text) (v : Values)
    → mentions (codes "apply") args ≡ false
    → parse_flags p.parsers args (defaults p.parsers getenv) ≡ ok v
    → v.bools BoolFlag.apply ≡ env_apply getenv
unfolding defaults bool_of_env
apply_of_env p getenv args v unnamed h = sym (
    unfold Same in
    parse_flags-Same p.parsers (switch BoolFlag.apply) args (defaults p.parsers getenv) v
      (unfold flag_name bool_name in unnamed) h)

pub parse_config-IsDry :
    (args : List Text) (p : Process) (path : Text) (file : Fields)
    → peek_config_path args p.getenv ≡ some path
    → file_fields p path ≡ ok file
    → env_apply (layer_getenv p.getenv file) ≡ false
    → mentions (codes "apply") args ≡ false
    → Holds IsDry (parse_config args p)
unfolding config_of
parse_config-IsDry args p path file peeked loaded off unnamed = record {
  at = λ cfg parsed.
      let m = (parse_config-IsMade args p path file peeked loaded).at cfg parsed in
      ap (λ (c : Config). c.apply) m.made
      ∙ apply_of_env p (layer_getenv p.getenv file) args m.values unnamed m.parsed
      ∙ off;
}
