-- ===== src/EnvVars.antt =====
-- cmd/reconciler/config.go: the settings that are read from environment variables.
pub mod Laws
pub mod Spelling
use redis_sentinel_reconcile.Prelude.{
  ℕ, Bool, true, false, List, [], ◌∷◌, ◌++◌, any, Option, none, some, if◌then◌else◌,
}
use redis_sentinel_reconcile.Prelude.Int.{ℤ}
use redis_sentinel_reconcile.Text.{
  Text, codes, text_eq, is_empty, to_upper, to_lower, contains, replace_all_byte, trim_space,
}
use redis_sentinel_reconcile.Text.Decimal.{atoi}
use redis_sentinel_reconcile.EnvFile.{Getenv, or_text}

-- The name of a flag as an environment variable.
unfoldable pub bare_name : Text → Text
bare_name flag_name = to_upper (replace_all_byte b'-' (b'_' ∷ []) flag_name)

unfoldable pub env_names : Text → List Text → List Text
unfolding bare_name
env_names flag_name extra = let bare = bare_name flag_name in bare ∷ (codes "RSR_" ++ bare) ∷ extra

unfoldable pub first_env : Getenv → List Text → Text
first_env getenv [] = []
first_env getenv (k ∷ keys) = or_text (trim_space (getenv k)) (first_env getenv keys)

unfoldable pub env_or : Getenv → Text → List Text → Text
env_or getenv def keys = or_text (first_env getenv keys) def

unfoldable pub env_str : Getenv → Text → Text → List Text → Text
unfolding env_or
env_str getenv def flag_name extra = env_or getenv def (env_names flag_name extra)

yes_words : List Text
yes_words = codes "1" ∷ codes "true" ∷ codes "yes" ∷ codes "on" ∷ []

no_words : List Text
no_words = codes "0" ∷ codes "false" ∷ codes "no" ∷ codes "off" ∷ []

-- The switch of envBool, on a value in lower case.
unfoldable pub bool_or : Bool → Text → Bool
unfolding yes_words no_words
bool_or def v =
    if any (text_eq v) yes_words then true else if any (text_eq v) no_words then false else def

unfoldable pub env_bool : Getenv → Bool → Text → List Text → Bool
unfolding bool_or
env_bool getenv def flag_name extra =
    let v = first_env getenv (env_names flag_name extra) in
    if is_empty v then def else bool_or def (to_lower v)

unfoldable pub env_apply : Getenv → Bool
unfolding env_bool
env_apply getenv =
    if env_bool getenv false (codes "apply") []
    then true
    else contains (to_lower (first_env getenv (codes "APPLY_FLAG" ∷ []))) (codes "apply")

-- A value that is parsed, or the default.
abbrev parsed_or : {A : Type 0} → (Text → Option A) → A → Text → A
parsed_or parse def v = if is_empty v then def else elim (parse v) [ none ↦ def | some a ↦ a ]

-- envDuration; time.ParseDuration is given.
unfoldable pub env_duration : (Text → Option ℤ) → Getenv → ℤ → Text → ℤ
env_duration parse_duration getenv def flag_name =
    parsed_or parse_duration def (first_env getenv (env_names flag_name []))

unfoldable pub env_int : Getenv → ℤ → Text → ℤ
env_int getenv def flag_name = parsed_or atoi def (first_env getenv (env_names flag_name []))
