-- ===== src/EnvVars/Laws.antt =====
-- How the spellings of a setting agree, and which of its sources wins.
use redis_sentinel_reconcile.Prelude.{false, [], ◌∷◌, ◌++◌, ◌≡◌, refl, arith}
use redis_sentinel_reconcile.Text.{Text, codes, has_prefix, trim_space, trim_left, trim_right}
use redis_sentinel_reconcile.Text.Trim.{trim_space_idem, trim_prefix-none, trim_prefix-append}
use redis_sentinel_reconcile.Sentinel.{Fields, field}
use redis_sentinel_reconcile.EnvFile.{Getenv, or_text, layer_getenv}
use redis_sentinel_reconcile.EnvVars.{bare_name, env_names, first_env, env_or, env_str}

or_text_twice : (v def : Text) → or_text (or_text v (or_text v [])) def ≡ or_text v def
or_text_twice [] def = refl
or_text_twice (c ∷ v) def = refl

or_text_rest : (v w def : Text) → or_text (or_text v (or_text w [])) def ≡ or_text v (or_text w def)
or_text_rest [] [] def = refl
or_text_rest [] (c ∷ w) def = refl
or_text_rest (c ∷ v) w def = refl

-- The layered lookups of a setting, for a function `t` that trims.
sources :
    (t : Text → Text) (bare file rsr def : Text)
    → t [] ≡ []
    → t bare ≡ bare
    → t rsr ≡ rsr
    → or_text
        (or_text
          (t (or_text bare (or_text file (or_text file []))))
          (or_text (t (or_text rsr (or_text file []))) []))
        def
      ≡ or_text bare (or_text (t file) (or_text rsr def))
sources t [] [] [] def e b r = rw e refl
sources t [] [] (z ∷ zs) def e b r = ground (arith, e, b, r)
sources t [] (y ∷ ys) [] def e b r = or_text_twice (t (y ∷ ys)) def
sources t [] (y ∷ ys) (z ∷ zs) def e b r = rw r (or_text_rest (t (y ∷ ys)) (z ∷ zs) def)
sources t (x ∷ xs) file rsr def e b r = rw b refl

module _ (primary : Getenv) (file : Fields) (bare : Text)
    (plain : has_prefix bare (codes "RSR_") ≡ false)
    (absent : field (codes "RSR_" ++ bare) file ≡ []) where
  layer_bare :
      layer_getenv primary file bare
      ≡ or_text
          (trim_space (primary bare))
          (or_text (field bare file) (or_text (field bare file) []))
  unfolding layer_getenv
  layer_bare = rw (trim_prefix-none bare (codes "RSR_") plain, absent) refl

  layer_rsr :
      layer_getenv primary file (codes "RSR_" ++ bare)
      ≡ or_text (trim_space (primary (codes "RSR_" ++ bare))) (or_text (field bare file) [])
  unfolding layer_getenv
  layer_rsr = rw (trim_prefix-append (codes "RSR_") bare, absent) refl

  env_or-layer_getenv :
      (def : Text)
      → env_or (layer_getenv primary file) def (bare ∷ (codes "RSR_" ++ bare) ∷ [])
        ≡ or_text (trim_space (primary bare)) (
            or_text
              (trim_space (field bare file))
              (or_text (trim_space (primary (codes "RSR_" ++ bare))) def))
  unfolding env_or first_env
  env_or-layer_getenv def =
      rw (env_or, first_env, layer_bare, layer_rsr)
        (sources trim_space (trim_space (primary bare)) (field bare file)
          (trim_space (primary (codes "RSR_" ++ bare))) def
          (unfold trim_space trim_left trim_right in refl) (trim_space_idem _) (trim_space_idem _))

-- A setting with a config file is taken from the environment under its own name, then from the
-- file, then from the environment under the name with RSR_, and then from the default; the first
-- that is not blank stands. This is for a name that does not start with RSR_ and a file that has
-- no value for the name with RSR_.
pub env_str-layer_getenv :
    (primary : Getenv) (file : Fields) (def flag_name : Text)
    → has_prefix (bare_name flag_name) (codes "RSR_") ≡ false
    → field (codes "RSR_" ++ bare_name flag_name) file ≡ []
    → env_str (layer_getenv primary file) def flag_name []
      ≡ or_text (trim_space (primary (bare_name flag_name))) (
          or_text
            (trim_space (field (bare_name flag_name) file))
            (or_text (trim_space (primary (codes "RSR_" ++ bare_name flag_name))) def))
unfolding env_str env_names
env_str-layer_getenv primary file def flag_name plain absent =
    env_or-layer_getenv primary file (bare_name flag_name) plain absent def
