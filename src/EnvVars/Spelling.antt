-- ===== src/EnvVars/Spelling.antt =====
-- A setting has one name in the config file, however it is spelled.
use redis_sentinel_reconcile.Prelude.{
  ℕ, true, false, not, [], ◌∷◌, ◌++◌, ◌≡◌, refl, arith, ◌∙◌, all, ◌==◌,
}
use redis_sentinel_reconcile.Text.{
  Text, codes, has_prefix, to_upper, replace_all_byte, trim_prefix, is_space,
}
use redis_sentinel_reconcile.Text.Trim.{
  trim_space_plain, trim_prefix-none, trim_prefix-append, first_byte,
}
use redis_sentinel_reconcile.EnvFile.{canonical_file_key}
use redis_sentinel_reconcile.EnvFile.Print.{plain_byte, plain-upper, plain-replace, plain-space}
use redis_sentinel_reconcile.EnvVars.{bare_name}
use redis_sentinel_reconcile.Flags.{Flag, flag_name}
use redis_sentinel_reconcile.Flags.Found.{name_byte, is_flag_name, found}

name_space : (s : Text) → all name_byte s ≡ true → all (λ c. not (is_space c)) s ≡ true
name_space [] h = refl
name_space (c ∷ s) h = ground (arith, name_space s)

bare_plain : (s : Text) → all name_byte s ≡ true → all plain_byte (bare_name s) ≡ true
unfolding bare_name to_upper replace_all_byte
bare_plain [] h = refl
bare_plain (c ∷ s) h = ground (arith, bare_plain s)

name_parts :
    (c : ℕ) (s : Text)
    → is_flag_name (c ∷ s) ≡ true
    → (all name_byte (c ∷ s) ≡ true)
      × (has_prefix (bare_name (c ∷ s)) (codes "RSR_") ≡ false)
      × ((c == b'-') ≡ false)
unfolding is_flag_name
name_parts c s h = ground (arith, h)

-- The key of a name without dashes in front.
key_of_name :
    (s : Text)
    → has_prefix (bare_name s) (codes "RSR_") ≡ false
    → trim_prefix (to_upper (replace_all_byte b'-' (b'_' ∷ []) s)) (codes "RSR_") ≡ bare_name s
unfolding bare_name
key_of_name s h = trim_prefix-none (bare_name s) (codes "RSR_") h

no_dashes : (k : Text) → all plain_byte k ≡ true → has_prefix k (codes "--") ≡ false
unfolding codes has_prefix
no_dashes [] h = refl
no_dashes (c ∷ k) h = first_byte b'-' c k (b'-' ∷ []) (ground (arith, h))

-- The key of a name of upper case.
key_of_plain :
    (k : Text) → all plain_byte k ≡ true → canonical_file_key k ≡ trim_prefix k (codes "RSR_")
unfolding canonical_file_key
key_of_plain k h =
    rw
      (
        trim_space_plain k (plain-space k h),
        trim_prefix-none k (codes "--") (no_dashes k h),
        plain-replace k h,
        plain-upper k h,
      )
      refl

plain-rsr : (k : Text) → all plain_byte k ≡ true → all plain_byte (codes "RSR_" ++ k) ≡ true
unfolding codes
plain-rsr k h = ground (arith, h)

-- The ways to write a setting in the file: as the flag, with its dashes, and as either variable.
unfoldable pub Spelled : Text → Type 0
Spelled name =
    (canonical_file_key name ≡ bare_name name)
    × (canonical_file_key (codes "--" ++ name) ≡ bare_name name)
    × (canonical_file_key (bare_name name) ≡ bare_name name)
    × (canonical_file_key (codes "RSR_" ++ bare_name name) ≡ bare_name name)

spelled : (name : Text) → is_flag_name name ≡ true → Spelled name
unfolding Spelled canonical_file_key
spelled [] h = unfold is_flag_name in absurd (cc)
spelled (c ∷ s) h =
    let (small, own, dash) = name_parts c s h in
    let clear = name_space (c ∷ s) small in
    let plain = bare_plain (c ∷ s) small in
    let bare = bare_name (c ∷ s) in
    (
      rw
          (
            trim_space_plain (c ∷ s) clear,
            trim_prefix-none (c ∷ s) (codes "--") (unfold codes in first_byte b'-' c s _ dash),
          )
          (key_of_name (c ∷ s) own),
      rw
          (
            trim_space_plain (codes "--" ++ (c ∷ s)) (unfold codes in clear),
            trim_prefix-append (codes "--") (c ∷ s),
          )
          (key_of_name (c ∷ s) own),
      key_of_plain bare plain ∙ trim_prefix-none bare (codes "RSR_") own,
      key_of_plain (codes "RSR_" ++ bare) (plain-rsr bare plain)
          ∙ trim_prefix-append (codes "RSR_") bare,
    )

-- Every flag has one key in the config file: written as the flag with or without dashes in front, as
-- the variable, or as the variable with RSR_.
pub canonical_file_key-flag_name : (f : Flag) → Spelled (flag_name f)
canonical_file_key-flag_name f = spelled (flag_name f) (found f).1
