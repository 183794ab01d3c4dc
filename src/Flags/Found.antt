-- ===== src/Flags/Found.antt =====
-- Every flag is found under its own name.
use redis_sentinel_reconcile.Prelude.{
  ℕ, Bool, true, false, not, ◌&&◌, ◌||◌, [], ◌∷◌, some, ◌≡◌, refl, ◌==◌, leb, all,
}
use redis_sentinel_reconcile.Text.{Text, codes, text_eq, has_prefix, to_upper, replace_all_byte}
use redis_sentinel_reconcile.EnvVars.{bare_name}
use redis_sentinel_reconcile.Flags.{
  TextFlag, BoolFlag, DurationFlag, IntFlag, AddrsFlag, Flag, text, switch, duration, int, jitter,
  addrs, flag_name, find_flag, all_flags, formal,
}

abbrev pub name_byte : ℕ → Bool
name_byte c = c == b'-' || (leb b'a' c && leb c b'z')

-- A name of small letters and dashes, no dash first, that is not one of RSR_ as a variable.
unfoldable pub is_flag_name : Text → Bool
unfolding bare_name
is_flag_name [] = false
is_flag_name (c ∷ s) =
    not (c == b'-') && all name_byte (c ∷ s) && not (has_prefix (bare_name (c ∷ s)) (codes "RSR_"))

abbrev pub Found : Flag → Type 0
Found f = (formal (flag_name f) ≡ some f) × (is_flag_name (flag_name f) ≡ true)

found_text : (f : TextFlag) → Found (text f)
unfolding formal find_flag all_flags flag_name is_flag_name bare_name to_upper replace_all_byte
    has_prefix codes text_eq
found_text TextFlag.config = (refl, refl)
found_text TextFlag.master_name = (refl, refl)
found_text TextFlag.redis_password = (refl, refl)
found_text TextFlag.sentinel_password = (refl, refl)
found_text TextFlag.redis_username = (refl, refl)
found_text TextFlag.sentinel_username = (refl, refl)
found_text TextFlag.sentinel_redis_username = (refl, refl)
found_text TextFlag.sentinel_redis_password = (refl, refl)
found_text TextFlag.metrics_addr = (refl, refl)
found_text TextFlag.lease_holder = (refl, refl)
found_text TextFlag.tls_ca = (refl, refl)
found_text TextFlag.tls_server = (refl, refl)
found_text TextFlag.tls_cert = (refl, refl)
found_text TextFlag.tls_key = (refl, refl)
found_text TextFlag.from_prefix = (refl, refl)
found_text TextFlag.from_suffix = (refl, refl)

found_switch : (f : BoolFlag) → Found (switch f)
unfolding formal find_flag all_flags flag_name is_flag_name bare_name to_upper replace_all_byte
    has_prefix codes text_eq
found_switch BoolFlag.apply = (refl, refl)
found_switch BoolFlag.once = (refl, refl)
found_switch BoolFlag.local_sentinel = (refl, refl)
found_switch BoolFlag.allow_global_apply = (refl, refl)
found_switch BoolFlag.skip_failover = (refl, refl)
found_switch BoolFlag.heal_lease = (refl, refl)
found_switch BoolFlag.equal_epoch_esc = (refl, refl)
found_switch BoolFlag.tls_on = (refl, refl)
found_switch BoolFlag.tls_skip = (refl, refl)

found_duration : (f : DurationFlag) → Found (duration f)
unfolding formal find_flag all_flags flag_name is_flag_name bare_name to_upper replace_all_byte
    has_prefix codes text_eq
found_duration DurationFlag.interval = (refl, refl)
found_duration DurationFlag.heal_cooldown = (refl, refl)
found_duration DurationFlag.heal_lease_ttl = (refl, refl)

found_int : (f : IntFlag) → Found (int f)
unfolding formal find_flag all_flags flag_name is_flag_name bare_name to_upper replace_all_byte
    has_prefix codes text_eq
found_int IntFlag.quorum = (refl, refl)
found_int IntFlag.min_reachable = (refl, refl)

found_addrs : (f : AddrsFlag) → Found (addrs f)
unfolding formal find_flag all_flags flag_name is_flag_name bare_name to_upper replace_all_byte
    has_prefix codes text_eq
found_addrs AddrsFlag.sentinel_addrs = (refl, refl)
found_addrs AddrsFlag.redis_addrs = (refl, refl)

found_jitter : Found jitter
unfolding formal find_flag all_flags flag_name is_flag_name bare_name to_upper replace_all_byte
    has_prefix codes text_eq
found_jitter = (refl, refl)

pub found : (f : Flag) → Found f
found (text f) = found_text f
found (switch f) = found_switch f
found (duration f) = found_duration f
found (int f) = found_int f
found jitter = found_jitter
found (addrs f) = found_addrs f
