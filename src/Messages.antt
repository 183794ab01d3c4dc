-- ===== src/Messages.antt =====
-- requiredAddrErr of cmd/reconciler/config.go: what is said when an address is missing.
use redis_sentinel_reconcile.Prelude.{Bool, [], ◌++◌, if◌then◌else◌}
use redis_sentinel_reconcile.Text.{Text, codes, is_empty, trim_suffix_byte}

missing_sentinel_text : Text
missing_sentinel_text =
    codes "\n"
    ++ codes "  SENTINEL_ADDR  (--sentinel-addr / SENTINEL_ADDR / RSR_SENTINEL_ADDR)\n"
    ++ codes "      The Sentinel on this host, as host:26379.\n"
    ++ codes "      On TLS, use the DNS name from the certificate, not 127.0.0.1.\n"
    ++ codes "      Example: SENTINEL_ADDR=db-n1.example.com:26379\n"

missing_redis_text : Text
missing_redis_text =
    codes "\n"
    ++ codes "  REDIS_ADDRS  (--redis-addrs / REDIS_ADDRS / RSR_REDIS_ADDRS)\n"
    ++ codes "      Every Redis/Valkey data node that can become master, port 6379.\n"
    ++ codes "      List the whole cluster, not only this host.\n"
    ++ codes
        "      Example: REDIS_ADDRS=db-n1.example.com:6379,db-n2.example.com:6379,db-n3.example.com:6379\n"

-- The message of requiredAddrErr.
unfoldable pub required_addr_err : Text → Bool → Bool → Text
unfolding missing_sentinel_text missing_redis_text
required_addr_err config_path missing_sentinel missing_redis =
    let where_ =
      if is_empty config_path
      then codes "flags, environment, or a --config KEY=VALUE file"
      else config_path ++ codes ", environment, or flags" in
    trim_suffix_byte b'\n' (
      codes "missing required settings (set them in "
      ++ where_
      ++ codes "):\n"
      ++ (if missing_sentinel then missing_sentinel_text else [])
      ++ (if missing_redis then missing_redis_text else [])
      ++ codes "\nSee also: reconciler -h\n")
