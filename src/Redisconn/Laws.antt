-- ===== src/Redisconn/Laws.antt =====
-- What the connection settings guarantee.
use redis_sentinel_reconcile.Prelude.{true, false, Option, none, some, ◌≡◌, refl, arith}
use redis_sentinel_reconcile.Prelude.Int.{is_positive}
use redis_sentinel_reconcile.Text.{is_empty}
use redis_sentinel_reconcile.Net.{Resolver}
use redis_sentinel_reconcile.Redisconn.{
  TlsConfig, Dial, client, TlsSettings, Files, build_tls, config,
}

-- The three timeouts of a client are positive, whatever was asked for.
client-timeouts :
    (r : Resolver) (d : Dial)
    → (is_positive (client r d).dial_timeout ≡ true)
      × (is_positive (client r d).read_timeout ≡ true)
      × (is_positive (client r d).write_timeout ≡ true)
unfolding client
client-timeouts r d = ground arith

-- With TLS off, success means that no extra was set; the result is then no TLS.
build_tls-off :
    (f : Files) (s : TlsSettings) (t : Option TlsConfig)
    → s.enabled ≡ false
    → build_tls f s ≡ config t
    → (t ≡ none)
      × (is_empty s.ca_file ≡ true)
      × (is_empty s.cert_file ≡ true)
      × (is_empty s.key_file ≡ true)
      × (s.skip_verify ≡ false)
unfolding build_tls
build_tls-off f s t off h = ground arith

-- With TLS on, success gives a configuration of at least TLS 1.2 that verifies unless asked not to,
-- and the files of certificate and key are both given or both not.
pub build_tls-on :
    (f : Files) (s : TlsSettings) (t : Option TlsConfig)
    → s.enabled ≡ true
    → build_tls f s ≡ config t
    → (c : TlsConfig) × (t ≡ some c)
      × (c.min_version ≡ 0x0303)
      × (c.insecure_skip_verify ≡ s.skip_verify)
      × (is_empty s.cert_file ≡ is_empty s.key_file)
unfolding build_tls
build_tls-on f s (some c) on h = (c, refl, ground arith, ground arith, ground arith)
build_tls-on f s none on h = absurd (ground arith)
