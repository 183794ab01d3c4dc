-- ===== src/Redisconn.antt =====
-- internal/redisconn: how a connection to Redis or Sentinel is set up, without making it.
pub mod Laws
use redis_sentinel_reconcile.Prelude.{
  ℕ, ◌*◌, Bool, true, false, not, ◌&&◌, ◌||◌, Option, none, some, List, [], ◌∷◌, if◌then◌else◌,
}
use redis_sentinel_reconcile.Prelude.Int.{ℤ, pos, is_positive}
use redis_sentinel_reconcile.Text.{Text, codes, is_empty}
use redis_sentinel_reconcile.Net.{Resolver, addr_host}

-- The fields of a tls.Config that the program sets.
pub record TlsConfig : Type 0 where
  pub server_name : Text
  pub insecure_skip_verify : Bool
  pub min_version : ℕ
  pub root_cas : Option Text
  pub certificates : List (Text × Text)

-- redisconn.Dial
pub record Dial : Type 0 where
  pub addr : Text
  pub username : Text
  pub password : Text
  pub tls : Option TlsConfig
  pub tls_server_name : Text
  pub timeout : ℤ

-- The redis.Options that a client is made from.
pub record Options : Type 0 where
  pub addr : Text
  pub username : Text
  pub password : Text
  pub tls_config : Option TlsConfig
  pub dial_timeout : ℤ
  pub read_timeout : ℤ
  pub write_timeout : ℤ

-- A time.Duration, in nanoseconds.
abbrev pub seconds : ℕ → ℤ
seconds n = pos (n * 1000000000)

unfoldable pub clone_for_addr : Resolver → Option TlsConfig → Text → Text → Option TlsConfig
clone_for_addr r none addr ip_fallback_sni = none
clone_for_addr r (some base) addr ip_fallback_sni =
    if r.parse_ip (addr_host addr)
    then some (record base { server_name = ip_fallback_sni })
    else some (record base { server_name = addr_host addr })

-- `timeout`, or the default where it is not positive
unfoldable pub timeout_or : ℤ → ℤ → ℤ
timeout_or default t = if is_positive t then t else default

unfoldable pub client : Resolver → Dial → Options
unfolding timeout_or
client r d = record {
  addr = d.addr;
  username = d.username;
  password = d.password;
  tls_config = clone_for_addr r d.tls d.addr d.tls_server_name;
  dial_timeout = timeout_or (seconds 3) d.timeout;
  read_timeout = timeout_or (seconds 3) d.timeout;
  write_timeout = timeout_or (seconds 3) d.timeout;
}

pub record TlsSettings : Type 0 where
  pub enabled : Bool
  pub skip_verify : Bool
  pub ca_file : Text
  pub cert_file : Text
  pub key_file : Text

pub data TlsError : Type 0 where
  extras_without_tls cert_without_key : TlsError
  ca_unreadable ca_without_pem key_pair_invalid : TlsError

-- The files as BuildTLS uses them: os.ReadFile, AppendCertsFromPEM and tls.LoadX509KeyPair.
pub record Files : Type 0 where
  pub read_file : Text → Option Text
  pub has_pem_certificates : Text → Bool
  pub key_pair_loads : Text → Text → Bool

pub data TlsResult : Type 0 where
  config : Option TlsConfig → TlsResult
  failed : TlsError → TlsResult

abbrev tls_version_12 : ℕ
tls_version_12 = 0x0303

with_certificate : Files → TlsSettings → TlsConfig → TlsResult
with_certificate f s cfg =
    if is_empty s.cert_file
    then config (some cfg)
    else if f.key_pair_loads s.cert_file s.key_file
    then config (some (record cfg { certificates = (s.cert_file, s.key_file) ∷ [] }))
    else failed key_pair_invalid

with_ca : Files → TlsSettings → TlsConfig → TlsResult
unfolding with_certificate
with_ca f s cfg =
    if is_empty s.ca_file then with_certificate f s cfg else elim (f.read_file s.ca_file) [
      | none ↦ failed ca_unreadable
      | some pem ↦
          if f.has_pem_certificates pem
          then with_certificate f s (record cfg { root_cas = some pem })
          else failed ca_without_pem
    ]

-- a != b
abbrev differ : Bool → Bool → Bool
differ true b = not b
differ false b = b

unfoldable pub build_tls : Files → TlsSettings → TlsResult
unfolding with_ca
build_tls f s =
    if not s.enabled
    then (if not (is_empty s.ca_file)
          || not (is_empty s.cert_file)
          || not (is_empty s.key_file)
          || s.skip_verify
        then failed extras_without_tls
        else config none)
    else if differ (is_empty s.cert_file) (is_empty s.key_file)
    then failed cert_without_key
    else with_ca f s (record {
      server_name = [];
      insecure_skip_verify = s.skip_verify;
      min_version = tls_version_12;
      root_cas = none;
      certificates = [];
    })
