-- ===== src/Examples/Parts.antt =====
-- The theorems on the parts of a tick at small inputs.
use mathlib.Core.List.{Memᴰ, Permᴰ}
use redis_sentinel_reconcile.Prelude.{
  ℕ, Bool, true, false, ◌||◌, ◌%◌, ◌^◌, tally, List, [], ◌∷◌, ◌++◌, Option, none, some, ◌≡◌, ◌≢◌,
  ◌↔◌, ◌⊎◌, refl, any,
}
use redis_sentinel_reconcile.Prelude.Int.{pos}
use redis_sentinel_reconcile.Text.{
  Text, codes, text_eq, has_suffix, has_byte, equal_fold, to_lower, cut_last,
}
use redis_sentinel_reconcile.Text.Decimal.{itoa}
use redis_sentinel_reconcile.Net.{
  split_host_port, join_host_port, resolve_key, sprint_addr, same_redis_endpoint, preferred_ip,
}
use redis_sentinel_reconcile.Net.Laws.{same_redis_endpoint-sprint_addr}
use redis_sentinel_reconcile.Oracle.{classify_writable, is_writable_master, identity_key}
use redis_sentinel_reconcile.Oracle.Distinct.{distinct}
use redis_sentinel_reconcile.Oracle.Laws.{
  first_writable, writable_keys, classify_writable_lem, classify_writable-Permᴰ,
  classify_writable_unique,
}
use redis_sentinel_reconcile.Redisconn.{TlsSettings, TlsConfig, Files, build_tls, config}
use redis_sentinel_reconcile.Redisconn.Laws.{build_tls-on}
use redis_sentinel_reconcile.Metrics.{new_metrics, counter, prom_label_value}
use redis_sentinel_reconcile.Metrics.Laws.{inc_all, counter-inc_new}
use redis_sentinel_reconcile.Metrics.Defs.{counter_defs}
use redis_sentinel_reconcile.Metrics.Label.{read_label, read_label-prom_label_value}
use redis_sentinel_reconcile.HealPlan.{
  monitor, failover_promote_safe, plan_apply_heal, equal_epoch_escalate,
}
use redis_sentinel_reconcile.HealPlan.Laws.{
  planned_action, monitor_iff, escalate_never, at_oracle, replica_at_ad, writable_at_ad,
}
use redis_sentinel_reconcile.Examples.{
  dead, live, other, plain_resolver, one_master, two_masters, master_at,
}

abbrev host_v6 : Text
host_v6 = codes "fd00::1"

same_redis_endpoint-sprint_addr_example :
    same_redis_endpoint plain_resolver
      (sprint_addr host_v6 (pos 6379))
      (join_host_port host_v6 (itoa (pos 6379)))
    ≡ false
unfolding codes has_byte preferred_ip
same_redis_endpoint-sprint_addr_example =
    same_redis_endpoint-sprint_addr plain_resolver host_v6 (pos 6379)
      (record { is_v4 = false; string = host_v6 }) refl (refl, refl) refl refl

classify_writable_lem_example :
    classify_writable plain_resolver one_master
    ≡ (first_writable one_master, distinct [] (writable_keys plain_resolver one_master))
classify_writable_lem_example = classify_writable_lem plain_resolver one_master

classify_writable-Permᴰ_example :
    (classify_writable plain_resolver two_masters).1
    ≡ (classify_writable plain_resolver
        (master_at other (codes "b") ∷ master_at live (codes "a") ∷ [])).1
classify_writable-Permᴰ_example = classify_writable-Permᴰ plain_resolver (Permᴰ.swap refl refl)

single : (classify_writable plain_resolver one_master).1 ≡ 1
unfolding classify_writable identity_key is_writable_master codes text_eq
single = refl

is_live : is_writable_master (master_at live (codes "a")) ≡ true
unfolding is_writable_master codes text_eq
is_live = refl

is_live_other : is_writable_master (master_at other (codes "a")) ≡ true
unfolding is_writable_master codes text_eq
is_live_other = refl

classify_writable_unique_example :
    identity_key plain_resolver (master_at live (codes "a"))
    ≡ identity_key plain_resolver (master_at other (codes "a"))
classify_writable_unique_example =
    classify_writable_unique plain_resolver single (Memᴰ.head refl) is_live
      (Memᴰ.tail (Memᴰ.head refl)) is_live_other

pub apart : same_redis_endpoint plain_resolver dead live ≡ false
unfolding same_redis_endpoint equal_fold resolve_key split_host_port join_host_port preferred_ip
    to_lower has_byte text_eq codes cut_last
apart = refl

monitor_iff_example :
    (planned_action plain_resolver 1 dead live (codes "master") one_master true true ≡ monitor) ↔ (
      (◌≡◌ {A = ℕ} 1 1)
      × (any (at_oracle plain_resolver dead live) one_master ≡ true)
      × ((any (replica_at_ad plain_resolver dead live) one_master ≡ true)
          ⊎ (any (writable_at_ad plain_resolver dead live) one_master ≡ false)))
monitor_iff_example =
    monitor_iff plain_resolver dead live apart 1 (codes "master") one_master true true

escalate_never_example :
    let (safe, why) = failover_promote_safe plain_resolver dead live (codes "master") one_master in
    (plan_apply_heal 1 safe why true true).reason ≢ equal_epoch_escalate
escalate_never_example =
    escalate_never plain_resolver dead live apart 1 (codes "master") one_master true true

abbrev files : Files
files = record {
  read_file = λ f. some (codes "pem");
  has_pem_certificates = λ pem. true;
  key_pair_loads = λ c k. true;
}

abbrev settings : TlsSettings
settings = record {
  enabled = true;
  skip_verify = false;
  ca_file = codes "ca";
  cert_file = [];
  key_file = [];
}

abbrev tls_config : TlsConfig
tls_config = record {
  server_name = [];
  insecure_skip_verify = false;
  min_version = 0x0303;
  root_cas = some (codes "pem");
  certificates = [];
}

built : build_tls files settings ≡ config (some tls_config)
unfolding build_tls codes
built = refl

build_tls-on_example :
    (c : TlsConfig) × (◌≡◌ {A = Option TlsConfig} (some tls_config) (some c))
    × (c.min_version ≡ 0x0303)
    × (c.insecure_skip_verify ≡ false)
    × (◌≡◌ {A = Bool} true true)
build_tls-on_example = build_tls-on files settings (some tls_config) refl built

abbrev no_tls : TlsSettings
no_tls = record {
  enabled = false;
  skip_verify = false;
  ca_file = [];
  cert_file = [];
  key_file = [];
}

built_off : build_tls files no_tls ≡ config none
unfolding build_tls
built_off = refl

ticks :
    (has_suffix (codes "ticks") (codes "_total") ≡ false)
    × (any (λ d. text_eq (codes "ticks" ++ codes "_total") d.name) counter_defs ≡ true)
unfolding has_suffix counter_defs codes text_eq
ticks = (refl, refl)

-- A tick, a refusal and a tick under the whole name.
abbrev calls : List Text
calls = codes "ticks" ∷ codes "apply_refused" ∷ codes "ticks_total" ∷ []

counter-inc_new_example :
    let m = new_metrics (codes "mymaster") true in
    (counter (codes "ticks" ++ codes "_total") (inc_all calls m).counters
      ≡ tally
          (λ name. text_eq name (codes "ticks") || text_eq name (codes "ticks" ++ codes "_total"))
          calls
        % 2 ^ 64)
    × ((inc_all calls m).diverged ≡ m.diverged)
    × ((inc_all calls m).would_heal ≡ m.would_heal)
    × ((inc_all calls m).writable ≡ m.writable)
    × ((inc_all calls m).labels ≡ m.labels)
counter-inc_new_example =
    counter-inc_new (codes "mymaster") true (codes "ticks") calls ticks.0 ticks.1

read_label-prom_label_value_example :
    read_label false (prom_label_value (codes "a\"b") ++ b'"' ∷ codes "}")
    ≡ some (codes "a\"b", codes "}")
read_label-prom_label_value_example = read_label-prom_label_value (codes "a\"b") (codes "}")
