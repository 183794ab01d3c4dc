-- ===== src/Examples/Replies.antt =====
-- A heal, the trap and the reading of replies at small inputs.
use redis_sentinel_reconcile.Oracle.{classify_writable, identity_key, is_writable_master}
use redis_sentinel_reconcile.Prelude.{
  true, any, false, not, ◌&&◌, List, [], ◌∷◌, ◌++◌, none, some, ◌≡◌, refl, map,
}
use redis_sentinel_reconcile.Prelude.Int.{pos, int_eq}
use redis_sentinel_reconcile.Oracle.{NodeResult}
use redis_sentinel_reconcile.Reconcile.Nodes.{is_seed, oracle_nodes, is_oracle_node}
use redis_sentinel_reconcile.Reconcile.Nodes.Laws.{oracle_nodes-classify_writable}
use redis_sentinel_reconcile.Examples.{master_at}
use redis_sentinel_reconcile.Text.{equal_fold, codes, text_eq, to_lower, cut_last, has_byte}
use redis_sentinel_reconcile.Text.Decimal.{
  atoi, atoi_value, max_int, read_nat, read_digits, scan_nat, scan_digits,
}
use redis_sentinel_reconcile.Net.{
  same_redis_endpoint, resolve_key, join_host_port, preferred_ip, endpoint_ip_port, split_host_port,
}
use redis_sentinel_reconcile.Commands.{ok, err}
use redis_sentinel_reconcile.Epoch.{Sample, report, sample_ads, known_epochs}
use redis_sentinel_reconcile.Epoch.Laws.{agree, report-trap}
use redis_sentinel_reconcile.Sentinel.{Client, Fields, new_client, kv_slice_to_map}
use redis_sentinel_reconcile.Sentinel.Laws.{flat, last_of, lookup, kv_slice_to_map_lem}
use redis_sentinel_reconcile.Reconcile.Config.{sentinel_dial}
use redis_sentinel_reconcile.Reconcile.Heal.{heal_api}
use redis_sentinel_reconcile.Reconcile.Safety.Select.{select}
use redis_sentinel_reconcile.Reconcile.Safety.Target.{misses, heal_api-target}
use redis_sentinel_reconcile.Examples.{
  env, cfg, start, dead, live, other, sentinel, plain_resolver, one_master,
}

abbrev asked : Client
asked = new_client plain_resolver (sentinel_dial cfg sentinel)

live_endpoint : endpoint_ip_port plain_resolver live ≡ some (codes "10.0.0.2", pos 6379)
unfolding endpoint_ip_port split_host_port cut_last has_byte atoi read_nat read_digits codes
live_endpoint = refl

heal_api-target_example :
    select
      (misses asked.addr (codes "mymaster") (codes "10.0.0.2") (pos 6379) (pos 2))
      (heal_api env cfg asked dead live one_master (codes "master") false start).1.journal
    ≡ select (misses asked.addr (codes "mymaster") (codes "10.0.0.2") (pos 6379) (pos 2)) []
heal_api-target_example =
    heal_api-target env cfg asked live dead one_master (codes "master") false (codes "10.0.0.2")
      (pos 6379) start live_endpoint

abbrev samples : List Sample
samples = record { ad = dead; epoch = pos 3 } ∷ record { ad = live; epoch = pos 3 } ∷ []

report-trap_example : (report samples).trap ≡ (
    not (agree text_eq (map to_lower (sample_ads samples))) && agree int_eq (known_epochs samples))
report-trap_example = report-trap samples

abbrev pairs : Fields
pairs = (codes "ip", dead) ∷ (codes "port", live) ∷ (codes "ip", other) ∷ []

kv_slice_to_map_lem_example :
    (lookup (codes "ip") (kv_slice_to_map (flat pairs)) ≡ ok (last_of (codes "ip") pairs none))
    × (kv_slice_to_map (flat pairs ++ codes "ip" ∷ []) ≡ err (codes "odd key/value slice length"))
kv_slice_to_map_lem_example = kv_slice_to_map_lem pairs (codes "ip")

-- A seed, and a node that only Sentinel gave; both take writes.
abbrev seed_and_other : List NodeResult
seed_and_other = master_at live (codes "a") ∷ master_at other (codes "b") ∷ []

seed_counts : any (λ m. is_oracle_node plain_resolver cfg m.addr) seed_and_other ≡ true
unfolding is_seed equal_fold to_lower text_eq codes same_redis_endpoint
seed_counts = refl

seed_found :
    (classify_writable plain_resolver (oracle_nodes plain_resolver cfg seed_and_other)).0
    ≡ some (master_at live (codes "a"))
unfolding oracle_nodes classify_writable identity_key is_writable_master is_seed equal_fold to_lower
    same_redis_endpoint resolve_key split_host_port join_host_port preferred_ip has_byte text_eq
    codes cut_last
seed_found = refl

oracle_nodes-classify_writable_example : is_oracle_node plain_resolver cfg live ≡ true
oracle_nodes-classify_writable_example =
    oracle_nodes-classify_writable plain_resolver cfg seed_and_other (master_at live (codes "a"))
      seed_counts seed_found

-- A number that is too large is clamped before its bad byte is seen, and a small one is not.
clamped :
    (atoi_value (codes "99999999999999999999x") ≡ pos max_int) × (atoi_value (codes "9x") ≡ pos 0)
unfolding atoi_value scan_nat scan_digits codes
clamped = (refl, refl)
