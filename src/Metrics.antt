-- ===== src/Metrics.antt =====
-- internal/reconcile/metrics.go: the counters and gauges of the process, and their text form.
-- The mutex is not modelled: each method is one atomic step of the state.
pub mod Defs
pub mod Laws
pub mod Label
use redis_sentinel_reconcile.Prelude.{
  ℕ, ◌+◌, ◌-◌, ltb, ◌%◌, ◌^◌, Bool, true, false, List, [], ◌∷◌, ◌++◌, Option, none, some,
  if◌then◌else◌,
}
use redis_sentinel_reconcile.Prelude.Int.{ℤ, pos, negsuc}
use redis_sentinel_reconcile.Text.{Text, codes, text_eq, is_empty, has_suffix, replace_all_byte}
use redis_sentinel_reconcile.Text.Decimal.{itoa}
use redis_sentinel_reconcile.Metrics.Defs.{MetricDef, counter_defs, gauge_defs}

abbrev pub Counters : Type 0
Counters = List (Text × ℕ)

-- A counter is the bit pattern of an int64.
pub record Metrics : Type 0 where
  pub counters : Counters
  pub diverged : ℕ
  pub would_heal : ℕ
  pub writable : ℕ
  pub labels : Text

unfoldable zero_counters : List MetricDef → Counters
zero_counters [] = []
zero_counters (d ∷ ds) = (d.name, 0) ∷ zero_counters ds

-- promLabelValue: three passes over the text
unfoldable pub prom_label_value : Text → Text
prom_label_value s =
    replace_all_byte b'"' (b'\\' ∷ b'"' ∷ [])
      (replace_all_byte b'\n' (b'\\' ∷ b'n' ∷ []) (replace_all_byte b'\\' (b'\\' ∷ b'\\' ∷ []) s))

-- The label block of both kinds of metrics.
unfoldable pub label_block : Text → Bool → Text
label_block master_name apply =
    codes "{master_name=\""
    ++ (prom_label_value (if is_empty master_name then codes "mymaster" else master_name)
        ++ (codes "\",apply=\""
            ++ ((if apply then codes "true" else codes "false") ++ codes "\"}")))

-- newMetrics
unfoldable pub new_metrics : Text → Bool → Metrics
unfolding zero_counters
new_metrics master_name apply = record {
  counters = zero_counters counter_defs;
  diverged = 0;
  would_heal = 0;
  writable = 0;
  labels = label_block master_name apply;
}

unfoldable pub counter_key : Text → Text
counter_key name = if has_suffix name (codes "_total") then name else name ++ codes "_total"

abbrev pub add_one : ℕ → ℕ
add_one n = (n + 1) % 2 ^ 64

-- counters[key]++ where the key is there; the keys of the map are different from one another
unfoldable pub bump : Text → Counters → Counters
bump key [] = []
bump key ((k, n) ∷ cs) = if text_eq k key then (k, add_one n) ∷ cs else (k, n) ∷ bump key cs

-- m.counters[key], 0 where it is missing
unfoldable pub counter : Text → Counters → ℕ
counter key [] = 0
counter key ((k, n) ∷ cs) = if text_eq k key then n else counter key cs

-- Inc
unfoldable pub inc : Text → Metrics → Metrics
inc name m = record m { counters = bump (counter_key name) m.counters }

unfoldable pub reset_tick_gauges : Metrics → Metrics
reset_tick_gauges m = record m { diverged = 0; would_heal = 0; writable = 0 }

unfoldable pub set_writable_masters : ℕ → Metrics → Metrics
set_writable_masters n m = record m { writable = n }

unfoldable pub note_diverged : Metrics → Metrics
note_diverged m = record m { diverged = 1 }

unfoldable pub note_would_heal : Metrics → Metrics
note_would_heal m = record m { would_heal = 1 }

abbrev pub metric_prefix : Text
metric_prefix = codes "redis_sentinel_reconciler_"

-- The three lines of one metric.
metric_lines : Text → Text → MetricDef → ℤ → Text
metric_lines kind labels d value =
    codes "# HELP "
    ++ (metric_prefix
        ++ (d.name
            ++ (b' '
                ∷ (d.help
                    ++ (b'\n'
                        ∷ (codes "# TYPE "
                            ++ (metric_prefix
                                ++ (d.name
                                    ++ (b' '
                                        ∷ (kind
                                            ++ (b'\n'
                                                ∷ (metric_prefix
                                                    ++ (d.name
                                                        ++ (labels
                                                            ++ (b' '
                                                            ∷ (itoa value
                                                            ++ (b'\n' ∷ [])))))))))))))))))

-- The int64 of a bit pattern.
abbrev int64_of : ℕ → ℤ
int64_of n = if ltb n (2 ^ 63) then pos n else negsuc (2 ^ 64 - 1 - n)

counter_lines : Metrics → List MetricDef → Text
counter_lines m [] = []
counter_lines m (d ∷ ds) =
    metric_lines (codes "counter") m.labels d (int64_of (counter d.name m.counters))
    ++ counter_lines m ds

gauge_lines : Text → List MetricDef → List ℕ → Text
gauge_lines labels [] vs = []
gauge_lines labels (d ∷ ds) [] = []
gauge_lines labels (d ∷ ds) (v ∷ vs) =
    metric_lines (codes "gauge") labels d (pos v) ++ gauge_lines labels ds vs

-- writePrometheus
unfoldable pub write_prometheus : Metrics → Text
unfolding metric_lines counter_lines gauge_lines
write_prometheus m =
    counter_lines m counter_defs
    ++ gauge_lines m.labels gauge_defs (m.diverged ∷ m.would_heal ∷ m.writable ∷ [])
