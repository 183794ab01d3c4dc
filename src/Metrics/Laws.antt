-- ===== src/Metrics/Laws.antt =====
-- What the Inc calls of a process leave in its counters.
use mathlib.Core.List.{foldl, append_cancel_right}
use redis_sentinel_reconcile.Prelude.{
  ◌+◌, ◌%◌, ◌^◌, ◌<◌, Bool, true, false, List, [], ◌∷◌, ◌++◌, ◌≡◌, refl, arith, if◌then◌else◌, any,
  ◌&&◌, ◌||◌, ap, tally, Bool-cases, inl, inr, ◌∙◌,
}
use redis_sentinel_reconcile.Text.{Text, codes, text_eq, has_suffix}
use redis_sentinel_reconcile.Text.Laws.{text_eq_iff, text_eq_refl}
use redis_sentinel_reconcile.Metrics.Defs.{MetricDef, counter_defs}
use redis_sentinel_reconcile.Metrics.{
  Counters, Metrics, bump, counter, counter_key, inc, add_one, new_metrics, zero_counters,
}

abbrev pub keys : Counters → List Text
keys [] = []
keys ((k, n) ∷ cs) = k ∷ keys cs

keys-bump : (key : Text) (cs : Counters) → keys (bump key cs) ≡ keys cs
unfolding bump
keys-bump key [] = refl
keys-bump key ((k, n) ∷ cs) = ground (arith, keys-bump key cs)

counter-bump :
    (key k : Text) (cs : Counters)
    → counter k (bump key cs) ≡ (
        if text_eq k key && any (text_eq key) (keys cs)
        then add_one (counter k cs)
        else counter k cs)
unfolding counter bump
counter-bump key k [] = ground arith
counter-bump key k ((j, n) ∷ cs) = ground (
  arith,
  counter-bump key k cs,
  text_eq_iff j key,
  text_eq_iff k key,
  text_eq_iff j k,
  text_eq_iff key j,
)

-- Counting never registers a counter or drops one.
pub keys-inc : (name : Text) (m : Metrics) → keys (inc name m).counters ≡ keys m.counters
unfolding inc
keys-inc name m = keys-bump (counter_key name) m.counters

abbrev total : Text
total = codes "_total"

has_suffix-append : (s t : Text) → has_suffix (s ++ t) t ≡ true
unfolding has_suffix
has_suffix-append [] [] = text_eq_refl []
has_suffix-append [] (c ∷ t) = ground (arith, text_eq_refl (c ∷ t))
has_suffix-append (c ∷ s) t = ground (arith, has_suffix-append s t)

-- The names under which Inc counts the counter of a stem.
unfoldable pub names_counter : Text → Text → Bool
names_counter stem name = text_eq name stem || text_eq name (stem ++ codes "_total")

counter_key-stem :
    (stem name : Text)
    → has_suffix stem total ≡ false
    → text_eq (stem ++ total) (counter_key name) ≡ names_counter stem name
unfolding counter_key names_counter
counter_key-stem stem name plain = elim (Bool-cases (has_suffix name total)) [
  | inl ends ↦ ground (
    arith,
    plain,
    ends,
    text_eq_iff (stem ++ total) name,
    text_eq_iff name (stem ++ total),
    text_eq_iff name stem,
  )
  | inr open_ ↦ ground (
    arith,
    open_,
    has_suffix-append stem total,
    append_cancel_right name stem total,
    text_eq_iff (stem ++ total) (name ++ total),
    text_eq_iff name (stem ++ total),
    text_eq_iff name stem,
  )
]

-- The metrics behind a list of Inc calls.
abbrev pub inc_all : List Text → Metrics → Metrics
inc_all names m = foldl (λ m name. inc name m) m names

-- A registered counter of the stem counts what names it, on top of what it had.
counter-inc :
    (stem name : Text) (m : Metrics)
    → has_suffix stem total ≡ false
    → any (text_eq (stem ++ total)) (keys m.counters) ≡ true
    → counter (stem ++ total) (inc name m).counters ≡ (
        if names_counter stem name
        then add_one (counter (stem ++ total) m.counters)
        else counter (stem ++ total) m.counters)
unfolding inc
counter-inc stem name m plain here = ground (
  arith,
  here,
  counter-bump (counter_key name) (stem ++ total) m.counters,
  counter_key-stem stem name plain,
  text_eq_iff (stem ++ total) (counter_key name),
)

counter-inc_all :
    (stem : Text) (names : List Text) (m : Metrics)
    → has_suffix stem total ≡ false
    → any (text_eq (stem ++ total)) (keys m.counters) ≡ true
    → counter (stem ++ total) m.counters < 2 ^ 64
    → counter (stem ++ total) (inc_all names m).counters
      ≡ (counter (stem ++ total) m.counters + tally (names_counter stem) names) % 2 ^ 64
counter-inc_all stem [] m plain here small = omega (arith, small)
counter-inc_all stem (name ∷ names) m plain here small =
    let step = counter-inc stem name m plain here in
    let kept = ap (any (text_eq (stem ++ total))) (keys-inc name m) ∙ here in
    ground (arith, small, step, counter-inc_all stem names (inc name m) plain kept)

counter-zero_counters : (key : Text) (defs : List MetricDef) → counter key (zero_counters defs) ≡ 0
unfolding zero_counters counter
counter-zero_counters key [] = refl
counter-zero_counters key (d ∷ ds) = ground (arith, counter-zero_counters key ds)

keys-zero_counters :
    (key : Text) (defs : List MetricDef)
    → any (text_eq key) (keys (zero_counters defs)) ≡ any (λ d. text_eq key d.name) defs
unfolding zero_counters
keys-zero_counters key [] = refl
keys-zero_counters key (d ∷ ds) = ap (λ b. text_eq key d.name || b) (keys-zero_counters key ds)

inc_all-others :
    (names : List Text) (m : Metrics)
    → ((inc_all names m).diverged ≡ m.diverged)
      × ((inc_all names m).would_heal ≡ m.would_heal)
      × ((inc_all names m).writable ≡ m.writable)
      × ((inc_all names m).labels ≡ m.labels)
unfolding inc
inc_all-others [] m = (refl, refl, refl, refl)
inc_all-others (name ∷ names) m = inc_all-others names (inc name m)

-- After any Inc calls on new metrics, a registered counter whose name is a stem with one "_total"
-- behind it is the number of calls that gave the stem or the whole name, modulo 2^64, and the gauges
-- and the labels are those of new metrics.
pub counter-inc_new :
    (master_name : Text) (apply : Bool) (stem : Text) (names : List Text)
    → has_suffix stem (codes "_total") ≡ false
    → any (λ d. text_eq (stem ++ codes "_total") d.name) counter_defs ≡ true
    → let m = new_metrics master_name apply in
      (counter (stem ++ codes "_total") (inc_all names m).counters
        ≡ tally (λ name. text_eq name stem || text_eq name (stem ++ codes "_total")) names % 2 ^ 64)
      × ((inc_all names m).diverged ≡ m.diverged)
      × ((inc_all names m).would_heal ≡ m.would_heal)
      × ((inc_all names m).writable ≡ m.writable)
      × ((inc_all names m).labels ≡ m.labels)
unfolding new_metrics names_counter
counter-inc_new master_name apply stem names plain registered =
    let m = new_metrics master_name apply in
    let key = stem ++ total in
    let zero_ = counter-zero_counters key counter_defs in
    let here = keys-zero_counters key counter_defs ∙ registered in
    let (a, b, c, d) = inc_all-others names m in
    (
      ground (arith, zero_, counter-inc_all stem names m plain here (ground (arith, zero_))),
      a,
      b,
      c,
      d,
    )
