-- ===== src/Oracle/Laws.antt =====
-- ClassifyWritable against its meaning: the first writable master, and how many identities the
-- writable masters have.
use mathlib.Core.List.Permᴰ
use mathlib.Core.List.{Memᴰ, Permᴰ}
use redis_sentinel_reconcile.Prelude.{
  ℕ, ◌+◌, true, List, [], ◌∷◌, ◌≡◌, refl, arith, Option, none, some, any, if◌then◌else◌, Bool-cases,
  inl, inr,
}
use redis_sentinel_reconcile.Text.{Text, text_eq}
use redis_sentinel_reconcile.Text.Laws.{text_eq_refl}
use redis_sentinel_reconcile.Net.{Resolver}
use redis_sentinel_reconcile.Oracle.{
  NodeResult, is_writable_master, identity_key, or_else, classify_from, classify_writable,
}
use redis_sentinel_reconcile.Oracle.Distinct.{distinct, distinct-Permᴰ, distinct-one}

-- The first node that is a writable master.
unfoldable pub first_writable : List NodeResult → Option NodeResult
first_writable [] = none
first_writable (n ∷ ns) = if is_writable_master n then some n else first_writable ns

-- The identities of the writable masters, in order, with repetitions.
unfoldable pub writable_keys : Resolver → List NodeResult → List Text
writable_keys r [] = []
writable_keys r (n ∷ ns) =
    if is_writable_master n then identity_key r n ∷ writable_keys r ns else writable_keys r ns

classify_from-count :
    (r : Resolver) (ns : List NodeResult) (seen : List Text) (w : Option NodeResult) (c : ℕ)
    → (classify_from r seen w c ns).1 ≡ c + distinct seen (writable_keys r ns)
unfolding classify_from distinct writable_keys
classify_from-count r [] seen w c = omega arith
classify_from-count r (n ∷ ns) seen w c = ground (
  arith,
  classify_from-count r ns seen w c,
  classify_from-count r ns (identity_key r n ∷ seen) (or_else w n) (c + 1),
)

classify_from-some :
    (r : Resolver) (ns : List NodeResult) (seen : List Text) (m : NodeResult) (c : ℕ)
    → (classify_from r seen (some m) c ns).0 ≡ some m
unfolding classify_from
classify_from-some r [] seen m c = refl
classify_from-some r (n ∷ ns) seen m c = ground (
  arith,
  classify_from-some r ns seen m c,
  classify_from-some r ns (identity_key r n ∷ seen) m (c + 1),
)

classify_from-first :
    (r : Resolver) (ns : List NodeResult) (c : ℕ)
    → (classify_from r [] none c ns).0 ≡ first_writable ns
unfolding classify_from first_writable
classify_from-first r [] c = refl
classify_from-first r (n ∷ ns) c =
    ground
      (arith, classify_from-first r ns c, classify_from-some r ns (identity_key r n ∷ []) n (c + 1))

-- The result is the first writable master, with the number of distinct identities of all of them.
pub classify_writable_lem :
    (r : Resolver) (ns : List NodeResult)
    → classify_writable r ns ≡ (first_writable ns, distinct [] (writable_keys r ns))
unfolding classify_writable
classify_writable_lem r ns =
    ground (arith, classify_from-count r ns [] none 0, classify_from-first r ns 0)

writable_keys-swap :
    (r : Resolver) (a b : NodeResult) (l : List NodeResult)
    → Permᴰ (writable_keys r (a ∷ b ∷ l)) (writable_keys r (b ∷ a ∷ l))
unfolding writable_keys
writable_keys-swap r a b l = elim (Bool-cases (is_writable_master a)) [
  | inl p ↦ elim (Bool-cases (is_writable_master b)) [
    | inl q ↦ rw (p, q) (Permᴰ.swap refl refl)
    | inr q ↦ rw (p, q) (Permᴰ.refl _)
  ]
  | inr p ↦ rw p (Permᴰ.refl _)
]

writable_keys-Permᴰ :
    (r : Resolver) {ns ms : List NodeResult}
    → Permᴰ ns ms
    → Permᴰ (writable_keys r ns) (writable_keys r ms)
unfolding writable_keys
writable_keys-Permᴰ r Permᴰ.nil = Permᴰ.nil
writable_keys-Permᴰ r (Permᴰ.cons {b} e p) = elim (Bool-cases (is_writable_master b)) [
  | inl live ↦ rw (e, live) (Permᴰ.cons refl (writable_keys-Permᴰ r p))
  | inr dead ↦ rw (e, dead) (writable_keys-Permᴰ r p)
]
writable_keys-Permᴰ r (Permᴰ.swap {a} {b} {a'} {b'} {l} e f) =
    rw (e, f) (writable_keys-swap r b' a' l)
writable_keys-Permᴰ r (Permᴰ.trans p q) =
    Permᴰ.trans (writable_keys-Permᴰ r p) (writable_keys-Permᴰ r q)

-- The count does not depend on the order in which the nodes were probed.
pub classify_writable-Permᴰ :
    (r : Resolver) {ns ms : List NodeResult}
    → Permᴰ ns ms
    → (classify_writable r ns).1 ≡ (classify_writable r ms).1
classify_writable-Permᴰ r {ns} {ms} p =
    rw (classify_writable_lem r ns, classify_writable_lem r ms)
      (distinct-Permᴰ (writable_keys-Permᴰ r p) [])

any-writable_keys :
    (r : Resolver) {n : NodeResult} {ns : List NodeResult}
    → Memᴰ n ns
    → is_writable_master n ≡ true
    → any (text_eq (identity_key r n)) (writable_keys r ns) ≡ true
unfolding writable_keys
any-writable_keys r {n} (Memᴰ.head e) live = rw (← e, live, text_eq_refl (identity_key r n))
any-writable_keys r (Memᴰ.tail m) live = ground (arith, any-writable_keys r m live)

-- Where the count is one, any two writable masters of the list have the same identity.
pub classify_writable_unique :
    (r : Resolver) {n m : NodeResult} {ns : List NodeResult}
    → (classify_writable r ns).1 ≡ 1
    → Memᴰ n ns
    → is_writable_master n ≡ true
    → Memᴰ m ns
    → is_writable_master m ≡ true
    → identity_key r n ≡ identity_key r m
classify_writable_unique r {n} {m} {ns} h inn liven inm livem =
    distinct-one (writable_keys r ns) (identity_key r n) (identity_key r m)
      (ground (arith, classify_writable_lem r ns)) (any-writable_keys r inn liven)
      (any-writable_keys r inm livem)

-- The first writable master is one: reached, ROLE master, and it took the probe write.
pub first_writable-is_writable_master :
    (ns : List NodeResult) {n : NodeResult}
    → first_writable ns ≡ some n
    → is_writable_master n ≡ true
unfolding first_writable
first_writable-is_writable_master [] h = cc
first_writable-is_writable_master (m ∷ ns) {n} h =
    ground (arith, first_writable-is_writable_master ns {n = n})
