-- ===== src/Net/Laws.antt =====
-- Addresses printed and split again, and how two spellings of an endpoint compare.
use redis_sentinel_reconcile.Prelude.{
  ℕ, Bool, true, false, not, ◌&&◌, ◌||◌, [], ◌∷◌, ◌++◌, ◌≡◌, refl, arith, ◌==◌, none, some,
  Bool-cases, inl, inr,
}
use redis_sentinel_reconcile.Text.{Text, has_byte, is_empty, text_eq, equal_fold, to_lower}
use redis_sentinel_reconcile.Text.Laws.{
  cut_first-append, cut_last-append, text_eq_comm, equal_fold_refl, equal_fold_comm,
}
use redis_sentinel_reconcile.Prelude.Int.{ℤ}
use redis_sentinel_reconcile.Text.Decimal.{itoa}
use redis_sentinel_reconcile.Text.Decimal.Laws.{has_byte-itoa}
use redis_sentinel_reconcile.Net.{
  Ip, preferred_ip, sprint_addr, Resolver, split_host_port, join_host_port, resolve_key,
  same_redis_endpoint,
}

abbrev pub NoBracket : Text → Type 0
NoBracket s = (has_byte b'[' s ≡ false) × (has_byte b']' s ≡ false)

split_host_port-name :
    (host port : Text)
    → NoBracket host
    → NoBracket port
    → has_byte b':' port ≡ false
    → has_byte b':' host ≡ false
    → split_host_port (host ++ b':' ∷ port) ≡ some (host, port)
unfolding split_host_port has_byte
split_host_port-name [] port h p q name = ground (arith, cut_last-append b':' [] port q)
split_host_port-name (x ∷ host) port h p q name =
    ground (arith, cut_last-append b':' (x ∷ host) port q)

same_keys_comm :
    (a b : Text) (e : Bool)
    → (e || (not (is_empty a) && text_eq a b)) ≡ (e || (not (is_empty b) && text_eq b a))
unfolding text_eq
same_keys_comm [] [] e = refl
same_keys_comm (x ∷ a) (y ∷ b) e = ground (arith, text_eq_comm a b)
same_keys_comm _ _ e = ground arith

-- Whatever the host, one with colons included, JoinHostPort is undone by SplitHostPort.
pub split_host_port-join_host_port :
    (host port : Text)
    → NoBracket host
    → NoBracket port
    → has_byte b':' port ≡ false
    → split_host_port (join_host_port host port) ≡ some (host, port)
unfolding split_host_port join_host_port
split_host_port-join_host_port host port h p q = elim (Bool-cases (has_byte b':' host)) [
  | inl colon ↦ rw (colon, cut_first-append b']' host (b':' ∷ port) h.1) (ground arith)
  | inr name ↦ rw name (split_host_port-name host port h p q name)
]

has_byte-cons_append :
    (c : ℕ) (host rest : Text) → has_byte c host ≡ true → has_byte c (host ++ rest) ≡ true
unfolding has_byte
has_byte-cons_append c [] rest h = cc
has_byte-cons_append c (x ∷ host) rest h = ground (arith, has_byte-cons_append c host rest)

-- The %s:%d form of a host with colons is no address: the last colon leaves others before it.
pub split_host_port-sprint_addr :
    (host : Text) (port : ℤ)
    → has_byte b':' host ≡ true
    → has_byte b'[' host ≡ false
    → split_host_port (sprint_addr host port) ≡ none
unfolding split_host_port sprint_addr has_byte
split_host_port-sprint_addr [] port h p = cc
split_host_port-sprint_addr (x ∷ host) port h p = ground (
  arith,
  has_byte-cons_append b':' (x ∷ host) [] h,
  cut_last-append b':' (x ∷ host) (itoa port) (has_byte-itoa b':' port (omega arith)),
)

pub same_redis_endpoint_refl : (r : Resolver) (a : Text) → same_redis_endpoint r a a ≡ true
unfolding same_redis_endpoint
same_redis_endpoint_refl r a = rw equal_fold_refl

-- Whether two addresses are one endpoint does not depend on their order.
same_redis_endpoint_comm :
    (r : Resolver) (a b : Text) → same_redis_endpoint r a b ≡ same_redis_endpoint r b a
unfolding same_redis_endpoint
same_redis_endpoint_comm r a b =
    rw equal_fold_comm (same_keys_comm (resolve_key r a) (resolve_key r b) (equal_fold b a))

module _ (r : Resolver) (x : ℕ) (host : Text) (port : ℤ) (ip : Ip)
    (h : has_byte b':' (x ∷ host) ≡ true) (n : NoBracket (x ∷ host)) where
  resolve_key-sprint_addr :
      resolve_key r (sprint_addr (x ∷ host) port) ≡ to_lower (sprint_addr (x ∷ host) port)
  unfolding resolve_key
  resolve_key-sprint_addr = ground (arith, split_host_port-sprint_addr (x ∷ host) port h n.0)

  resolve_key-join_host_port :
      preferred_ip (r.lookup_ip (x ∷ host)) ≡ some ip
      → resolve_key r (join_host_port (x ∷ host) (itoa port)) ≡ join_host_port ip.string (itoa port)
  unfolding resolve_key
  resolve_key-join_host_port e = ground (
    arith,
    split_host_port-join_host_port (x ∷ host) (itoa port) n
        (has_byte-itoa b'[' port (omega arith), has_byte-itoa b']' port (omega arith))
        (has_byte-itoa b':' port (omega arith)),
  )

  not-bracket : (x == b'[') ≡ false
  unfolding has_byte
  not-bracket = ground arith

  -- The two forms differ in their first byte, in any case and when resolved.
  equal_fold-sprint_addr :
      equal_fold (sprint_addr (x ∷ host) port) (join_host_port (x ∷ host) (itoa port)) ≡ false
  unfolding equal_fold to_lower text_eq sprint_addr join_host_port
  equal_fold-sprint_addr = ground (arith, not-bracket)

  text_eq-sprint_addr :
      has_byte b':' ip.string ≡ true
      → text_eq (to_lower (sprint_addr (x ∷ host) port)) (join_host_port ip.string (itoa port))
        ≡ false
  unfolding to_lower text_eq sprint_addr join_host_port
  text_eq-sprint_addr v = ground (arith, not-bracket)

-- For a host with colons and no brackets, whose preferred address has colons as well, the %s:%d
-- form and the JoinHostPort form are not the same endpoint.
pub same_redis_endpoint-sprint_addr :
    (r : Resolver) (host : Text) (port : ℤ) (ip : Ip)
    → has_byte b':' host ≡ true
    → NoBracket host
    → preferred_ip (r.lookup_ip host) ≡ some ip
    → has_byte b':' ip.string ≡ true
    → same_redis_endpoint r (sprint_addr host port) (join_host_port host (itoa port)) ≡ false
unfolding same_redis_endpoint
same_redis_endpoint-sprint_addr r [] port ip h n e v = unfold has_byte in cc
same_redis_endpoint-sprint_addr r (x ∷ host) port ip h n e v = ground (
  arith,
  resolve_key-sprint_addr r x host port ip h n,
  resolve_key-join_host_port r x host port ip h n e,
  equal_fold-sprint_addr r x host port ip h n,
  text_eq-sprint_addr r x host port ip h n v,
)
