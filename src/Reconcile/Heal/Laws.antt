-- ===== src/Reconcile/Heal/Laws.antt =====
-- What the check behind a heal found when it calls the heal good.
use redis_sentinel_reconcile.Prelude.{true, none, ◌≡◌, ◌↔◌, arith, refl, ◌&&◌}
use redis_sentinel_reconcile.Prelude.Int.{ℤ}
use redis_sentinel_reconcile.Text.{Text, codes}
use redis_sentinel_reconcile.Text.Laws.{text_eq_iff}
use redis_sentinel_reconcile.Net.{Resolver, same_redis_endpoint, sprint_addr}
use redis_sentinel_reconcile.Commands.{Reply, ok, err}
use redis_sentinel_reconcile.Probe.{probe_dial}
use redis_sentinel_reconcile.Sentinel.{Client, get_master}
use redis_sentinel_reconcile.Reconcile.Config.{Config, redis_dial}
use redis_sentinel_reconcile.Oracle.{is_none}
use redis_sentinel_reconcile.Reconcile.Guards.{after_reprobe, reprobe_oracle_writable}
use redis_sentinel_reconcile.Reconcile.Heal.{
  advertises, verify_advertised, probe_oracle_writable, verify_heal,
}
use redis_sentinel_reconcile.World.{Env, St, ◌>>=◌, pure}

-- The answer of a Sentinel names an address that stands for the oracle.
abbrev pub Names : Resolver → Text → Reply (Text × ℤ) → Type 0
Names resolver master_key reply =
    (host : Text) × (port : ℤ) × (reply ≡ ok (host, port))
    × (same_redis_endpoint resolver (sprint_addr host port) master_key ≡ true)

module _ {W : Type 0} (env : Env W) (cfg : Config) (c : Client) (master_key : Text) where
  advertises_iff :
      (reply : Reply (Text × ℤ))
      → (advertises env cfg master_key reply ≡ true) ↔ Names env.resolver master_key reply
  unfolding advertises
  advertises_iff (err e) = (λ h. absurd (cc), λ (host, port, h, _). absurd (cc))
  advertises_iff (ok (host, port)) =
      (λ h. (host, port, refl, h), λ (host', port', h, same). ground (arith, h, same))

  verify_heal-parts :
      (s : St W)
      → let (reply, s') = get_master env c cfg.master_name s in
        (verify_heal env cfg c master_key s).0 ≡ (
          advertises env cfg master_key reply
          && is_none (after_reprobe env cfg (probe_dial env master_key (redis_dial cfg) s').0))
  unfolding verify_heal verify_advertised probe_oracle_writable reprobe_oracle_writable ◌>>=◌ pure
  verify_heal-parts s = ground arith

  -- A heal is called good exactly when the Sentinel, asked again, names a host and a port that
  -- stand for the oracle, and a probe behind that finds the oracle, without an error, to be a master
  -- that takes a write.
  pub verify_heal_iff :
      (s : St W)
      → let (reply, s') = get_master env c cfg.master_name s in
        let node = (probe_dial env master_key (redis_dial cfg) s').0 in
        ((verify_heal env cfg c master_key s).0 ≡ true) ↔ (
          Names env.resolver master_key reply
          × (node.err ≡ none)
          × (node.role ≡ codes "master")
          × (node.writable ≡ true))
  unfolding after_reprobe
  verify_heal_iff s =
      let (reply, s') = get_master env c cfg.master_name s in
      let node = (probe_dial env master_key (redis_dial cfg) s').0 in
      ground
        (arith, verify_heal-parts s, advertises_iff reply, text_eq_iff node.role (codes "master"))
