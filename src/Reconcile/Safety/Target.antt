-- ===== src/Reconcile/Safety/Target.antt =====
-- Where a heal goes: its commands, and what it tells the Sentinel to monitor.
use redis_sentinel_reconcile.Prelude.{
  Bool, true, false, not, ◌&&◌, ◌||◌, List, some, ◌≡◌, refl, arith,
}
use redis_sentinel_reconcile.Prelude.Int.{ℤ, int_eq, int_eq_iff}
use redis_sentinel_reconcile.Text.{Text, text_eq}
use redis_sentinel_reconcile.Text.Laws.{text_eq_iff}
use redis_sentinel_reconcile.Net.{endpoint_ip_port}
use redis_sentinel_reconcile.Oracle.{NodeResult}
use redis_sentinel_reconcile.Commands.{
  SentinelCommand, changes_sentinel, monitor, remove, reset, set,
}
use redis_sentinel_reconcile.Sentinel.{Client, send_set, send_reset, send_remove, send_monitor}
use redis_sentinel_reconcile.Reconcile.Config.{Config}
use redis_sentinel_reconcile.Reconcile.Heal.{heal_api, replace_monitor}
use redis_sentinel_reconcile.Reconcile.Heal.Steady.{Keeps-heal_api}
use redis_sentinel_reconcile.Reconcile.Safety.Select.{select, Selects-IsSteady}
use redis_sentinel_reconcile.World.Keeps.{Keeps-bind}
use redis_sentinel_reconcile.World.Steady.{
  is_read, Anyhow-IsLawful, Keeps-send, Keeps-set_last_heal,
}
use redis_sentinel_reconcile.World.{Env, Entry, sentinel_call, attempt, St}

-- Whether a command is about another master name, or a MONITOR of another address or quorum.
abbrev pub is_astray : Text → Text → ℤ → ℤ → SentinelCommand → Bool
is_astray name ip port quorum (monitor n i p q) =
    not (text_eq n name && text_eq i ip && int_eq p port && int_eq q quorum)
is_astray name ip port quorum (remove n) = not (text_eq n name)
is_astray name ip port quorum (reset n) = not (text_eq n name)
is_astray name ip port quorum (set n option value) = not (text_eq n name)
is_astray name ip port quorum cmd = true

-- Whether an entry changes another Sentinel, or changes this one for another master.
abbrev pub misses : Text → Text → Text → ℤ → ℤ → Entry → Bool
misses addr name ip port quorum (sentinel_call a cmd) =
    changes_sentinel cmd && (not (text_eq a addr) || is_astray name ip port quorum cmd)
misses addr name ip port quorum _ = false

module _ {W : Type 0} (env : Env W) (cfg : Config) (c : Client) (master_key : Text) where
  abbrev off_target : Text → ℤ → Entry → Bool
  off_target ip port = misses c.addr cfg.master_name ip port cfg.quorum

  reads_on_target :
      (ip : Text) (port : ℤ) (e : Entry) → is_read e ≡ true → not (off_target ip port e) ≡ true
  reads_on_target ip port e r = ground arith

  -- Where the address of the oracle resolves, a heal changes no Sentinel but that of its client, it
  -- changes it for the configured master name only, by REMOVE, MONITOR, SET and RESET, and each
  -- MONITOR is of that address with the configured quorum.
  pub heal_api-target :
      (advertised : Text) (nodes : List NodeResult) (flags : Text) (trap : Bool) (ip : Text)
      (port : ℤ) (s : St W)
      → endpoint_ip_port env.resolver master_key ≡ some (ip, port)
      → select
          (misses c.addr cfg.master_name ip port cfg.quorum)
          (heal_api env cfg c advertised master_key nodes flags trap s).1.journal
        ≡ select (misses c.addr cfg.master_name ip port cfg.quorum) s.journal
  unfolding send_set send_reset replace_monitor send_remove send_monitor changes_sentinel
  heal_api-target advertised nodes flags trap ip port s at =
      let p = off_target ip port in
      let law = Anyhow-IsLawful env in
      let steady = Selects-IsSteady p (select p s.journal) in
      let same_addr = text_eq_iff c.addr c.addr in
      let same_name = text_eq_iff cfg.master_name cfg.master_name in
      (Keeps-heal_api law steady (reads_on_target ip port) cfg c master_key
          (λ option value. Keeps-send steady _ _ (ground (arith, same_addr, same_name)) (λ w. tt))
          (Keeps-send steady _ _ (ground (arith, same_addr, same_name)) (λ w. tt))
          (Keeps-set_last_heal λ s t h. steady.journal s (attempt t) refl h) advertised nodes flags
          trap
          (λ i q found.
            Keeps-bind _ _ (Keeps-send steady _ _ (ground (arith, same_addr, same_name)) (λ w. tt))
              λ _.
                Keeps-send steady _ _
                  (ground (
                    arith,
                    at,
                    found,
                    same_addr,
                    same_name,
                    text_eq_iff i ip,
                    int_eq_iff q port,
                    int_eq_iff cfg.quorum cfg.quorum,
                  ))
                  (λ w. tt))).at
        s refl
