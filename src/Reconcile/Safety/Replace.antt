-- ===== src/Reconcile/Safety/Replace.antt =====
-- REMOVE and MONITOR come in pairs.
use redis_sentinel_reconcile.Prelude.{Bool, true, false, not, List, [], ◌∷◌, ◌≡◌, refl, arith}
use redis_sentinel_reconcile.Prelude.Int.{ℤ}
use redis_sentinel_reconcile.Text.{Text}
use redis_sentinel_reconcile.Commands.{remove, monitor, changes_sentinel}
use redis_sentinel_reconcile.Sentinel.{Client, send_set, send_reset, send_remove, send_monitor}
use redis_sentinel_reconcile.Reconcile.Config.{Config}
use redis_sentinel_reconcile.Reconcile.Heal.{replace_monitor}
use redis_sentinel_reconcile.Reconcile.Tick.{run}
use redis_sentinel_reconcile.Reconcile.Tick.Run.{Keeps-run_heals}
use redis_sentinel_reconcile.World.Keeps.{Keeps}
use redis_sentinel_reconcile.World.Steady.{
  is_read, Anyhow, Anyhow-IsLawful, IsSteady, Keeps-send, Keeps-set_last_heal,
}
use redis_sentinel_reconcile.World.{Env, Entry, sentinel_call, attempt, St, ◌>>=◌, send}

abbrev is_remove : Entry → Bool
is_remove (sentinel_call addr (remove name)) = true
is_remove _ = false

-- Every REMOVE in the journal is of `name`, and the next entry is a MONITOR of `name` with
-- `quorum`, to the same Sentinel.
pub data IsReplaced (name : Text) (quorum : ℤ) : List Entry → Type 0 where
  nothing : IsReplaced name quorum []
  no_remove :
      (e : Entry) (es : List Entry)
      → is_remove e ≡ false
      → IsReplaced name quorum es
      → IsReplaced name quorum (e ∷ es)
  replaced :
      (addr ip : Text) (port : ℤ) (es : List Entry)
      → IsReplaced name quorum es
      → IsReplaced name quorum
          (sentinel_call addr (monitor name ip port quorum) ∷ sentinel_call addr (remove name) ∷ es)

not_remove : (e : Entry) → is_read e ≡ true → not (is_remove e) ≡ true
unfolding changes_sentinel
not_remove e r = ground arith

module _ {W : Type 0} (env : Env W) (cfg : Config) where
  abbrev Replaced : St W → Type 0
  Replaced s = IsReplaced cfg.master_name cfg.quorum s.journal

  Replaced-IsSteady : IsSteady Anyhow (λ e. not (is_remove e)) Replaced
  Replaced-IsSteady = record {
    world = λ s w l h. h;
    metrics = λ s m h. h;
    journal = λ s e q h. no_remove e s.journal (ground arith) h;
  }

  Keeps-replace_monitor :
      (c : Client) (ip : Text) (port : ℤ) → Keeps Replaced (replace_monitor env cfg c ip port)
  unfolding replace_monitor send_remove send_monitor send ◌>>=◌
  Keeps-replace_monitor c ip port = record { at = λ s h. replaced c.addr ip port s.journal h }

  -- From a journal in which every REMOVE is of the configured master name and directly followed by
  -- a MONITOR of that name with the configured quorum to the same Sentinel (an empty one is), a run
  -- leads to such a journal, whatever the Sentinels answer.
  pub run-IsReplaced :
      (s : St W) (waits : List ℤ)
      → IsReplaced cfg.master_name cfg.quorum s.journal
      → IsReplaced cfg.master_name cfg.quorum (run env cfg waits s).1.journal
  unfolding send_set send_reset
  run-IsReplaced s waits start =
      let law = Anyhow-IsLawful env in
      let steady = Replaced-IsSteady in
      (Keeps-run_heals law steady not_remove cfg (λ addr holder. (refl, refl, refl))
          (Keeps-set_last_heal λ s t h. steady.journal s (attempt t) refl h)
          (λ c advertised master_key nodes h. (
            (λ option value. Keeps-send steady _ _ refl (λ w. tt)),
            Keeps-send steady _ _ refl (λ w. tt),
            Keeps-replace_monitor c,
          ))
          waits).at
        s start
