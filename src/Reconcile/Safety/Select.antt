-- ===== src/Reconcile/Safety/Select.antt =====
-- The entries of a journal that pass a test: they are steady under entries that fail it.
use redis_sentinel_reconcile.Prelude.{Bool, not, List, [], ◌∷◌, ◌≡◌, arith, if◌then◌else◌}
use redis_sentinel_reconcile.World.Steady.{Anyhow, IsSteady}
use redis_sentinel_reconcile.World.{Entry, St}

-- The entries of a journal that pass a test, in order.
unfoldable pub select : (Entry → Bool) → List Entry → List Entry
select p [] = []
select p (e ∷ es) = if p e then e ∷ select p es else select p es

module _ {W : Type 0} (p : Entry → Bool) (es : List Entry) where
  -- The selected part of the journal is `es`.
  abbrev pub Selects : St W → Type 0
  Selects s = select p s.journal ≡ es

  pub Selects-IsSteady : IsSteady Anyhow (λ e. not (p e)) Selects
  unfolding select
  Selects-IsSteady = record {
    world = λ s w l h. h;
    metrics = λ s m h. h;
    journal = λ s e q h. ground (arith, h);
  }
