-- ===== src/Reconcile/Cooldown.antt =====
-- The spacing of heal attempts (lastHeal and HealCooldown of internal/reconcile), on a clock that
-- does not go back: what the journal and lastHeal say of the attempts.
pub mod Guard
pub mod Run
use redis_sentinel_reconcile.Prelude.{
  ℕ, ◌+◌, ◌≤◌, Bool, true, false, not, List, [], ◌∷◌, Option, none, some, ◌≡◌, refl, ◌∙◌, arith,
}
use redis_sentinel_reconcile.World.Steady.{is_read, IsLawful, IsSteady}
use redis_sentinel_reconcile.World.{Env, Entry, attempt, St}

-- The times of the attempts in a journal, newest first.
unfoldable pub attempt_times : List Entry → List ℕ
attempt_times [] = []
attempt_times (attempt t ∷ es) = t ∷ attempt_times es
attempt_times (e ∷ es) = attempt_times es

abbrev pub newest : List ℕ → Option ℕ
newest [] = none
newest (t ∷ ts) = some t

-- Each time is at least `gap` behind the one before it.
pub data IsSpaced (gap : ℕ) : List ℕ → Type 0 where
  nothing : IsSpaced gap []
  first : (t : ℕ) → IsSpaced gap (t ∷ [])
  again : (t u : ℕ) (ts : List ℕ) → u + gap ≤ t → IsSpaced gap (u ∷ ts) → IsSpaced gap (t ∷ u ∷ ts)

-- `time w` is what the clock has reached: it never goes back, and time.Now reads it.
pub record IsClock {W : Type 0} (env : Env W) (time : W → ℕ) : Type 0 where
  pub forward : IsLawful env (λ v w. time v ≤ time w)
  pub now_from : (w : W) → time w ≤ (env.now w).0
  pub now_to : (w : W) → (env.now w).0 ≤ time (env.now w).1

abbrev pub is_attempt : Entry → Bool
is_attempt (attempt t) = true
is_attempt _ = false

pub reads_no_attempt : (e : Entry) → is_read e ≡ true → not (is_attempt e) ≡ true
reads_no_attempt e r = ground arith

pub attempt_times-other :
    (e : Entry) (es : List Entry)
    → not (is_attempt e) ≡ true
    → attempt_times (e ∷ es) ≡ attempt_times es
unfolding attempt_times
attempt_times-other e es q = ground arith

module _ {W : Type 0} (time : W → ℕ) (gap : ℕ) where
  -- last_heal is the newest attempt, the attempts are spaced, and none is ahead of the clock.
  pub record Cooling (s : St W) : Type 0 where
    pub last : s.last_heal ≡ newest (attempt_times s.journal)
    pub spaced : IsSpaced gap (attempt_times s.journal)
    pub past : (t : ℕ) → s.last_heal ≡ some t → t ≤ time s.world

  -- The cooldown is over as well.
  pub record Cool (s : St W) : Type 0 where
    pub cooling : Cooling s
    pub over : (t : ℕ) → s.last_heal ≡ some t → t + gap ≤ time s.world

  pub Cooling-IsSteady : IsSteady (λ v w. time v ≤ time w) (λ e. not (is_attempt e)) Cooling
  Cooling-IsSteady = record {
    world = λ s w later h. record {
      last = h.last;
      spaced = h.spaced;
      past = λ t e. ground (arith, later, h.past t e);
    };
    metrics = λ s m h. record { last = h.last; spaced = h.spaced; past = h.past };
    journal = λ s e q h. record {
      last = rw (attempt_times-other e s.journal q) (h.last);
      spaced = rw (attempt_times-other e s.journal q) (h.spaced);
      past = h.past;
    };
  }

  pub Cool-IsSteady : IsSteady (λ v w. time v ≤ time w) (λ e. not (is_attempt e)) Cool
  Cool-IsSteady = record {
    world = λ s w later h. record {
      cooling = Cooling-IsSteady.world s w later (h.cooling);
      over = λ t e. ground (arith, later, h.over t e);
    };
    metrics = λ s m h. record { cooling = Cooling-IsSteady.metrics s m (h.cooling); over = h.over };
    journal =
        λ s e q h. record { cooling = Cooling-IsSteady.journal s e q (h.cooling); over = h.over };
  }

  IsSpaced-again :
      (t : ℕ) (ts : List ℕ)
      → ((u : ℕ) → newest ts ≡ some u → u + gap ≤ t)
      → IsSpaced gap ts
      → IsSpaced gap (t ∷ ts)
  IsSpaced-again t [] over h = first t
  IsSpaced-again t (u ∷ ts) over h = again t u ts (over u refl) h

  -- An attempt at a time behind the cooldown keeps the spacing.
  pub Cool-attempt :
      (s : St W) (t : ℕ) (w : W)
      → Cool s
      → time s.world ≤ t
      → t ≤ time w
      → Cooling (record s { world = w; last_heal = some t; journal = attempt t ∷ s.journal })
  unfolding attempt_times
  Cool-attempt s t w h from to = record {
    last = refl;
    spaced =
        IsSpaced-again t (attempt_times s.journal)
          (λ u e. ground (arith, from, h.over u (h.cooling.last ∙ e))) (h.cooling.spaced);
    past = λ u e. ground (arith, to, e);
  }
