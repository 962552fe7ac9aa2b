-- ===== src/Alerts/Worker/Slow.antt =====
-- What alarms that repeat do to a worker who is seen seldom.
use sen_sa.Prelude.{ℕ, ◌+◌, ◌≤◌, ◌<◌, ◌≡◌, refl, true, none, List, [], ◌∷◌, String, arith, map, All}
use mathlib.Core.Path.{ap₂}
use sen_sa.Prelude.Float.{FloatOps}
use sen_sa.Alerts.Types.{WorkerState, Reason, ongoing, ladder}
use sen_sa.Alerts.Common.{re_alarm_interval}
use sen_sa.Alerts.Store.{ttl}
use sen_sa.Alerts.World.{World}
use sen_sa.Alerts.Worker.Refinement.{said}
use sen_sa.Alerts.Worker.Hysteresis.{watch_repeat, Visit, visit, state_at, snapshot, visit_alarms}

module _ (fl : FloatOps) (id : String) where
  open fl use {Float}

  -- Visits to which the alarm is due to repeat each time, before the worker's key is gone.
  abbrev pub IsSlow : (last : ℕ) → List (Visit Float) → Type 0
  IsSlow last [] = Unit
  IsSlow last (v ∷ vs) = (last + re_alarm_interval ≤ v.now) × (v.now < last + ttl) × IsSlow v.now vs

  abbrev pub visits :
      World Float → List (Visit Float) → World Float × List (List (Reason × WorkerState))
  visits w [] = (w, [])
  visits w (v ∷ vs) =
      let (w', created) = visit fl id w v in
      let (end, rest) = visits w' vs in (end, said created ∷ rest)

  abbrev pub AllSee : WorkerState → List (Visit Float) → Type 0
  AllSee target = All (λ (v : Visit Float). state_at fl id v ≡ target)

  -- While Redis answers, a worker in an unsafe state without a recovery under way, who is observed at
  -- a lower state at visits that are 60 seconds or more apart but less than the 300 that the key
  -- lives, never recovers, however many the visits are: each raises the alarm that the old state
  -- goes on.
  pub evaluate_worker_slow :
      (w : World Float) (official target : WorkerState) (last : ℕ) (vs : List (Visit Float))
      → w.redis.up ≡ true
      → ladder target < ladder official
      → IsSlow last vs
      → AllSee target vs
      → ((now : ℕ)
          → now < last + ttl
          → snapshot fl id w now ≡ record {
            state = official;
            last_alarm_at = last;
            pending_state = none;
            pending_count = 0;
          })
      → (visits w vs).1 ≡ map (λ (v : Visit Float). (ongoing, official) ∷ []) vs
  evaluate_worker_slow w official target last [] up lower slow sees holds = refl
  evaluate_worker_slow w official target last (v ∷ vs) up lower (late, alive, slow) (s, sees)
        holds =
      let step = λ (later : ℕ) (fresh : later < v.now + ttl).
        visit_alarms fl id w v target later up fresh s (rw (holds v.now alive) lower) ongoing
          official
          (rw (holds v.now alive) (
            watch_repeat v.now
              (record {
                state = official;
                last_alarm_at = last;
                pending_state = none;
                pending_count = 0;
              })
              target lower (omega arith) late)) in
      ap₂ ◌∷◌ (step v.now (omega arith)).1 (
        evaluate_worker_slow (visit fl id w v).0 official target v.now vs
          (step v.now (omega arith)).2 lower slow sees (λ now fresh. (step now fresh).0))
