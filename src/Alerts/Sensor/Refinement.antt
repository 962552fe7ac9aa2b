-- ===== src/Alerts/Sensor/Refinement.antt =====
-- `evaluate_sensor` implements the step of the specification, and touches no other sensor.
use sen_sa.Prelude.{
  ℕ, ◌+◌, ◌<◌, ◌≡◌, refl, ◌∙◌, ap, map, true, Option, none, some, List, [], ◌∷◌, String, arith, leb,
  Bool-cases, inl, inr,
}
use sen_sa.Prelude.Float.{FloatOps}
use sen_sa.Alerts.Types.{Status, Reason, same_status, is_sensor_escalation}
use sen_sa.Alerts.Common.{caution_window, recovery_window, recovery_count_threshold}
use sen_sa.Alerts.Store.{
  Redis, SensorSnapshot, Window, window, get_sensor_snapshot, ttl, empty_window, put_window,
  set_sensor_window_counter, clear_sensor_window_counters,
}
use sen_sa.Alerts.Store.SensorReads.{
  get_sensor_snapshot-commit_sensor_state, get_sensor_snapshot-set_sensor_window_counter,
  get_sensor_snapshot-clear_sensor_window_counters, up-commit_sensor_state,
  up-set_sensor_window_counter, up-clear_sensor_window_counters,
}
use sen_sa.Alerts.World.{World, SensorPayload}
use sen_sa.Alerts.Fences.{Db}
use sen_sa.Alerts.Sensor.Evaluate.{
  next_window, accumulate_window, reset_safer, escalation_threshold, confirm, clear_if_confirmed,
  verdict, Reading, conclude, evaluate_status,
}
use sen_sa.Alerts.Sensor.Spec.{advance, decide, cleared, held, counted, observe, settle, watch}

next_window-advance :
    (now : ℕ) (w : Window) (window_sec : ℕ)
    → next_window now w window_sec ≡ advance now w window_sec
unfolding next_window advance
next_window-advance now w window_sec = ground arith

verdict-decide :
    (now : ℕ) (s : SensorSnapshot) (c : Option Status) → verdict now s c ≡ decide now s c
unfolding verdict decide
verdict-decide now s none = ground arith
verdict-decide now s (some c) = refl

-- The store against the specification, for a key that does not end between the two instants.
module _ (now later : ℕ) (id : String) (fresh : later < now + ttl) where
  abbrev Reads : Redis → SensorSnapshot → Type 0
  Reads r s =
      (get_sensor_snapshot r now id ≡ s) × (get_sensor_snapshot r later id ≡ s) × (r.up ≡ true)

  Reads-set :
      (r : Redis) (s : SensorSnapshot) (st : Status) (count first_at : ℕ)
      → Reads r s
      → Reads
          (set_sensor_window_counter r now id st count first_at)
          (put_window s st (record { count = count; first_at = first_at }))
  Reads-set r s st count first_at (here, there, up) =
      let w : Window = record { count = count; first_at = first_at } in
      let put : SensorSnapshot → SensorSnapshot = λ s. put_window s st w in
      (
        get_sensor_snapshot-set_sensor_window_counter r now now id up (omega arith) st count
              first_at
            ∙ ap put here,
        get_sensor_snapshot-set_sensor_window_counter r now later id up fresh st count first_at
            ∙ ap put here,
        up-set_sensor_window_counter r now id st count first_at ∙ up,
      )

  Reads-clear :
      (r : Redis) (s : SensorSnapshot)
      → Reads r s
      → Reads (clear_sensor_window_counters r now id) (cleared s)
  Reads-clear r s (here, there, up) = (
    get_sensor_snapshot-clear_sensor_window_counters r now now id up (omega arith)
        ∙ ap cleared here,
    get_sensor_snapshot-clear_sensor_window_counters r now later id up fresh ∙ ap cleared here,
    up-clear_sensor_window_counters r now id ∙ up,
  )

  abbrev Matches : Redis × Option Status → SensorSnapshot × Option Status → Type 0
  Matches a c = Reads (clear_if_confirmed now id a) c.0 × (a.1 ≡ c.1)

  accumulate_window-counted :
      (r : Redis) (s : SensorSnapshot) (observed : Status) (window_sec threshold : ℕ)
      → Reads r s
      → Matches
          (accumulate_window r s observed now window_sec threshold id)
          (counted now s observed window_sec threshold)
  unfolding accumulate_window counted clear_if_confirmed
  accumulate_window-counted r s observed window_sec threshold h =
      rw (next_window-advance now (window s observed) window_sec, accumulate_window)
        (let next : Window = advance now (window s observed) window_sec in
          elim (Bool-cases (leb threshold next.count)) [
            | inl full ↦ rw full (Reads-clear r s h, refl)
            | inr more ↦ rw more (Reads-set r s observed next.count next.first_at h, refl)
          ])

  reset_safer-held :
      (r : Redis) (s : SensorSnapshot) (official : Status)
      → Reads r s
      → Reads (reset_safer r now id official) (held s official)
  unfolding reset_safer
  reset_safer-held r s Status.normal h = h
  reset_safer-held r s Status.caution h = Reads-set r s Status.normal 0 0 h
  reset_safer-held r s Status.danger h =
      Reads-set _ (put_window s Status.normal empty_window) Status.caution 0 0
        (Reads-set r s Status.normal 0 0 h)

  confirm-observe :
      (r : Redis) (s : SensorSnapshot) (observed : Status)
      → Reads r s
      → Matches (confirm r now id s observed) (observe now s observed)
  unfolding confirm observe
  confirm-observe r s observed h = elim (Bool-cases (same_status observed s.state)) [
    | inl same ↦ rw same (unfold clear_if_confirmed in (reset_safer-held r s s.state h, refl))
    | inr differs ↦ elim (Bool-cases (is_sensor_escalation s.state observed)) [
      | inl rises ↦
          rw (differs, rises)
            (accumulate_window-counted r s observed caution_window (escalation_threshold observed)
              h)
      | inr falls ↦
          rw (differs, falls)
            (accumulate_window-counted r s observed recovery_window recovery_count_threshold h)
    ]
  ]

abbrev pub due : Option (Reason × Status) → List (Reason × Status)
due none = []
due (some v) = v ∷ []

abbrev pub said : List SensorPayload → List (Reason × Status)
said = map (λ (p : SensorPayload). (p.reason, p.state_to))

module _ (fl : FloatOps) where
  open fl use {Float}

  conclude-settle :
      (db : Db Float) (w : World Float) (now later : ℕ) (reading : Reading) (official : Status)
      (v : Option (Reason × Status)) (s : SensorSnapshot) (fresh : later < now + ttl)
      → Reads now later reading.device_id fresh w.redis s
      → let (w', created) = conclude fl db w now reading official v in
        (get_sensor_snapshot w'.redis later reading.device_id ≡ settle now s v)
        × (said created ≡ due v)
        × (w'.redis.up ≡ true)
  unfolding conclude settle
  conclude-settle db w now later reading official none s fresh (here, there, up) =
      elim (Bool-cases (same_status official Status.normal)) [
        | inl quiet ↦ rw quiet (there, refl, up)
        | inr held_back ↦ rw held_back (there, refl, up)
      ]
  conclude-settle db w now later reading official (some (reason, target)) s fresh
        (here, there, up) =
      (
        get_sensor_snapshot-commit_sensor_state w.redis now later reading.device_id up fresh target
            ∙ ap (λ s. settle now s (some (reason, target))) here,
        refl,
        up-commit_sensor_state w.redis now reading.device_id target ∙ up,
      )

  -- While Redis answers, an evaluation takes the sensor's snapshot as the specification does and
  -- raises the alarm that is due, as any read of the key before its time to live is over shows.
  pub evaluate_status-watch :
      (db : Db Float) (w : World Float) (now later : ℕ) (reading : Reading) (observed : Status)
      → w.redis.up ≡ true
      → later < now + ttl
      → get_sensor_snapshot w.redis later reading.device_id
        ≡ get_sensor_snapshot w.redis now reading.device_id
      → let (w', created) = evaluate_status fl db w now reading observed in
        let (s', v) = watch now (get_sensor_snapshot w.redis now reading.device_id) observed in
        (get_sensor_snapshot w'.redis later reading.device_id ≡ s')
        × (said created ≡ due v)
        × (w'.redis.up ≡ true)
  unfolding evaluate_status watch
  evaluate_status-watch db w now later reading observed up fresh steady =
      let id = reading.device_id in
      let s : SensorSnapshot = get_sensor_snapshot w.redis now id in
      let c = confirm w.redis now id s observed in
      let o = observe now s observed in
      let (h, same) = confirm-observe now later id fresh w.redis s observed (refl, steady, up) in
      let (settled, told, up') =
        conclude-settle db (record w { redis = clear_if_confirmed now id c }) now later reading
          s.state (verdict now s c.1) o.0 fresh h in
      (
        settled
            ∙ ap (λ b. settle now o.0 (verdict now s b)) same
            ∙ ap (settle now o.0) (verdict-decide now s o.1),
        told ∙ ap (λ b. due (verdict now s b)) same ∙ ap due (verdict-decide now s o.1),
        up',
      )
