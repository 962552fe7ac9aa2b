-- ===== src/Alerts/Worker/Refinement.antt =====
-- `evaluate_worker` implements the step of the specification, and touches no other worker.
use sen_sa.Prelude.{
  ℕ, ◌+◌, ◌<◌, ◌≡◌, refl, ◌∙◌, Bool, true, false, Option, none, some, List, [], ◌∷◌, String, arith,
  map, ap,
}
use mathlib.Core.Path.{ap₂}
use sen_sa.Prelude.Float.{FloatOps}
use sen_sa.Prelude.Text.{str_eq}
use sen_sa.Alerts.Types.{Status, WorkerState, Reason, same_state}
use sen_sa.Alerts.Store.{Redis, WorkerSnapshot, get_worker_snapshot, commit_state, ttl}
use sen_sa.Alerts.Store.Reads.{
  get_worker_snapshot-commit_state, get_worker_snapshot-set_pending,
  get_worker_snapshot-clear_pending, get_worker_snapshot-commit_state_ne,
  get_worker_snapshot-set_pending_ne, get_worker_snapshot-clear_pending_ne, up-commit_state,
  up-set_pending, up-clear_pending,
}
use sen_sa.Alerts.World.{World, WorkerPayload}
use sen_sa.Alerts.Fences.{Db, find_containing_geofences}
use sen_sa.Geofence.Zone.{GeoFence}
use sen_sa.Alerts.Worker.State.{classify_state}
use sen_sa.Alerts.Worker.Evaluate.{confirm, verdict, raise_alarm, conclude, evaluate_worker}
use sen_sa.Alerts.Worker.Spec.{observe, settle, decide, watch}

-- The store's part of the confirmation, against the specification's.
module _ (r : Redis) (now later : ℕ) (id : String) (up : r.up ≡ true) (fresh : later < now + ttl)
    (steady : get_worker_snapshot r later id ≡ get_worker_snapshot r now id)
    (observed : WorkerState) where
  confirm-observe :
      let s = get_worker_snapshot r now id in
      (get_worker_snapshot (confirm r now id s observed).0 later id ≡ (observe s observed).0)
      × ((confirm r now id s observed).1 ≡ (observe s observed).1)
      × ((confirm r now id s observed).0.up ≡ true)
  unfolding confirm observe
  confirm-observe = ground (
    arith,
    get_worker_snapshot-set_pending r now later id up fresh observed 1,
    get_worker_snapshot-set_pending r now later id up fresh observed
        ((get_worker_snapshot r now id).pending_count + 1),
    get_worker_snapshot-clear_pending r now later id up fresh,
    up-set_pending r now id observed 1,
    up-set_pending r now id observed ((get_worker_snapshot r now id).pending_count + 1),
    up-clear_pending r now id,
  )

module _ (r : Redis) (now later : ℕ) (id : String) (up : r.up ≡ true) (fresh : later < now + ttl)
    (observed : WorkerState) where
  -- Where the observation differs and is not confirmed yet, the key is written.
  confirm-observe_awaited :
      let s = get_worker_snapshot r now id in
      same_state observed s.state ≡ false
      → (observe s observed).1 ≡ none
      → get_worker_snapshot (confirm r now id s observed).0 later id ≡ (observe s observed).0
  unfolding confirm observe
  confirm-observe_awaited differs waits = ground (
    arith,
    get_worker_snapshot-set_pending r now later id up fresh observed 1,
    get_worker_snapshot-set_pending r now later id up fresh observed
        ((get_worker_snapshot r now id).pending_count + 1),
  )

module _ (r : Redis) (now later : ℕ) (id other : String) (ne : str_eq id other ≡ false) where
  confirm_other :
      (s : WorkerSnapshot) (observed : WorkerState)
      → get_worker_snapshot (confirm r now id s observed).0 later other
        ≡ get_worker_snapshot r later other
  unfolding confirm
  confirm_other s observed = ground (
    arith,
    get_worker_snapshot-set_pending_ne r now later id other ne observed 1,
    get_worker_snapshot-set_pending_ne r now later id other ne observed (s.pending_count + 1),
    get_worker_snapshot-clear_pending_ne r now later id other ne,
  )

abbrev pub due : Option (Reason × WorkerState) → List (Reason × WorkerState)
due none = []
due (some v) = v ∷ []

abbrev pub said : List WorkerPayload → List (Reason × WorkerState)
said = map (λ (p : WorkerPayload). (p.reason, p.state_to))

verdict-decide :
    (now : ℕ) (s : WorkerSnapshot) (c : Option WorkerState) → verdict now s c ≡ decide now s c
unfolding verdict decide
verdict-decide now s none = ground arith
verdict-decide now s (some c) = refl

decide-none :
    (now : ℕ) (s : WorkerSnapshot) (c : Option WorkerState) → decide now s c ≡ none → c ≡ none
unfolding decide
decide-none now s none h = refl
decide-none now s (some c) h = cc

module _ (fl : FloatOps) where
  open fl use {Float}

  abbrev pub seen : Db Float → (x y : Float) → Status → WorkerState
  seen db x y worst = classify_state (find_containing_geofences fl db x y) worst

  module _ (configured : Bool) (w : World Float) (now : ℕ) (id name : String) (x y : Float)
      (worst : Status) (sensors : List (String × Status)) (geofences : List (GeoFence Float))
      (official : WorkerState) where
    pub raise_alarm-redis :
        (reason : Reason) (target : WorkerState)
        → (raise_alarm fl configured w now id name x y worst sensors geofences official
            (reason, target)).0.redis
          ≡ commit_state w.redis now id target true
    unfolding raise_alarm
    raise_alarm-redis reason target = ground arith

    conclude-settle :
        (later : ℕ) (v : Option (Reason × WorkerState))
        → w.redis.up ≡ true
        → later < now + ttl
        → let (w', created) =
            conclude fl configured w now id name x y worst sensors geofences official v in
          (get_worker_snapshot w'.redis later id
            ≡ settle now (get_worker_snapshot w.redis later id) v)
          × (said created ≡ due v)
          × (w'.redis.up ≡ true)
    unfolding conclude settle
    conclude-settle later none up fresh = (refl, refl, up)
    conclude-settle later (some (reason, target)) up fresh = (
      ap (λ r. get_worker_snapshot r later id) (raise_alarm-redis reason target)
          ∙ get_worker_snapshot-commit_state w.redis now later id up fresh target,
      refl,
      ap Redis.up (raise_alarm-redis reason target) ∙ up-commit_state w.redis now id target ∙ up,
    )

  conclude_other :
      (configured : Bool) (w : World Float) (now later : ℕ) (id other name : String) (x y : Float)
      (worst : Status) (sensors : List (String × Status)) (geofences : List (GeoFence Float))
      (official : WorkerState) (v : Option (Reason × WorkerState))
      → str_eq id other ≡ false
      → let w' = (conclude fl configured w now id name x y worst sensors geofences official v).0 in
        get_worker_snapshot w'.redis later other ≡ get_worker_snapshot w.redis later other
  unfolding conclude
  conclude_other configured w now later id other name x y worst sensors geofences official none ne =
      refl
  conclude_other configured w now later id other name x y worst sensors geofences official
        (some (reason, target)) ne =
      ap (λ r. get_worker_snapshot r later other)
        (raise_alarm-redis configured w now id name x y worst sensors geofences official reason
          target)
      ∙ get_worker_snapshot-commit_state_ne w.redis now later id other ne target

  module _ (configured : Bool) (db : Db Float) (w : World Float) (now : ℕ) (id name : String)
      (x y : Float) (worst : Status) (sensors : List (String × Status)) where
    -- While Redis answers, an evaluation takes the worker's snapshot as the specification does and
    -- raises the alarm that is due, as any read of the key before its time to live is over shows.
    pub evaluate_worker-watch :
        (later : ℕ)
        → w.redis.up ≡ true
        → later < now + ttl
        → get_worker_snapshot w.redis later id ≡ get_worker_snapshot w.redis now id
        → let (w', created) = evaluate_worker fl configured db w now id name x y worst sensors in
          let (s', v) = watch now (get_worker_snapshot w.redis now id) (seen db x y worst) in
          (get_worker_snapshot w'.redis later id ≡ s')
          × (said created ≡ due v)
          × (w'.redis.up ≡ true)
    unfolding evaluate_worker watch
    evaluate_worker-watch later up fresh steady =
        let snap : WorkerSnapshot = get_worker_snapshot w.redis now id in
        let c = confirm w.redis now id snap (seen db x y worst) in
        let o = observe snap (seen db x y worst) in
        let (read, same, up') =
          confirm-observe w.redis now later id up fresh steady (seen db x y worst) in
        let (settled, told, up'') =
          conclude-settle configured (record w { redis = c.0 }) now id name x y worst sensors
            (find_containing_geofences fl db x y) snap.state later (verdict now snap c.1) up'
            fresh in
        (
          settled
              ∙ ap₂ (λ a b. settle now a (verdict now snap b)) read same
              ∙ ap (settle now o.0) (verdict-decide now snap o.1),
          told ∙ ap (λ b. due (verdict now snap b)) same ∙ ap due (verdict-decide now snap o.1),
          up'',
        )

    -- An evaluation leaves what the store holds of every other worker as it was.
    pub evaluate_worker_other :
        (later : ℕ) (other : String)
        → str_eq id other ≡ false
        → get_worker_snapshot
            (evaluate_worker fl configured db w now id name x y worst sensors).0.redis
            later
            other
          ≡ get_worker_snapshot w.redis later other
    unfolding evaluate_worker
    evaluate_worker_other later other ne =
        let snap : WorkerSnapshot = get_worker_snapshot w.redis now id in
        let c = confirm w.redis now id snap (seen db x y worst) in
        conclude_other configured (record w { redis = c.0 }) now later id other name x y worst
          sensors (find_containing_geofences fl db x y) snap.state (verdict now snap c.1) ne
        ∙ confirm_other w.redis now later id other ne snap (seen db x y worst)

    -- Once an alarm is raised the store holds the settled snapshot until its time to live is over.
    pub evaluate_worker-settle :
        (later : ℕ) (v : Reason × WorkerState)
        → w.redis.up ≡ true
        → later < now + ttl
        → (watch now (get_worker_snapshot w.redis now id) (seen db x y worst)).1 ≡ some v
        → let (w', created) = evaluate_worker fl configured db w now id name x y worst sensors in
          (get_worker_snapshot w'.redis later id
            ≡ settle now (get_worker_snapshot w.redis now id) (some v))
          × (said created ≡ v ∷ [])
          × (w'.redis.up ≡ true)
    unfolding evaluate_worker watch settle
    evaluate_worker-settle later (reason, target) up fresh alarmed =
        let snap : WorkerSnapshot = get_worker_snapshot w.redis now id in
        let c = confirm w.redis now id snap (seen db x y worst) in
        let (read, same, up') =
          confirm-observe w.redis now now id up (omega arith) refl (seen db x y worst) in
        rw
          (ap (verdict now snap) same
            ∙ verdict-decide now snap (observe snap (seen db x y worst)).1
            ∙ alarmed)
          (conclude-settle configured (record w { redis = c.0 }) now id name x y worst sensors
            (find_containing_geofences fl db x y) snap.state later (some (reason, target)) up'
            fresh)

    -- So is a recovery under way that raises no alarm.
    pub evaluate_worker_awaited :
        (later : ℕ)
        → w.redis.up ≡ true
        → later < now + ttl
        → let snap = get_worker_snapshot w.redis now id in
          same_state (seen db x y worst) snap.state ≡ false
          → (watch now snap (seen db x y worst)).1 ≡ none
          → let (w', created) = evaluate_worker fl configured db w now id name x y worst sensors in
            (get_worker_snapshot w'.redis later id ≡ (watch now snap (seen db x y worst)).0)
            × (said created ≡ [])
            × (w'.redis.up ≡ true)
    unfolding evaluate_worker watch settle
    evaluate_worker_awaited later up fresh differs quiet =
        let snap : WorkerSnapshot = get_worker_snapshot w.redis now id in
        let c = confirm w.redis now id snap (seen db x y worst) in
        let waits : (observe snap (seen db x y worst)).1 ≡ none =
          decide-none now snap (observe snap (seen db x y worst)).1 quiet in
        let read =
          confirm-observe_awaited w.redis now later id up fresh (seen db x y worst) differs waits in
        let (_, same, up') =
          confirm-observe w.redis now now id up (omega arith) refl (seen db x y worst) in
        rw
          (ap (verdict now snap) same
            ∙ verdict-decide now snap (observe snap (seen db x y worst)).1
            ∙ quiet)
          (read ∙ rw quiet refl, refl, up')
