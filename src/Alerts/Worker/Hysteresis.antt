-- ===== src/Alerts/Worker/Hysteresis.antt =====
-- When a worker's state changes: at once for the worse, at the third observation in a row for the
-- better, and what an alarm that repeats does to a recovery under way.
use sen_sa.Prelude.{
  ℕ, ◌+◌, ◌≤◌, ◌<◌, ◌≡◌, refl, Bool, true, false, Option, none, some, List, [], ◌∷◌, String, arith,
  ap, ◌∙◌,
}
use sen_sa.Prelude.Float.{FloatOps}
use sen_sa.Alerts.Types.{
  Status, WorkerState, safe, Reason, transition, ongoing, ladder, same_state, is_escalation,
}
use sen_sa.Alerts.Common.{re_alarm_interval, recovery_confirm_ticks}
use sen_sa.Alerts.Store.{WorkerSnapshot, get_worker_snapshot, ttl}
use sen_sa.Alerts.World.{World, WorkerPayload}
use sen_sa.Alerts.Fences.{Db}
use sen_sa.Alerts.Worker.Evaluate.{evaluate_worker}
use sen_sa.Alerts.Worker.Spec.{settle, watch}
use sen_sa.Alerts.Worker.Refinement.{seen, said, evaluate_worker-settle, evaluate_worker_awaited}

same_state_refl : (s : WorkerState) → same_state s s ≡ true
same_state_refl safe = refl
same_state_refl _ = refl

watch_escalation :
    (now : ℕ) (s : WorkerSnapshot) (observed : WorkerState)
    → ladder s.state < ladder observed
    → (watch now s observed).1 ≡ some (transition, observed)
unfolding watch is_escalation
watch_escalation now s observed h = ground arith

-- A lower state is awaited: the first observation of it, one more in a row, the last in a row.
module _ (now : ℕ) (s : WorkerSnapshot) (observed : WorkerState)
    (lower : ladder observed < ladder s.state) where
  watch_first :
      s.pending_state ≡ none
      → now < s.last_alarm_at + re_alarm_interval
      → watch now s observed ≡ (record s { pending_state = some observed; pending_count = 1 }, none)
  unfolding watch is_escalation
  watch_first p t = ground arith

  watch_more :
      s.pending_state ≡ some observed
      → s.pending_count + 1 < recovery_confirm_ticks
      → now < s.last_alarm_at + re_alarm_interval
      → watch now s observed ≡ (record s { pending_count = s.pending_count + 1 }, none)
  unfolding watch is_escalation
  watch_more p c t = ground (arith, same_state_refl observed)

  watch_last :
      s.pending_state ≡ some observed
      → recovery_confirm_ticks ≤ s.pending_count + 1
      → (watch now s observed).1 ≡ some (transition, observed)
  unfolding watch is_escalation
  watch_last p c = ground (arith, same_state_refl observed)

  differs_lower : same_state observed s.state ≡ false
  differs_lower = ground arith

  -- An alarm that repeats while the worker is better off drops the recovery under way.
  pub watch_repeat :
      s.pending_count + 1 < recovery_confirm_ticks
      → s.last_alarm_at + re_alarm_interval ≤ now
      → (watch now s observed).1 ≡ some (ongoing, s.state)
  unfolding watch is_escalation
  watch_repeat c t = ground arith

-- The arguments of a call for one worker.
pub record Visit (F : Type 0) : Type 0 where
  pub configured : Bool
  pub db : Db F
  pub now : ℕ
  pub name : String
  pub x : F
  pub y : F
  pub worst : Status
  pub sensors : List (String × Status)

module _ (fl : FloatOps) (id : String) where
  open fl use {Float}

  abbrev pub visit : World Float → Visit Float → World Float × List WorkerPayload
  visit w v = evaluate_worker fl v.configured v.db w v.now id v.name v.x v.y v.worst v.sensors

  -- the state observed at a visit, and the worker's snapshot in the store at an instant
  abbrev pub state_at : Visit Float → WorkerState
  state_at v = seen fl v.db v.x v.y v.worst

  abbrev pub snapshot : World Float → ℕ → WorkerSnapshot
  snapshot w now = get_worker_snapshot w.redis now id

  -- While Redis answers, a state worse than the stored one is alarmed at once, as the only alarm,
  -- and is the stored state for the key's time to live.
  pub evaluate_worker_escalates :
      (w : World Float) (v : Visit Float) (later : ℕ)
      → w.redis.up ≡ true
      → later < v.now + ttl
      → ladder (snapshot w v.now).state < ladder (state_at v)
      → let (w', created) = visit w v in
        (said created ≡ (transition, state_at v) ∷ [])
        × ((snapshot w' later).state ≡ state_at v)
        × ((snapshot w' later).last_alarm_at ≡ v.now)
  unfolding settle
  evaluate_worker_escalates w v later up fresh worse =
      let (read, told, _) =
        evaluate_worker-settle fl v.configured v.db w v.now id v.name v.x v.y v.worst v.sensors
          later (transition, state_at v) up fresh
          (watch_escalation v.now (snapshot w v.now) (state_at v) worse) in
      (
        told,
        ap (λ (s : WorkerSnapshot). s.state) read,
        ap (λ (s : WorkerSnapshot). s.last_alarm_at) read,
      )

  module _ (w : World Float) (v : Visit Float) (target : WorkerState) (later : ℕ)
      (up : w.redis.up ≡ true) (fresh : later < v.now + ttl) (sees : state_at v ≡ target)
      (lower : ladder target < ladder (snapshot w v.now).state) where
    abbrev Awaits : WorkerSnapshot → Type 0
    Awaits s' =
        (snapshot (visit w v).0 later ≡ s')
        × (said (visit w v).1 ≡ [])
        × ((visit w v).0.redis.up ≡ true)

    visit-Awaits :
        (s' : WorkerSnapshot) → watch v.now (snapshot w v.now) target ≡ (s', none) → Awaits s'
    visit-Awaits s' step =
        let e : watch v.now (snapshot w v.now) (state_at v) ≡ (s', none) = rw sees step in
        let (read, told, up') =
          evaluate_worker_awaited fl v.configured v.db w v.now id v.name v.x v.y v.worst v.sensors
            later up fresh (rw sees (differs_lower v.now (snapshot w v.now) target lower))
            (ap (λ (p : WorkerSnapshot × Option (Reason × WorkerState)). p.1) e) in
        (read ∙ ap (λ (p : WorkerSnapshot × Option (Reason × WorkerState)). p.0) e, told, up')

    pub visit_alarms :
        (reason : Reason) (to : WorkerState)
        → (watch v.now (snapshot w v.now) target).1 ≡ some (reason, to)
        → (snapshot (visit w v).0 later
            ≡ record { state = to; last_alarm_at = v.now; pending_state = none; pending_count = 0 })
          × (said (visit w v).1 ≡ (reason, to) ∷ [])
          × ((visit w v).0.redis.up ≡ true)
    unfolding settle
    visit_alarms reason to step =
        evaluate_worker-settle fl v.configured v.db w v.now id v.name v.x v.y v.worst v.sensors
          later (reason, to) up fresh (rw sees step)

  -- While Redis answers, the key lives on from visit to visit and no alarm is due to repeat at the
  -- first two, a worker with no recovery under way goes to a lower state exactly at the third visit
  -- in a row that observes it: the first two raise no alarm and keep the state, the third raises the
  -- one alarm of the transition.
  pub evaluate_worker_recovers :
      (w : World Float) (u v t : Visit Float) (target : WorkerState) (later : ℕ)
      → let s = snapshot w u.now in
        w.redis.up ≡ true
        → s.pending_state ≡ none
        → ladder target < ladder s.state
        → (state_at u ≡ target) × (state_at v ≡ target) × (state_at t ≡ target)
        → (u.now < s.last_alarm_at + re_alarm_interval)
          × (v.now < s.last_alarm_at + re_alarm_interval)
        → (v.now < u.now + ttl) × (t.now < v.now + ttl) × (later < t.now + ttl)
        → let (w1, first) = visit w u in
          let (w2, second) = visit w1 v in
          let (w3, third) = visit w2 t in
          (said first ≡ [])
          × (said second ≡ [])
          × (said third ≡ (transition, target) ∷ [])
          × ((snapshot w1 v.now).state ≡ s.state)
          × ((snapshot w2 t.now).state ≡ s.state)
          × ((snapshot w3 later).state ≡ target)
  evaluate_worker_recovers w u v t target later up idle lower (eu, ev, et) (qu, qv) (fv, ft, fl') =
      let s = snapshot w u.now in
      let w1 = (visit w u).0 in
      let w2 = (visit w1 v).0 in
      let (read1, told1, up1) =
        visit-Awaits w u target v.now up fv eu lower _ (watch_first u.now s target lower idle qu) in
      let lower1 : ladder target < ladder (snapshot w1 v.now).state = rw read1 lower in
      let (read2, told2, up2) =
        visit-Awaits w1 v target t.now up1 ft ev lower1
          (record s { pending_state = some target; pending_count = 2 })
          (rw read1 (
            watch_more v.now (record s { pending_state = some target; pending_count = 1 }) target
              lower refl (omega arith) qv)) in
      let lower2 : ladder target < ladder (snapshot w2 t.now).state = rw read2 lower in
      let (read3, told3, _) = visit_alarms w2 t target later up2 fl' et lower2 transition target (
        rw read2 (
          watch_last t.now (record s { pending_state = some target; pending_count = 2 }) target
            lower refl (omega arith))) in
      (
        told1,
        told2,
        told3,
        ap (λ (r : WorkerSnapshot). r.state) read1,
        ap (λ (r : WorkerSnapshot). r.state) read2,
        ap (λ (r : WorkerSnapshot). r.state) read3,
      )
