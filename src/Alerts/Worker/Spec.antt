-- ===== src/Alerts/Worker/Spec.antt =====
-- What `evaluate_worker` promises of one worker, without the store: a step of the worker's
-- snapshot at an instant and an observed state, with the alarm that is due.
use sen_sa.Prelude.{ℕ, ◌+◌, Option, none, some, ltb, ◌||◌, leb, if◌then◌else◌}
use sen_sa.Alerts.Types.{WorkerState, safe, Reason, transition, ongoing, same_state, is_escalation}
use sen_sa.Alerts.Common.{re_alarm_interval, recovery_confirm_ticks}
use sen_sa.Alerts.Store.{WorkerSnapshot}
use sen_sa.Alerts.Worker.Evaluate.{is_some, is_pending}

abbrev forget : WorkerSnapshot → WorkerSnapshot
forget s = record s { pending_state = none; pending_count = 0 }

abbrev await : WorkerSnapshot → WorkerState → ℕ → WorkerSnapshot
await s state count = record s { pending_state = some state; pending_count = count }

-- A rise is confirmed at once, a fall at the last of the observations in a row.
unfoldable pub observe : WorkerSnapshot → WorkerState → WorkerSnapshot × Option WorkerState
observe s observed =
    if same_state observed s.state
    then ((if is_some s.pending_state then forget s else s), none)
    else if is_escalation s.state observed
    then (s, some observed)
    else if is_pending s.pending_state observed
    then (if leb recovery_confirm_ticks (s.pending_count + 1)
        then (s, some observed)
        else (await s observed (s.pending_count + 1), none))
    else (await s observed 1, none)

-- An alarm fixes the state, marks the time and forgets the recovery under way.
unfoldable pub settle : ℕ → WorkerSnapshot → Option (Reason × WorkerState) → WorkerSnapshot
settle now s none = s
settle now s (some (reason, target)) = record {
  state = target;
  last_alarm_at = now;
  pending_state = none;
  pending_count = 0;
}

-- A confirmed state is alarmed; without one, an unsafe state is alarmed again from the end of the
-- interval on.
unfoldable pub decide : ℕ → WorkerSnapshot → Option WorkerState → Option (Reason × WorkerState)
decide now s (some confirmed) = some (transition, confirmed)
decide now s none =
    if same_state s.state safe || ltb now (s.last_alarm_at + re_alarm_interval)
    then none
    else some (ongoing, s.state)

unfoldable pub watch :
    ℕ → WorkerSnapshot → WorkerState → WorkerSnapshot × Option (Reason × WorkerState)
unfolding observe settle decide
watch now s observed =
    let (s', confirmed) = observe s observed in
    let v : Option (Reason × WorkerState) = decide now s confirmed in (settle now s' v, v)
