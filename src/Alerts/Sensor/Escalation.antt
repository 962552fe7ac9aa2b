-- ===== src/Alerts/Sensor/Escalation.antt =====
-- When a sensor's danger is confirmed: at the fifth observation within the window, whatever normal
-- observations stand between.
use sen_sa.Prelude.{
  ℕ, ◌+◌, ◌≤◌, ◌<◌, ◌≡◌, refl, ◌∙◌, ap, sym, All, map, Bool, true, Option, none, some, List, [],
  ◌∷◌, String, arith, ◌⊎◌,
}
use mathlib.Core.Path.{ap₂}
use native.Mathlib.Nat.{add-zero, add_assoc}
use sen_sa.Prelude.Float.{FloatOps}
use sen_sa.Alerts.Types.{Status, Reason, transition, parse_status, is_sensor_escalation}
use sen_sa.Alerts.Common.{caution_window, danger_count_threshold}
use sen_sa.Alerts.Store.{SensorSnapshot, get_sensor_snapshot, ttl}
use sen_sa.Alerts.World.{World, SensorPayload}
use sen_sa.Alerts.Fences.{Db}
use sen_sa.Alerts.Worker.Message.{status_text}
use sen_sa.Alerts.Sensor.Evaluate.{Reading, evaluate_status, evaluate_sensor}
use sen_sa.Alerts.Sensor.Spec.{advance, watch}
use sen_sa.Alerts.Sensor.Refinement.{said, due, evaluate_status-watch}

-- The arguments of a call for one sensor, whose observed status is a status's name.
pub record Arrival (F : Type 0) : Type 0 where
  pub db : Db F
  pub now : ℕ
  pub sensor_type : String
  pub observed : Status
  pub detail : String
  pub is_ai : Bool
  pub ai_detail : String

abbrev pub reading : {F : Type 0} → String → Arrival F → Reading
reading id a = record {
  device_id = id;
  sensor_type = a.sensor_type;
  observed_status = status_text a.observed;
  detail = a.detail;
  is_ai = a.is_ai;
  ai_detail = a.ai_detail;
}

parse_status-status_text : (s : Status) → parse_status (status_text s) ≡ some s
unfolding parse_status
parse_status-status_text Status.normal = refl
parse_status-status_text Status.caution = refl
parse_status-status_text Status.danger = refl

abbrev pub one_if_danger : Status → ℕ
one_if_danger Status.danger = 1
one_if_danger _ = 0

-- A sensor that is normal, whose window of danger began at `first` and has seen `count` so far.
abbrev HasSeen : ℕ → ℕ → SensorSnapshot → Type 0
HasSeen first count s =
    (s.state ≡ Status.normal) × (s.danger_window ≡ record { count = count; first_at = first })

module _ (now : ℕ) (s : SensorSnapshot) where
  watch_normal : s.state ≡ Status.normal → watch now s Status.normal ≡ (s, none)
  unfolding watch
  watch_normal e = ground arith

  watch_begins :
      s.state ≡ Status.normal
      → s.danger_window.first_at ≡ 0
      → HasSeen now 1 (watch now s Status.danger).0 × ((watch now s Status.danger).1 ≡ none)
  unfolding watch advance is_sensor_escalation
  watch_begins e b = ground arith

  watch_counts :
      (first count : ℕ)
      → HasSeen first count s
      → 0 < first
      → now ≤ first + caution_window
      → count + 1 < danger_count_threshold
      → HasSeen first (count + 1) (watch now s Status.danger).0
        × ((watch now s Status.danger).1 ≡ none)
  unfolding watch advance is_sensor_escalation
  watch_counts first count (e, b) p inside few = ground arith

  -- One of the counted observations is danger, all others count nothing.
  watch_mild :
      (first count : ℕ) (st : Status)
      → HasSeen first count s
      → 0 < first
      → now ≤ first + caution_window
      → (st ≡ Status.normal) ⊎ (st ≡ Status.danger)
      → count + one_if_danger st < danger_count_threshold
      → HasSeen first (count + one_if_danger st) (watch now s st).0 × ((watch now s st).1 ≡ none)
  watch_mild first count Status.normal seen p inside mild few =
      rw (watch_normal seen.0, add-zero) (seen, refl)
  watch_mild first count Status.caution seen p inside mild few = absurd (ground arith)
  watch_mild first count Status.danger seen p inside mild few =
      watch_counts first count seen p inside few

  watch_confirms :
      (first count : ℕ)
      → HasSeen first count s
      → 0 < first
      → now ≤ first + caution_window
      → danger_count_threshold ≤ count + 1
      → (watch now s Status.danger).1 ≡ some (transition, Status.danger)
  unfolding watch advance is_sensor_escalation
  watch_confirms first count (e, b) p inside enough = ground arith

module _ (fl : FloatOps) (id : String) where
  open fl use {Float}

  abbrev pub arrive : World Float → Arrival Float → World Float × List SensorPayload
  arrive w a = evaluate_sensor fl a.db w a.now (reading id a)

  abbrev pub arrivals :
      World Float → List (Arrival Float) → World Float × List (List (Reason × Status))
  arrivals w [] = (w, [])
  arrivals w (a ∷ rest) =
      let (w', created) = arrive w a in
      let (end, said_later) = arrivals w' rest in (end, said created ∷ said_later)

  -- Until an instant, all reads of the sensor's key give `s`.
  abbrev pub IsKnown : SensorSnapshot → (until : ℕ) → World Float → Type 0
  IsKnown s until w =
      (w.redis.up ≡ true) × ((t : ℕ) → t ≤ until → get_sensor_snapshot w.redis t id ≡ s)

  pub arrive_lem :
      (w : World Float) (a : Arrival Float)
      → arrive w a ≡ evaluate_status fl a.db w a.now (reading id a) a.observed
  unfolding evaluate_sensor
  arrive_lem w a = rw (parse_status-status_text a.observed, evaluate_sensor)

  arrive-IsKnown :
      (w : World Float) (a : Arrival Float) (s : SensorSnapshot) (until : ℕ)
      → IsKnown s until w
      → a.now ≤ until
      → until < a.now + ttl
      → let (s', v) = watch a.now s a.observed in
        IsKnown s' until (arrive w a).0 × (said (arrive w a).1 ≡ due v)
  arrive-IsKnown w a s until (up, known) before alive = rw (arrive_lem w a) (
      let step = λ (t : ℕ) (h : t ≤ until).
        evaluate_status-watch fl a.db w a.now t (reading id a) a.observed up (omega arith)
          (known t h ∙ sym (known a.now before)) in
      let moved = ap (λ s. watch a.now s a.observed) (known a.now before) in
      (
        (
          (step a.now before).2,
          λ t h. (step t h).0 ∙ ap (λ (p : SensorSnapshot × Option (Reason × Status)). p.0) moved,
        ),
        (step a.now before).1
            ∙ ap (λ (p : SensorSnapshot × Option (Reason × Status)). due p.1) moved,
      ))

  -- An arrival within the window that begins at `first`, normal or danger.
  abbrev pub IsMild : (first : ℕ) → Arrival Float → Type 0
  IsMild first a =
      (first ≤ a.now)
      × (a.now ≤ first + caution_window)
      × ((a.observed ≡ Status.normal) ⊎ (a.observed ≡ Status.danger))

  abbrev pub dangers : List (Arrival Float) → ℕ
  dangers [] = 0
  dangers (a ∷ rest) = one_if_danger a.observed + dangers rest

  abbrev HasCounted : (first count : ℕ) → World Float → Type 0
  HasCounted first count w =
      (s : SensorSnapshot) × HasSeen first count s × IsKnown s (first + caution_window) w

  arrive-HasCounted :
      (w : World Float) (a : Arrival Float) (first count : ℕ)
      → 0 < first
      → HasCounted first count w
      → IsMild first a
      → count + one_if_danger a.observed < danger_count_threshold
      → HasCounted first (count + one_if_danger a.observed) (arrive w a).0
        × (said (arrive w a).1 ≡ [])
  arrive-HasCounted w a first count p (s, seen, known) (after, inside, mild) few =
      let (known', told) =
        arrive-IsKnown w a s (first + caution_window) known inside (omega arith) in
      let (seen', quiet) = watch_mild a.now s first count a.observed seen p inside mild few in
      (((watch a.now s a.observed).0, seen', known'), told ∙ ap due quiet)

  arrivals-HasCounted :
      (w : World Float) (rs : List (Arrival Float)) (first count : ℕ)
      → 0 < first
      → HasCounted first count w
      → All (IsMild first) rs
      → count + dangers rs < danger_count_threshold
      → HasCounted first (count + dangers rs) (arrivals w rs).0
        × ((arrivals w rs).1 ≡ map (λ _. []) rs)
  arrivals-HasCounted w [] first count p counted mild few = rw add-zero (counted, refl)
  arrivals-HasCounted w (a ∷ rs) first count p counted (mild, milds) few =
      let (next, quiet) = arrive-HasCounted w a first count p counted mild (omega arith) in
      let (end, quiets) =
        arrivals-HasCounted (arrive w a).0 rs first (count + one_if_danger a.observed) p next milds
          (omega arith) in
      (rw (← add_assoc count (one_if_danger a.observed) (dangers rs)) end, ap₂ ◌∷◌ quiet quiets)

  -- A normal sensor whose window of danger has not begun, while Redis answers and its key stays:
  -- a first danger, any normal observations and three more dangers within the window's 10 seconds
  -- raise no alarm, and one more danger within them raises the one alarm of the transition.
  pub evaluate_sensor_fifth_danger :
      (w : World Float) (a z : Arrival Float) (rs : List (Arrival Float)) (s : SensorSnapshot)
      → 0 < a.now
      → IsKnown s (a.now + caution_window) w
      → (s.state ≡ Status.normal) × (s.danger_window.first_at ≡ 0)
      → a.observed ≡ Status.danger
      → All (IsMild a.now) rs
      → dangers rs ≡ 3
      → IsMild a.now z
      → z.observed ≡ Status.danger
      → let (w1, first) = arrive w a in
        let (w2, between) = arrivals w1 rs in
        (said first ≡ [])
        × (between ≡ map (λ _. []) rs)
        × (said (arrive w2 z).1 ≡ (transition, Status.danger) ∷ [])
  evaluate_sensor_fifth_danger w a z rs s p known (calm, fresh) first_danger milds three
        (after, inside, mild) fifth =
      let (known1, told1) =
        arrive-IsKnown w a s (a.now + caution_window) known (omega arith) (omega arith) in
      let (seen1, quiet1) = watch_begins a.now s calm fresh in
      let start : HasCounted a.now 1 (arrive w a).0 =
        ((watch a.now s a.observed).0, rw first_danger seen1, known1) in
      let ((s2, seen2, known2), quiet2) =
        arrivals-HasCounted (arrive w a).0 rs a.now 1 p start milds (omega arith) in
      let (_, told3) =
        arrive-IsKnown (arrivals (arrive w a).0 rs).0 z s2 (a.now + caution_window) known2 inside
          (omega arith) in
      let silent1 : (watch a.now s a.observed).1 ≡ none = rw first_danger quiet1 in
      let alarmed : (watch z.now s2 z.observed).1 ≡ some (transition, Status.danger) =
        rw fifth (watch_confirms z.now s2 a.now (1 + dangers rs) seen2 p inside (omega arith)) in
      (told1 ∙ ap due silent1, quiet2, told3 ∙ ap due alarmed)
